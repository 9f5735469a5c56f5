-- ===== src/Db/Model.antt =====
-- db/sqlc/models.go: the rows of the tables. A bigserial key is a natural number, a timestamp is a
-- natural number, a nullable column is an `Option`; the text of a request is a list of bytes.
-- `Tables` holds the rows in the order of insertion, and `Sequences` the next value of each
-- bigserial column, which a rollback does not give back.
use template_golang_web.Base.{ℕ, String, Option, List, ℤ}

pub record AdminUser : Type 0 where
  pub id : ℕ
  pub username : String
  pub hashed_password : String
  pub created_at : ℕ
  pub deleted_at : Option ℕ

pub record AdminUserRole : Type 0 where
  pub admin_user_id : ℕ
  pub role_id : ℕ

pub record OperationLog : Type 0 where
  pub id : ℕ
  pub user_id : Option ℕ
  pub username : String
  pub method : String
  pub path : String
  pub request_body : List ℕ
  pub status_code : ℕ
  pub request_id : String
  pub created_at : ℕ

pub record Permission : Type 0 where
  pub id : ℕ
  pub code : String
  pub description : String
  pub created_at : ℕ

pub record Role : Type 0 where
  pub id : ℕ
  pub name : String
  pub description : String
  pub created_at : ℕ

pub record RolePermission : Type 0 where
  pub role_id : ℕ
  pub permission_id : ℕ

pub record User : Type 0 where
  pub id : ℕ
  pub username : String
  pub email : String
  pub created_at : ℕ
  pub hashed_password : String
  pub deleted_at : Option ℕ

pub record Wallet : Type 0 where
  pub id : ℕ
  pub user_id : ℕ
  pub balance : ℤ
  pub created_at : ℕ

pub record WalletEntry : Type 0 where
  pub id : ℕ
  pub wallet_id : ℕ
  pub amount : ℤ
  pub note : String
  pub operator_id : ℕ
  pub operator_username : String
  pub created_at : ℕ

pub record Tables : Type 0 where
  pub users : List User
  pub wallets : List Wallet
  pub wallet_entries : List WalletEntry
  pub admin_users : List AdminUser
  pub roles : List Role
  pub permissions : List Permission
  pub role_permissions : List RolePermission
  pub admin_user_roles : List AdminUserRole
  pub operation_logs : List OperationLog

pub record Sequences : Type 0 where
  pub users : ℕ
  pub wallets : ℕ
  pub wallet_entries : ℕ
  pub admin_users : ℕ
  pub operation_logs : ℕ

pub record Database : Type 0 where
  pub tables : Tables
  pub sequences : Sequences
