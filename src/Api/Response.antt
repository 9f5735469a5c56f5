-- ===== src/Api/Response.antt =====
-- api/response.go, and the bodies that the handlers answer with.
use template_golang_web.Base.{ℕ, String, Option, List, ℤ, if◌then◌else◌}
use template_golang_web.Errcode.{Code}
use template_golang_web.Errcode
use template_golang_web.Db.Model.{User, AdminUser, Wallet, WalletEntry}
use template_golang_web.Db.Wallets.{WalletRow}
use template_golang_web.Db.Tx.{AdjustWalletTxResult}
use template_golang_web.Db.Error.{Error, is_deadline_exceeded}
use template_golang_web.Env.{AuthUser}

-- userResponse of api/user.go: a user without the password hash.
pub record UserResponse : Type 0 where
  pub id : ℕ
  pub username : String
  pub email : String
  pub created_at : ℕ
  pub deleted_at : Option ℕ

unfoldable pub new_user_response : User → UserResponse
new_user_response u = record {
  id = u.id;
  username = u.username;
  email = u.email;
  created_at = u.created_at;
  deleted_at = u.deleted_at;
}

-- adminUserResponse of api/admin_user.go.
pub record AdminUserResponse : Type 0 where
  pub id : ℕ
  pub username : String
  pub created_at : ℕ
  pub deleted_at : Option ℕ

unfoldable pub new_admin_user_response : AdminUser → AdminUserResponse
new_admin_user_response u = record {
  id = u.id;
  username = u.username;
  created_at = u.created_at;
  deleted_at = u.deleted_at;
}

pub record RoleBrief : Type 0 where
  pub id : ℕ
  pub name : String

pub record AdminUserWithRolesResponse : Type 0 where
  pub user : AdminUserResponse
  pub roles : List RoleBrief

-- roleResponse of api/role.go.
pub record RoleResponse : Type 0 where
  pub id : ℕ
  pub name : String
  pub description : String
  pub permissions : List String
  pub created_at : ℕ

-- operationLogResponse of api/audit.go; the text of the time is left to the JSON encoder.
pub record OperationLogResponse : Type 0 where
  pub id : ℕ
  pub user_id : Option ℕ
  pub username : String
  pub method : String
  pub path : String
  pub request_body : List ℕ
  pub status_code : ℕ
  pub request_id : String
  pub created_at : ℕ

-- dashboardStatsResponse of api/dashboard.go; `none` is null.
pub record DashboardStats : Type 0 where
  pub user_count : Option ℕ
  pub wallet_balance_total : Option ℤ
  pub today_operation_count : Option ℕ

pub record PageResult {ℓ} (A : Type ℓ) : Type ℓ where
  pub page_num : ℕ
  pub page_size : ℕ
  pub total : ℕ
  pub list : List A

-- Response.Data
pub data Payload : Type 0 where
  null : Payload
  text : String → Payload
  login_result : String → AdminUserResponse → Payload
  auth_user : AuthUser → Payload
  created_user : UserResponse → Wallet → Payload
  user : UserResponse → Payload
  user_page : PageResult UserResponse → Payload
  admin_user : AdminUserResponse → Payload
  admin_user_page : PageResult AdminUserWithRolesResponse → Payload
  role_list : List RoleResponse → Payload
  wallet : WalletRow → Payload
  wallet_page : PageResult WalletRow → Payload
  adjusted : AdjustWalletTxResult → Payload
  entry_page : PageResult WalletEntry → Payload
  log_page : PageResult OperationLogResponse → Payload
  stats : DashboardStats → Payload

-- What is written: the HTTP status, the code with its message, and the data.
pub record Response : Type 0 where
  pub status : ℕ
  pub code : Code
  pub msg : String
  pub payload : Payload

unfoldable pub ok : Payload → Response
ok p = record {
  status = 200;
  code = Code.success;
  msg = Errcode.msg (Errcode.number Code.success);
  payload = p;
}

-- The error goes to the log only.
unfoldable pub fail : ℕ → Code → Response
fail status code = record {
  status = status;
  code = code;
  msg = Errcode.msg (Errcode.number code);
  payload = null;
}

unfoldable pub fail_internal : Error → Response
fail_internal e = if is_deadline_exceeded e then fail 504 Code.timeout else fail 500 Code.internal
