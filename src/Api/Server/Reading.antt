-- ===== src/Api/Server/Reading.antt =====
-- The handlers that read: they leave the database as it is, whatever befalls their calls.
use template_golang_web.Base.{ℕ, ◌≡◌, refl, arith, Option}
use template_golang_web.Env.{Env, World, AuthUser, stmt}
use template_golang_web.Db.Users
use template_golang_web.Db.AdminUsers
use template_golang_web.Db.Wallets
use template_golang_web.Db.Entries
use template_golang_web.Db.Roles
use template_golang_web.Db.OperationLogs
use template_golang_web.Db.Tx
use template_golang_web.Cache
use template_golang_web.Api.Page.{PageRequest}
use template_golang_web.Api.Users as UserApi
use template_golang_web.Api.Wallets as WalletApi
use template_golang_web.Api.AdminUsers as AdminApi
use template_golang_web.Api.System
use template_golang_web.Api.Audit

module _ {R : Type 0} (env : Env R) (w : World R) where
  pub list_users_db : (query : Option PageRequest) → (UserApi.list_users env query w).1.db ≡ w.db
  unfolding UserApi.list_users Users.list_users Users.count_users stmt
  list_users_db query = ground arith

  pub get_user_db : (id : Option ℕ) → (UserApi.get_user env id w).1.db ≡ w.db
  unfolding UserApi.get_user Users.get_user stmt
  get_user_db id = ground arith

  pub list_wallets_db :
      (query : Option PageRequest) → (WalletApi.list_wallets env query w).1.db ≡ w.db
  unfolding WalletApi.list_wallets Wallets.list_wallets Wallets.count_wallets stmt
  list_wallets_db query = ground arith

  pub get_wallet_db : (id : Option ℕ) → (WalletApi.get_wallet env id w).1.db ≡ w.db
  unfolding WalletApi.get_wallet Wallets.get_wallet_detail stmt
  get_wallet_db id = ground arith

  pub list_wallet_entries_db :
      (id : Option ℕ) (query : Option PageRequest)
      → (WalletApi.list_wallet_entries env id query w).1.db ≡ w.db
  unfolding WalletApi.list_wallet_entries Entries.list_wallet_entries Entries.count_wallet_entries
      stmt
  list_wallet_entries_db id query = ground arith

  pub list_admin_users_db :
      (query : Option PageRequest) → (AdminApi.list_admin_users env query w).1.db ≡ w.db
  unfolding AdminApi.list_admin_users AdminUsers.list_admin_users AdminUsers.count_admin_users
      Roles.list_admin_user_roles stmt
  list_admin_users_db query = ground arith

  pub list_roles_db : (AdminApi.list_roles env w).1.db ≡ w.db
  unfolding AdminApi.list_roles Roles.list_roles Roles.list_role_permissions stmt
  list_roles_db = ground arith

  pub list_operation_logs_db :
      (query : Option PageRequest) → (Audit.list_operation_logs env query w).1.db ≡ w.db
  unfolding Audit.list_operation_logs OperationLogs.list_operation_logs
      OperationLogs.count_operation_logs stmt
  list_operation_logs_db query = ground arith

  pub ready_check_db : (System.ready_check env w).1.db ≡ w.db
  unfolding System.ready_check Tx.ping Cache.ping
  ready_check_db = ground arith

  pub health_check_db : (System.health_check env w).1.db ≡ w.db
  unfolding System.health_check
  health_check_db = refl

  pub dashboard_stats_db : (user : AuthUser) → (System.dashboard_stats env user w).1.db ≡ w.db
  unfolding System.dashboard_stats System.permitted Users.count_users Wallets.sum_wallet_balances
      OperationLogs.count_operation_logs_since stmt
  dashboard_stats_db user = ground arith
