-- ===== src/Db/Store.antt =====
-- db/sqlc/store.go and querier.go: the calls of `Store` that the handlers, the audit layer and the
-- clean-up make and that change the database, as one type, and what a sequence of them by any number
-- of requests does. `Store` has the single statements of the transactions as methods too, such as
-- AdjustWalletBalance, which nothing but the transactions calls. Calls of different requests
-- follow one another in any order: a statement and a transaction are each one step.
use template_golang_web.Base.{ℕ, List, [], ◌∷◌}
use template_golang_web.Db.Users
use template_golang_web.Db.Users.{CreateUserParams, UpdateUserPasswordParams}
use template_golang_web.Db.AdminUsers
use template_golang_web.Db.AdminUsers.{UpdateAdminUserPasswordParams}
use template_golang_web.Db.OperationLogs
use template_golang_web.Db.OperationLogs.{CreateOperationLogParams}
use template_golang_web.Db.Tx.{
  AdjustWalletTxParams, CreateAdminUserTxParams, UpdateAdminUserRolesTxParams, adjust_wallet_tx,
  create_user_tx, create_admin_user_tx, update_admin_user_roles_tx,
}
use template_golang_web.Env.{Env, World, stmt}

pub data StoreCall : Type 0 where
  create_user : CreateUserParams → StoreCall
  create_admin_user : CreateAdminUserTxParams → StoreCall
  update_admin_user_roles : UpdateAdminUserRolesTxParams → StoreCall
  adjust_wallet : AdjustWalletTxParams → StoreCall
  soft_delete_user : ℕ → StoreCall
  restore_user : ℕ → StoreCall
  soft_delete_admin_user : ℕ → StoreCall
  restore_admin_user : ℕ → StoreCall
  update_user_password : UpdateUserPasswordParams → StoreCall
  update_admin_user_password : UpdateAdminUserPasswordParams → StoreCall
  create_operation_log : CreateOperationLogParams → StoreCall
  delete_operation_logs_before : ℕ → StoreCall

module _ {R : Type 0} (env : Env R) where
  unfoldable pub run_call : StoreCall → World R → World R
  run_call (create_user arg) w = (create_user_tx env arg w).1
  run_call (create_admin_user arg) w = (create_admin_user_tx env arg w).1
  run_call (update_admin_user_roles arg) w = (update_admin_user_roles_tx env arg w).1
  run_call (adjust_wallet arg) w = (adjust_wallet_tx env arg w).1
  run_call (soft_delete_user id) w = (stmt env (Users.soft_delete_user id) w).1
  run_call (restore_user id) w = (stmt env (Users.restore_user id) w).1
  run_call (soft_delete_admin_user id) w = (stmt env (AdminUsers.soft_delete_admin_user id) w).1
  run_call (restore_admin_user id) w = (stmt env (AdminUsers.restore_admin_user id) w).1
  run_call (update_user_password arg) w = (stmt env (Users.update_user_password arg) w).1
  run_call (update_admin_user_password arg) w =
      (stmt env (AdminUsers.update_admin_user_password arg) w).1
  run_call (create_operation_log arg) w = (stmt env (OperationLogs.create_operation_log arg) w).1
  run_call (delete_operation_logs_before t) w =
      (stmt env (OperationLogs.delete_operation_logs_before t) w).1

  unfoldable pub run_calls : List StoreCall → World R → World R
  run_calls [] w = w
  run_calls (c ∷ cs) w = run_calls cs (run_call c w)
