-- ===== src/Db/Registry/Calls.antt =====
-- The invariant of the unique columns under every call of the store that the program makes.
use template_golang_web.Base.{ℕ, refl, inl, inr, arith, List, [], ◌∷◌}
use template_golang_web.Db.Model.{AdminUser, Tables}
use template_golang_web.Db.Error.{Query}
use template_golang_web.Db.Users.{CreateUserParams}
use template_golang_web.Db.Users
use template_golang_web.Db.AdminUsers
use template_golang_web.Db.OperationLogs
use template_golang_web.Db.Roles.{
  CreateAdminUserRoleParams, create_admin_user_role, delete_admin_user_roles,
}
use template_golang_web.Env.{Env, World, ticked, stmt, return, ◌>>=◌}
use template_golang_web.Db.Tx.{
  AdjustWalletTxParams, AdjustWalletTxResult, CreateUserTxResult, CreateAdminUserTxParams,
  UpdateAdminUserRolesTxParams, bind_roles, create_admin_user_body, create_admin_user_tx,
  update_roles_body, update_admin_user_roles_tx,
}
use template_golang_web.Db.Tx.Atomic.{stmt_keeps, exec_tx_keeps, >>=_keeps}
use template_golang_web.Db.Tx.Adjust.{IsAdjusted, adjust_wallet_tx_atomic}
use template_golang_web.Db.Tx.Create.{IsCreated, create_user_tx_atomic}
use template_golang_web.Db.Store.{
  StoreCall, create_user, create_admin_user, update_admin_user_roles, adjust_wallet,
  soft_delete_user, restore_user, soft_delete_admin_user, restore_admin_user, update_user_password,
  update_admin_user_password, create_operation_log, delete_operation_logs_before, run_call,
  run_calls,
}
use template_golang_web.Db.Registry.{HasNoClash-concat, user_clash, wallet_clash, IsRegistered}
use template_golang_web.Db.Registry.Queries.{
  Keeps, IsRegistered-of_same, user_clash-free, wallet_clash-free, set_balance-HasNoClash,
  create_admin_user-Keeps, soft_delete_user-Keeps, soft_delete_admin_user-Keeps,
  update_user_password-Keeps, update_admin_user_password-Keeps, restore_user-Keeps,
  restore_admin_user-Keeps,
}

IsCreated-IsRegistered :
    (arg : CreateUserParams) (before after : Tables) (res : CreateUserTxResult)
    → IsCreated arg before after res
    → IsRegistered before
    → IsRegistered after
IsCreated-IsRegistered arg before after res c i =
    let u = res.user in
    let w = res.wallet in
    let free_user = user_clash-free u before.users c.new_id (rw (c.username, c.email) c.free) in
    let free_wallet = wallet_clash-free w before.wallets c.new_wallet_id (rw c.owner c.no_wallet) in
    rw c.result (record {
      users = HasNoClash-concat user_clash before.users u free_user i.users;
      admin_users = i.admin_users;
      wallets = HasNoClash-concat wallet_clash before.wallets w free_wallet i.wallets;
    })

IsAdjusted-IsRegistered :
    (arg : AdjustWalletTxParams) (before after : Tables) (res : AdjustWalletTxResult)
    → IsAdjusted arg before after res
    → IsRegistered before
    → IsRegistered after
IsAdjusted-IsRegistered arg before after res a i = rw a.result (record {
  users = i.users;
  admin_users = i.admin_users;
  wallets = set_balance-HasNoClash arg.wallet_id _ before.wallets i.wallets;
})

create_admin_user_role-Keeps :
    (arg : CreateAdminUserRoleParams) → Keeps (create_admin_user_role arg)
unfolding create_admin_user_role
create_admin_user_role-Keeps arg now d i =
    IsRegistered-of_same d.tables _ (ground arith) (ground arith) (ground arith) i

delete_admin_user_roles-Keeps : (id : ℕ) → Keeps (delete_admin_user_roles id)
unfolding delete_admin_user_roles
delete_admin_user_roles-Keeps id now d i = IsRegistered-of_same d.tables _ refl refl refl i

create_operation_log-Keeps :
    (arg : OperationLogs.CreateOperationLogParams) → Keeps (OperationLogs.create_operation_log arg)
unfolding OperationLogs.create_operation_log
create_operation_log-Keeps arg now d i =
    IsRegistered-of_same d.tables _ (ground arith) (ground arith) (ground arith) i

delete_operation_logs_before-Keeps : (t : ℕ) → Keeps (OperationLogs.delete_operation_logs_before t)
unfolding OperationLogs.delete_operation_logs_before
delete_operation_logs_before-Keeps t now d i = IsRegistered-of_same d.tables _ refl refl refl i

module _ {R : Type 0} (env : Env R) where
  stmt-IsRegistered :
      {A : Type 0} (q : Query A) (w : World R)
      → Keeps q
      → IsRegistered w.db.tables
      → IsRegistered (stmt env q w).1.db.tables
  stmt-IsRegistered q w keep i = stmt_keeps env IsRegistered q w keep i

  bind_roles-IsRegistered :
      (id : ℕ) (role_ids : List ℕ) (w : World R)
      → IsRegistered w.db.tables
      → IsRegistered (bind_roles env id role_ids w).1.db.tables
  unfolding bind_roles
  bind_roles-IsRegistered id [] w i = i
  bind_roles-IsRegistered id (r ∷ rs) w i =
      let arg : CreateAdminUserRoleParams = record { admin_user_id = id; role_id = r } in
      let q = create_admin_user_role arg in
      let kept = stmt-IsRegistered q w (create_admin_user_role-Keeps arg) i in
      >>=_keeps IsRegistered (stmt env q) (λ _. bind_roles env id rs) w kept
        (λ _. bind_roles-IsRegistered id rs (stmt env q w).1 kept)

  create_admin_user_body-IsRegistered :
      (arg : CreateAdminUserTxParams) (w : World R)
      → IsRegistered w.db.tables
      → IsRegistered (create_admin_user_body env arg w).1.db.tables
  unfolding create_admin_user_body
  create_admin_user_body-IsRegistered arg w i =
      let q = AdminUsers.create_admin_user arg.params in
      let kept = stmt-IsRegistered q w (create_admin_user-Keeps arg.params) i in
      let bound =
        λ (u : AdminUser). bind_roles-IsRegistered u.id arg.role_ids (stmt env q w).1 kept in
      >>=_keeps IsRegistered (stmt env q) (λ u. bind_roles env u.id arg.role_ids >>= λ _. return u)
        w kept
        (λ u.
          >>=_keeps IsRegistered (bind_roles env u.id arg.role_ids) (λ _. return u) (stmt env q w).1
            (bound u) (λ _. bound u))

  update_roles_body-IsRegistered :
      (arg : UpdateAdminUserRolesTxParams) (w : World R)
      → IsRegistered w.db.tables
      → IsRegistered (update_roles_body env arg w).1.db.tables
  unfolding update_roles_body
  update_roles_body-IsRegistered arg w i =
      let q = delete_admin_user_roles arg.admin_user_id in
      let kept = stmt-IsRegistered q w (delete_admin_user_roles-Keeps arg.admin_user_id) i in
      >>=_keeps IsRegistered (stmt env q) (λ _. bind_roles env arg.admin_user_id arg.role_ids) w
        kept (λ _. bind_roles-IsRegistered arg.admin_user_id arg.role_ids (stmt env q w).1 kept)

  pub run_call-IsRegistered :
      (c : StoreCall) (w : World R)
      → IsRegistered w.db.tables
      → IsRegistered (run_call env c w).db.tables
  unfolding run_call create_admin_user_tx update_admin_user_roles_tx
  run_call-IsRegistered (create_user arg) w i = elim (create_user_tx_atomic env arg w) [
    | inl same ↦ rw same i
    | inr (res, c) ↦ IsCreated-IsRegistered arg w.db.tables _ res c i
  ]
  run_call-IsRegistered (create_admin_user arg) w i =
      exec_tx_keeps env IsRegistered (create_admin_user_body env arg) w i
        (create_admin_user_body-IsRegistered arg (ticked w) i)
  run_call-IsRegistered (update_admin_user_roles arg) w i =
      exec_tx_keeps env IsRegistered (update_roles_body env arg) w i
        (update_roles_body-IsRegistered arg (ticked w) i)
  run_call-IsRegistered (adjust_wallet arg) w i = elim (adjust_wallet_tx_atomic env arg w) [
    | inl same ↦ rw same i
    | inr (res, a) ↦ IsAdjusted-IsRegistered arg w.db.tables _ res a i
  ]
  run_call-IsRegistered (soft_delete_user id) w i =
      stmt-IsRegistered (Users.soft_delete_user id) w (soft_delete_user-Keeps id) i
  run_call-IsRegistered (restore_user id) w i =
      stmt-IsRegistered (Users.restore_user id) w (restore_user-Keeps id) i
  run_call-IsRegistered (soft_delete_admin_user id) w i =
      stmt-IsRegistered (AdminUsers.soft_delete_admin_user id) w (soft_delete_admin_user-Keeps id) i
  run_call-IsRegistered (restore_admin_user id) w i =
      stmt-IsRegistered (AdminUsers.restore_admin_user id) w (restore_admin_user-Keeps id) i
  run_call-IsRegistered (update_user_password arg) w i =
      stmt-IsRegistered (Users.update_user_password arg) w (update_user_password-Keeps arg) i
  run_call-IsRegistered (update_admin_user_password arg) w i =
      stmt-IsRegistered (AdminUsers.update_admin_user_password arg) w
        (update_admin_user_password-Keeps arg) i
  run_call-IsRegistered (create_operation_log arg) w i =
      stmt-IsRegistered (OperationLogs.create_operation_log arg) w (create_operation_log-Keeps arg)
        i
  run_call-IsRegistered (delete_operation_logs_before t) w i =
      stmt-IsRegistered (OperationLogs.delete_operation_logs_before t) w
        (delete_operation_logs_before-Keeps t) i

  -- From tables in which no two live users share a username or an email, no two live accounts of the
  -- back office share a username, no user has two wallets and no two of these rows share an id, every
  -- sequence of the calls of the store that the handlers, the audit layer and the clean-up make, with
  -- any arguments, leads to such tables, whichever of the calls fail.
  pub run_calls-IsRegistered :
      (cs : List StoreCall) (w : World R)
      → IsRegistered w.db.tables
      → IsRegistered (run_calls env cs w).db.tables
  unfolding run_calls
  run_calls-IsRegistered [] w i = i
  run_calls-IsRegistered (c ∷ cs) w i =
      run_calls-IsRegistered cs (run_call env c w) (run_call-IsRegistered c w i)
