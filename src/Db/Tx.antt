-- ===== src/Db/Tx.antt =====
-- db/sqlc/store.go and the tx_*.go files: `execTx` and the four transactions.
-- A transaction that fails gives back the tables that it began with; the sequences keep what they
-- have handed out. A commit whose reply is lost has taken effect.
pub mod Atomic
pub mod Adjust
pub mod Create
pub mod Roles
pub mod Replace
pub mod Verdict
pub mod Withdrawals
use template_golang_web.Base.{ℕ, String, List, [], ◌∷◌, ℤ, if◌then◌else◌}
use template_golang_web.Db.Model.{Wallet, WalletEntry, User, AdminUser}
use template_golang_web.Db.Error.{Error, Result, ok, err, is_no_rows}
use template_golang_web.Db.Users.{CreateUserParams, create_user}
use template_golang_web.Db.AdminUsers.{CreateAdminUserParams, create_admin_user}
use template_golang_web.Db.Wallets.{
  AdjustWalletBalanceParams, adjust_wallet_balance, create_wallet, get_wallet,
}
use template_golang_web.Db.Entries.{CreateWalletEntryParams, create_wallet_entry}
use template_golang_web.Db.Roles.{create_admin_user_role, delete_admin_user_roles}
use template_golang_web.Env.{
  Fault, fine, refused, lost, to_error, Env, World, Call, ticked, attempt, return, ◌>>=◌, ◌>>◌,
  stmt,
}

pub record AdjustWalletTxParams : Type 0 where
  pub wallet_id : ℕ
  pub amount : ℤ
  pub note : String
  pub operator_id : ℕ
  pub operator_username : String

abbrev pub balance_params : AdjustWalletTxParams → AdjustWalletBalanceParams
balance_params arg = record { amount = arg.amount; id = arg.wallet_id }

abbrev pub entry_params : AdjustWalletTxParams → CreateWalletEntryParams
entry_params arg = record {
  wallet_id = arg.wallet_id;
  amount = arg.amount;
  note = arg.note;
  operator_id = arg.operator_id;
  operator_username = arg.operator_username;
}

pub record AdjustWalletTxResult : Type 0 where
  pub wallet : Wallet
  pub entry : WalletEntry

pub record CreateUserTxResult : Type 0 where
  pub user : User
  pub wallet : Wallet

pub record CreateAdminUserTxParams : Type 0 where
  pub params : CreateAdminUserParams
  pub role_ids : List ℕ

pub record UpdateAdminUserRolesTxParams : Type 0 where
  pub admin_user_id : ℕ
  pub role_ids : List ℕ

-- The world after a rollback to the tables of `start`.
abbrev pub rolled_back : {R : Type 0} → World R → World R → World R
rolled_back start w = record w { db = record (w.db) { tables = start.db.tables } }

module _ {R : Type 0} (env : Env R) where
  -- tx.Rollback(): an error of it wraps the texts of both errors, which errors.Is does not see.
  rollback : {A : Type 0} → World R → Error → Call R A
  rollback start e w = elim (env.fault w.tick) [
    | fine ↦ (err e, rolled_back start (ticked w))
    | _ ↦ (err Error.unavailable, rolled_back start (ticked w))
  ]

  commit : {A : Type 0} → World R → A → Call R A
  commit start a w = elim (env.fault w.tick) [
    | fine ↦ (ok a, ticked w)
    | refused f ↦ (err (to_error f), rolled_back start (ticked w))
    | lost f ↦ (err (to_error f), ticked w)
  ]

  unfoldable pub exec_tx : {A : Type 0} → Call R A → Call R A
  unfolding attempt rollback commit
  exec_tx fn = do
    attempt env.fault (λ w. (ok tt, w))
    λ start.
        let (r, w) = fn start in elim r [ ok a ↦ commit start a w | err e ↦ rollback start e w ]

  -- No row was updated: is the wallet there?
  unfoldable pub explain : {A : Type 0} → ℕ → Error → Call R A
  explain wallet_id e w =
      if is_no_rows e
      then (let (r, w') = stmt env (get_wallet wallet_id) w in
          elim r [ ok _ ↦ (err Error.insufficient_balance, w') | err _ ↦ (err e, w') ])
      else (err e, w)

  unfoldable pub record_entry : AdjustWalletTxParams → Wallet → Call R AdjustWalletTxResult
  record_entry arg wallet = do
    entry ← stmt env (create_wallet_entry (entry_params arg))
    return (record { wallet = wallet; entry = entry })

  unfoldable pub adjust_body : AdjustWalletTxParams → Call R AdjustWalletTxResult
  adjust_body arg w =
      let (r, w') = stmt env (adjust_wallet_balance (balance_params arg)) w in
      elim r [ ok wallet ↦ record_entry arg wallet w' | err e ↦ explain arg.wallet_id e w' ]

  unfoldable pub adjust_wallet_tx : AdjustWalletTxParams → Call R AdjustWalletTxResult
  adjust_wallet_tx arg = exec_tx (adjust_body arg)

  unfoldable pub add_wallet : User → Call R CreateUserTxResult
  add_wallet user = do
    wallet ← stmt env (create_wallet user.id)
    return (record { user = user; wallet = wallet })

  unfoldable pub create_user_body : CreateUserParams → Call R CreateUserTxResult
  create_user_body arg = do user ← stmt env (create_user arg); add_wallet user

  unfoldable pub create_user_tx : CreateUserParams → Call R CreateUserTxResult
  create_user_tx arg = exec_tx (create_user_body arg)

  -- for _, roleID := range arg.RoleIDs
  unfoldable pub bind_roles : ℕ → List ℕ → Call R (Unit {0})
  bind_roles admin_user_id [] = return tt
  bind_roles admin_user_id (role_id ∷ rest) = do
    stmt env (create_admin_user_role (record { admin_user_id = admin_user_id; role_id = role_id }))
    bind_roles admin_user_id rest

  unfoldable pub create_admin_user_body : CreateAdminUserTxParams → Call R AdminUser
  create_admin_user_body arg = do
    user ← stmt env (create_admin_user arg.params)
    bind_roles user.id arg.role_ids
    return user

  unfoldable pub create_admin_user_tx : CreateAdminUserTxParams → Call R AdminUser
  create_admin_user_tx arg = exec_tx (create_admin_user_body arg)

  unfoldable pub update_roles_body : UpdateAdminUserRolesTxParams → Call R (Unit {0})
  update_roles_body arg = do
    stmt env (delete_admin_user_roles arg.admin_user_id)
    bind_roles arg.admin_user_id arg.role_ids

  unfoldable pub update_admin_user_roles_tx : UpdateAdminUserRolesTxParams → Call R (Unit {0})
  update_admin_user_roles_tx arg = exec_tx (update_roles_body arg)

  -- store.db.PingContext
  unfoldable pub ping : Call R (Unit {0})
  unfolding attempt
  ping = attempt env.fault (λ w. (ok tt, w))
