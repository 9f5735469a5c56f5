-- ===== src/Db/Ledger/Effect.antt =====
-- What a call of the store may do to the wallets and their entries: nothing, a registration, or an
-- adjustment.
use template_golang_web.Base.{ℕ, ◌≡◌, refl, inl, inr, ap, arith}
use template_golang_web.Db.Model.{Tables, Database}
use template_golang_web.Db.Error.{Query}
use template_golang_web.Db.Users.{CreateUserParams}
use template_golang_web.Db.Users
use template_golang_web.Db.AdminUsers
use template_golang_web.Db.OperationLogs
use template_golang_web.Db.Tx.{CreateUserTxResult, AdjustWalletTxParams, AdjustWalletTxResult}
use template_golang_web.Db.Tx.Atomic.{stmt_keeps}
use template_golang_web.Db.Tx.Adjust.{IsAdjusted, adjust_wallet_tx_atomic}
use template_golang_web.Db.Tx.Create.{IsCreated, create_user_tx_atomic}
use template_golang_web.Db.Tx.Roles.{create_admin_user_tx_same, update_admin_user_roles_tx_same}
use template_golang_web.Db.Store.{
  StoreCall, create_user, create_admin_user, update_admin_user_roles, adjust_wallet,
  soft_delete_user, restore_user, soft_delete_admin_user, restore_admin_user, update_user_password,
  update_admin_user_password, create_operation_log, delete_operation_logs_before, run_call,
}
use template_golang_web.Env.{Env, World, stmt}

pub data Effect (s t : Tables) : Type 0 where
  apart : t.wallets ≡ s.wallets → t.wallet_entries ≡ s.wallet_entries → Effect s t
  created : (arg : CreateUserParams) (res : CreateUserTxResult) → IsCreated arg s t res → Effect s t
  adjusted :
      (arg : AdjustWalletTxParams) (res : AdjustWalletTxResult)
      → IsAdjusted arg s t res
      → Effect s t

-- A query that touches neither wallets nor entries.
abbrev IsApart : {A : Type 0} → Query A → Type 0
IsApart q =
    (now : ℕ) (d : Database)
    → ((q now d).1.tables.wallets ≡ d.tables.wallets)
      × ((q now d).1.tables.wallet_entries ≡ d.tables.wallet_entries)

module _ {R : Type 0} (env : Env R) where
  apart-Effect :
      {A : Type 0} (q : Query A) (w : World R)
      → IsApart q
      → Effect w.db.tables (stmt env q w).1.db.tables
  apart-Effect q w same =
      let (ws, es) =
        stmt_keeps env
          (λ t. (t.wallets ≡ w.db.tables.wallets) × (t.wallet_entries ≡ w.db.tables.wallet_entries))
          q w (λ now d p. let (ws, es) = same now d in ground arith) (refl, refl) in
      apart ws es

  pub run_call-Effect :
      (c : StoreCall) (w : World R) → Effect w.db.tables (run_call env c w).db.tables
  unfolding run_call
  run_call-Effect (create_user arg) w = elim (create_user_tx_atomic env arg w) [
    | inl same ↦ apart (ap (λ t. t.wallets) same) (ap (λ t. t.wallet_entries) same)
    | inr (res, c) ↦ created arg res c
  ]
  run_call-Effect (create_admin_user arg) w =
      let (_, ws, es) = create_admin_user_tx_same env w.db.tables arg w (refl, refl, refl) in
      apart ws es
  run_call-Effect (update_admin_user_roles arg) w =
      let (_, ws, es) = update_admin_user_roles_tx_same env w.db.tables arg w (refl, refl, refl) in
      apart ws es
  run_call-Effect (adjust_wallet arg) w = elim (adjust_wallet_tx_atomic env arg w) [
    | inl same ↦ apart (ap (λ t. t.wallets) same) (ap (λ t. t.wallet_entries) same)
    | inr (res, a) ↦ adjusted arg res a
  ]
  run_call-Effect (soft_delete_user id) w =
      apart-Effect (Users.soft_delete_user id) w
        (λ now d. unfold Users.soft_delete_user in (refl, refl))
  run_call-Effect (restore_user id) w =
      apart-Effect (Users.restore_user id) w (λ now d. unfold Users.restore_user in (ground arith))
  run_call-Effect (soft_delete_admin_user id) w =
      apart-Effect (AdminUsers.soft_delete_admin_user id) w
        (λ now d. unfold AdminUsers.soft_delete_admin_user in (refl, refl))
  run_call-Effect (restore_admin_user id) w =
      apart-Effect (AdminUsers.restore_admin_user id) w
        (λ now d. unfold AdminUsers.restore_admin_user in (ground arith))
  run_call-Effect (update_user_password arg) w =
      apart-Effect (Users.update_user_password arg) w
        (λ now d. unfold Users.update_user_password in (refl, refl))
  run_call-Effect (update_admin_user_password arg) w =
      apart-Effect (AdminUsers.update_admin_user_password arg) w
        (λ now d. unfold AdminUsers.update_admin_user_password in (refl, refl))
  run_call-Effect (create_operation_log arg) w =
      apart-Effect (OperationLogs.create_operation_log arg) w
        (λ now d. unfold OperationLogs.create_operation_log in (ground arith))
  run_call-Effect (delete_operation_logs_before t) w =
      apart-Effect (OperationLogs.delete_operation_logs_before t) w
        (λ now d. unfold OperationLogs.delete_operation_logs_before in (refl, refl))
