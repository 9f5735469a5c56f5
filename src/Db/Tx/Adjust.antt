-- ===== src/Db/Tx/Adjust.antt =====
-- db/sqlc/tx_adjust_wallet.go: a wallet adjustment is all or nothing.
use template_golang_web.Base.{
  ℕ, ◌≡◌, ◌⊎◌, inl, inr, arith, true, some, [], ◌∷◌, ◌++◌, map, pos, ◌+ℤ◌, ◌≤ℤ◌, is_int64, find,
  ◌==◌, Option-cases,
}
use template_golang_web.Db.Model.{Wallet, WalletEntry, Tables, Database}
use template_golang_web.Db.Error.{Error, ok, Result-cases}
use template_golang_web.Db.Wallets.{AdjustWalletBalanceParams, set_balance, adjust_wallet_balance}
use template_golang_web.Db.Entries.{CreateWalletEntryParams, create_wallet_entry}
use template_golang_web.Env.{Env, World, ticked, stmt}
use template_golang_web.Db.Tx.{
  AdjustWalletTxParams, AdjustWalletTxResult, explain, record_entry, adjust_body, adjust_wallet_tx,
  balance_params, entry_params,
}
use template_golang_web.Db.Tx.Atomic.{stmt-eq-ok, exec_tx-eq-ok, exec_tx_atomic}

-- The one statement that moves the balance.
pub record IsMoved (arg : AdjustWalletBalanceParams) (before after : Tables) (w : Wallet)
    : Type 0 where
  pub row : Wallet
  pub found : find (λ v. v.id == arg.id) before.wallets ≡ some row
  pub nonneg : pos 0 ≤ℤ row.balance +ℤ arg.amount
  pub fits : is_int64 (row.balance +ℤ arg.amount) ≡ true
  pub moved : w ≡ record row { balance = row.balance +ℤ arg.amount }
  pub others : after ≡ record before {
    wallets = map (set_balance arg.id (row.balance +ℤ arg.amount)) before.wallets;
  }

pub adjust_wallet_balance-IsMoved :
    (arg : AdjustWalletBalanceParams) (now : ℕ) (d : Database) (w : Wallet)
    → (adjust_wallet_balance arg now d).0 ≡ ok w
    → IsMoved arg d.tables (adjust_wallet_balance arg now d).1.tables w
unfolding adjust_wallet_balance
adjust_wallet_balance-IsMoved arg now d w h =
    elim (Option-cases (find (λ v. v.id == arg.id) d.tables.wallets)) [
      | inl missing ↦ absurd (ground arith)
      | inr (row, found) ↦ record {
        row = row;
        found = found;
        nonneg = ground arith;
        fits = ground arith;
        moved = ground arith;
        others = ground arith;
      }
    ]

-- The ledger entry that the adjustment leaves behind.
pub record IsBooked (arg : AdjustWalletTxParams) (e : WalletEntry) : Type 0 where
  pub wallet_id : e.wallet_id ≡ arg.wallet_id
  pub amount : e.amount ≡ arg.amount
  pub note : e.note ≡ arg.note
  pub operator_id : e.operator_id ≡ arg.operator_id
  pub operator_username : e.operator_username ≡ arg.operator_username

create_wallet_entry-eq-ok :
    (arg : CreateWalletEntryParams) (now : ℕ) (d : Database) (e : WalletEntry)
    → (create_wallet_entry arg now d).0 ≡ ok e
    → (e.wallet_id ≡ arg.wallet_id)
      × (e.amount ≡ arg.amount)
      × (e.note ≡ arg.note)
      × (e.operator_id ≡ arg.operator_id)
      × (e.operator_username ≡ arg.operator_username)
      × ((create_wallet_entry arg now d).1.tables
          ≡ record (d.tables) { wallet_entries = d.tables.wallet_entries ++ e ∷ [] })
unfolding create_wallet_entry
create_wallet_entry-eq-ok arg now d e h = ground arith

-- All that a successful adjustment does: one existing wallet gets the sum, which is not negative
-- and fits a bigint, one entry is appended, and nothing else changes.
pub record IsAdjusted (arg : AdjustWalletTxParams) (before after : Tables)
    (res : AdjustWalletTxResult) : Type 0 where
  pub row : Wallet
  pub found : find (λ v. v.id == arg.wallet_id) before.wallets ≡ some row
  pub nonneg : pos 0 ≤ℤ row.balance +ℤ arg.amount
  pub fits : is_int64 (row.balance +ℤ arg.amount) ≡ true
  pub wallet : res.wallet ≡ record row { balance = row.balance +ℤ arg.amount }
  pub booked : IsBooked arg res.entry
  pub result : after ≡ record before {
    wallets = map (set_balance arg.wallet_id (row.balance +ℤ arg.amount)) before.wallets;
    wallet_entries = before.wallet_entries ++ res.entry ∷ [];
  }

module _ {R : Type 0} (env : Env R) where
  record_entry-eq-ok :
      (arg : AdjustWalletTxParams) (wallet : Wallet) (w : World R) (res : AdjustWalletTxResult)
      → (record_entry env arg wallet w).0 ≡ ok res
      → (res.wallet ≡ wallet)
        × IsBooked arg res.entry
        × ((record_entry env arg wallet w).1.db.tables ≡ record (w.db.tables) {
          wallet_entries = w.db.tables.wallet_entries ++ res.entry ∷ [];
        })
  unfolding record_entry
  record_entry-eq-ok arg wallet w res h =
      let q = create_wallet_entry (entry_params arg) in
      elim (Result-cases (stmt env q w).0) [
        | inr (e, failed) ↦ absurd (ground arith)
        | inl (e, done) ↦
            let (ran, world) = stmt-eq-ok env q w e done in
            let facts = create_wallet_entry-eq-ok (entry_params arg) w.now w.db e ran in
            (ground arith, ground arith, ground arith)
      ]

  explain_fails :
      (id : ℕ) (e : Error) (w : World R) (res : AdjustWalletTxResult)
      → (explain env id e w).0 ≡ ok res
      → ⊥
  unfolding explain
  explain_fails id e w res h = ground arith

  adjust_body-IsAdjusted :
      (arg : AdjustWalletTxParams) (w : World R) (res : AdjustWalletTxResult)
      → (adjust_body env arg w).0 ≡ ok res
      → IsAdjusted arg w.db.tables (adjust_body env arg w).1.db.tables res
  unfolding adjust_body
  adjust_body-IsAdjusted arg w res h =
      let q = adjust_wallet_balance (balance_params arg) in
      elim (Result-cases (stmt env q w).0) [
        | inr (e, failed) ↦
            absurd (explain_fails arg.wallet_id e (stmt env q w).1 res (ground arith))
        | inl (wallet, done) ↦
            let (ran, world) = stmt-eq-ok env q w wallet done in
            let m = adjust_wallet_balance-IsMoved (balance_params arg) w.now w.db wallet ran in
            let (same, booked, tables) =
              record_entry-eq-ok arg wallet (stmt env q w).1 res (ground arith) in
            record {
              row = m.row;
              found = m.found;
              nonneg = m.nonneg;
              fits = m.fits;
              wallet = ground (arith, m.moved);
              booked = booked;
              result = ground (arith, m.others);
            }
      ]

  -- An adjustment that reports success has moved the balance of one existing wallet by the amount,
  -- to a sum that is not negative and fits a bigint, has appended the matching ledger entry and has
  -- changed nothing else, whatever faults befell its calls.
  pub adjust_wallet_tx-IsAdjusted :
      (arg : AdjustWalletTxParams) (w : World R) (res : AdjustWalletTxResult)
      → (adjust_wallet_tx env arg w).0 ≡ ok res
      → IsAdjusted arg w.db.tables (adjust_wallet_tx env arg w).1.db.tables res
  unfolding adjust_wallet_tx
  adjust_wallet_tx-IsAdjusted arg w res h =
      let (done, same) = exec_tx-eq-ok env (adjust_body env arg) w res h in
      rw same (adjust_body-IsAdjusted arg (ticked w) res done)

  -- Whatever an adjustment reports, and whatever faults befall its statements, its rollback or its
  -- commit, either the tables are as they were or the whole adjustment is in them.
  pub adjust_wallet_tx_atomic :
      (arg : AdjustWalletTxParams) (w : World R)
      → ((adjust_wallet_tx env arg w).1.db.tables ≡ w.db.tables)
        ⊎ ((res : AdjustWalletTxResult) × IsAdjusted arg w.db.tables
              (adjust_wallet_tx env arg w).1.db.tables
              res)
  unfolding adjust_wallet_tx
  adjust_wallet_tx_atomic arg w = elim (exec_tx_atomic env (adjust_body env arg) w) [
    | inl same ↦ inl same
    | inr (res, done, same) ↦ inr (res, rw same (adjust_body-IsAdjusted arg (ticked w) res done))
  ]
