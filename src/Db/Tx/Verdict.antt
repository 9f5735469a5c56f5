-- ===== src/Db/Tx/Verdict.antt =====
-- db/sqlc/tx_adjust_wallet.go where no call of the database fails: which error an adjustment gives,
-- and how many of a row of equal withdrawals go through.
use template_golang_web.Base.{
  ℕ, ◌+◌, ◌≡◌, refl, inl, inr, arith, true, false, not, ◌&&◌, Option, none, some, List, [], ◌∷◌,
  map, ℤ, pos, ◌+ℤ◌, leb_ℤ, is_int64, find, any, ◌==◌, if◌then◌else◌, Option-cases,
}
use template_golang_web.Db.Model.{Wallet, Tables, Database}
use template_golang_web.Db.Error.{
  Error, Result, Query, ok, err, no_rows, insufficient_balance, foreign_key_violation,
  numeric_value_out_of_range, invalid_byte_sequence,
}
use template_golang_web.Db.Wallets.{set_balance, adjust_wallet_balance, get_wallet}
use template_golang_web.Db.Entries.{create_wallet_entry}
use template_golang_web.Utf8.{is_varchar}
use template_golang_web.Env.{fine, Env, World, Call, ticked, stmt}
use template_golang_web.Db.Tx.{
  AdjustWalletTxParams, AdjustWalletTxResult, exec_tx, explain, record_entry, adjust_body,
  adjust_wallet_tx, balance_params, entry_params,
}

abbrev pub error_of {ℓ} : {A : Type ℓ} → Result A → Option Error
error_of (ok _) = none
error_of (err e) = some e

-- The error that an adjustment should give, read off the tables: no such wallet, a sum that is no
-- bigint, a balance that does not cover the withdrawal, a note or an operator's name that is no text of
-- the database, an operator who is not there, or none.
abbrev pub balance_error : AdjustWalletTxParams → Tables → Wallet → Option Error
balance_error arg t row =
    if is_int64 (row.balance +ℤ arg.amount)
    then if leb_ℤ (pos 0) (row.balance +ℤ arg.amount)
      then if is_varchar arg.note && is_varchar arg.operator_username
        then if any (λ a. a.id == arg.operator_id) t.admin_users
          then none
          else some foreign_key_violation
        else some invalid_byte_sequence
      else some insufficient_balance
    else some numeric_value_out_of_range

abbrev pub adjust_error : AdjustWalletTxParams → Tables → Option Error
adjust_error arg t = elim (find (λ v. v.id == arg.wallet_id) t.wallets) [
  | none ↦ some no_rows
  | some row ↦ balance_error arg t row
]

-- The sequence of the entries is ahead of them.
abbrev pub IsFresh : Database → Type 0
IsFresh d = any (λ e. e.id == d.sequences.wallet_entries) d.tables.wallet_entries ≡ false

pub any-set_balance :
    (id : ℕ) (b : ℤ) (k : ℕ) (ws : List Wallet)
    → any (λ w. w.id == k) (map (set_balance id b) ws) ≡ any (λ w. w.id == k) ws
any-set_balance id b k [] = refl
any-set_balance id b k (w ∷ ws) = ground (arith, any-set_balance id b k ws)

pub any-of_find :
    (id : ℕ) (ws : List Wallet) (w : Wallet)
    → find (λ v. v.id == id) ws ≡ some w
    → any (λ v. v.id == id) ws ≡ true
any-of_find id [] w h = cc
any-of_find id (v ∷ ws) w h = ground (arith, any-of_find id ws w)

module _ {R : Type 0} (env : Env R) (healthy : (n : ℕ) → env.fault n ≡ fine) where
  pub stmt-fine :
      {A : Type 0} (q : Query A) (w : World R)
      → stmt env q w ≡ ((q w.now w.db).0, record w { db = (q w.now w.db).1; tick = w.tick + 1 })
  unfolding stmt
  stmt-fine q w = ground (arith, healthy w.tick)

  exec_tx-fine :
      {A : Type 0} (fn : Call R A) (w : World R) → (exec_tx env fn w).0 ≡ (fn (ticked w)).0
  unfolding exec_tx
  exec_tx-fine fn w = ground (arith, healthy w.tick, healthy (fn (ticked w)).1.tick)

  -- The update finds no row to take: the wallet is looked up again.
  explain-error :
      (id : ℕ) (w : World R)
      → error_of (explain env {A = AdjustWalletTxResult} id no_rows w).0
        ≡ (elim (find (λ v. v.id == id) w.db.tables.wallets) [
          | none ↦ some no_rows
          | some _ ↦ some insufficient_balance
        ])
  unfolding explain get_wallet
  explain-error id w = ground (arith, stmt-fine (get_wallet id) w)

  record_entry-error :
      (arg : AdjustWalletTxParams) (wallet : Wallet) (w : World R)
      → IsFresh w.db
      → error_of (record_entry env arg wallet w).0 ≡ (
          if not (is_varchar arg.note && is_varchar arg.operator_username)
          then some invalid_byte_sequence
          else if any (λ v. v.id == arg.wallet_id) w.db.tables.wallets
              && any (λ a. a.id == arg.operator_id) w.db.tables.admin_users
          then none
          else some foreign_key_violation)
  unfolding record_entry create_wallet_entry
  record_entry-error arg wallet w fresh =
      ground (arith, stmt-fine (create_wallet_entry (entry_params arg)) w)

  explain-other :
      (id : ℕ) (w : World R)
      → (explain env {A = AdjustWalletTxResult} id numeric_value_out_of_range w).0
        ≡ err numeric_value_out_of_range
  unfolding explain
  explain-other id w = refl

  adjust_body-error :
      (arg : AdjustWalletTxParams) (w : World R)
      → IsFresh w.db
      → error_of (adjust_body env arg w).0 ≡ adjust_error arg w.db.tables
  unfolding adjust_body adjust_wallet_balance
  adjust_body-error arg w fresh =
      let q = adjust_wallet_balance (balance_params arg) in
      let w' : World R = record w { db = (q w.now w.db).1; tick = w.tick + 1 } in
      elim (Option-cases (find (λ v. v.id == arg.wallet_id) w.db.tables.wallets)) [
        | inl missing ↦ ground (arith, stmt-fine q w, explain-error arg.wallet_id w')
        | inr (row, found) ↦
            let b = row.balance +ℤ arg.amount in
            ground (
              arith,
              stmt-fine q w,
              explain-error arg.wallet_id w',
              explain-other arg.wallet_id w',
              record_entry-error arg (record row { balance = b }) w',
              any-set_balance arg.wallet_id b arg.wallet_id w.db.tables.wallets,
              any-of_find arg.wallet_id w.db.tables.wallets row,
            )
      ]

  -- Where no call fails and the sequence of the entries is ahead of them, an adjustment gives exactly
  -- the error that its tables and its texts call for, in this order: no such wallet, a sum that is no
  -- bigint, a balance that does not cover the withdrawal, a note or an operator's name that PostgreSQL
  -- does not take as a text, an operator who is not there; and no error otherwise.
  pub adjust_wallet_tx-error :
      (arg : AdjustWalletTxParams) (w : World R)
      → IsFresh w.db
      → error_of (adjust_wallet_tx env arg w).0 ≡ adjust_error arg w.db.tables
  unfolding adjust_wallet_tx
  adjust_wallet_tx-error arg w fresh =
      rw (exec_tx-fine (adjust_body env arg) w) (adjust_body-error arg (ticked w) fresh)
