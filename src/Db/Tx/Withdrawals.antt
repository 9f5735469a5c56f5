-- ===== src/Db/Tx/Withdrawals.antt =====
-- db/sqlc/tx_adjust_wallet.go under a row of equal withdrawals, in whatever order they reach the
-- database: how many go through, and what is left.
use native.Mathlib.Decide.{dec_le}
use template_golang_web.Base.{
  ℕ, zero, suc, ◌+◌, ◌-◌, ◌*◌, ◌/◌, ◌≤◌, ◌<◌, min, ◌≡◌, refl, arith, true, false, some, List, [],
  ◌∷◌, ◌++◌, map, ℤ, pos, negsuc, ◌+ℤ◌, max_int64, find, any, ◌&&◌, All, All-concat, ◌==◌,
  if◌then◌else◌, Bool,
}
use template_golang_web.Db.Model.{Wallet, WalletEntry, Database}
use template_golang_web.Db.Error.{Result, ok, err, insufficient_balance}
use template_golang_web.Db.Wallets.{set_balance, adjust_wallet_balance, get_wallet}
use template_golang_web.Db.Entries.{new_entry, create_wallet_entry}
use template_golang_web.Utf8.{is_varchar}
use template_golang_web.Env.{fine, Env, World, Call, ticked}
use template_golang_web.Db.Tx.{
  AdjustWalletTxParams, exec_tx, explain, record_entry, adjust_body, adjust_wallet_tx,
  balance_params, entry_params,
}
use template_golang_web.Db.Tx.Verdict.{stmt-fine, any-set_balance, any-of_find}

-- The wallet holds `b`, the note and the operator's name are texts, the operator is there and the sequence of the entries is ahead of them.
pub record IsFunded (arg : AdjustWalletTxParams) (b : ℕ) (d : Database) : Type 0 where
  pub row : Wallet
  pub found : find (λ v. v.id == arg.wallet_id) d.tables.wallets ≡ some row
  pub holds : row.balance ≡ pos b
  pub fits : b ≤ max_int64
  pub texts : (is_varchar arg.note && is_varchar arg.operator_username) ≡ true
  pub operator : any (λ a. a.id == arg.operator_id) d.tables.admin_users ≡ true
  pub ahead : All (λ e. e.id < d.sequences.wallet_entries) d.tables.wallet_entries

abbrev pub is_ok {ℓ} : {A : Type ℓ} → Result A → Bool
is_ok (ok _) = true
is_ok (err _) = false

find-set_balance :
    (id : ℕ) (b : ℤ) (ws : List Wallet) (w : Wallet)
    → find (λ v. v.id == id) ws ≡ some w
    → find (λ v. v.id == id) (map (set_balance id b) ws) ≡ some (record w { balance = b })
find-set_balance id b [] w h = cc
find-set_balance id b (v ∷ ws) w h = ground (arith, find-set_balance id b ws w)

IsFresh-of_ahead :
    (n : ℕ) (es : List WalletEntry) → All (λ e. e.id < n) es → any (λ e. e.id == n) es ≡ false
IsFresh-of_ahead n [] h = refl
IsFresh-of_ahead n (e ∷ es) (p, h) = ground (arith, IsFresh-of_ahead n es h)

ahead-suc : (n : ℕ) (es : List WalletEntry) → All (λ e. e.id < n) es → All (λ e. e.id < n + 1) es
ahead-suc n [] h = tt
ahead-suc n (e ∷ es) (p, h) = (omega arith, ahead-suc n es h)

zero_mul_left : (k b : ℕ) → b - 0 * suc k ≡ b
zero_mul_left k b = omega arith

div-sub_self : (b k : ℕ) → suc k ≤ b → b / suc k ≡ suc ((b - suc k) / suc k)
div-sub_self b k h = grind arith

taken_once : (b c k : ℕ) → b - suc c * suc k ≡ b - suc k - c * suc k
taken_once b c k = omega arith

div_small : (b k : ℕ) → b ≤ k → b / suc k ≡ 0
div_small b k h = grind arith

module _ {R : Type 0} (env : Env R) where
  -- The same adjustment asked for `n` times: the number of successes, and the world after.
  pub repeat_adjust : AdjustWalletTxParams → ℕ → World R → ℕ × World R
  repeat_adjust arg zero w = (0, w)
  repeat_adjust arg (suc n) w =
      let (r, w') = adjust_wallet_tx env arg w in
      let (k, w'') = repeat_adjust arg n w' in (if is_ok r then suc k else k, w'')

  module _ (healthy : (n : ℕ) → env.fault n ≡ fine) where
    exec_tx-fine :
        {A : Type 0} (fn : Call R A) (w : World R)
        → ((exec_tx env fn w).0 ≡ (fn (ticked w)).0)
          × ((exec_tx env fn w).1.db ≡ (
              if is_ok (fn (ticked w)).0
              then (fn (ticked w)).1.db
              else record ((fn (ticked w)).1.db) { tables = w.db.tables }))
    unfolding exec_tx
    exec_tx-fine fn w = ground (arith, healthy w.tick, healthy (fn (ticked w)).1.tick)

    module _ (arg : AdjustWalletTxParams) (k b : ℕ) (amount : arg.amount ≡ negsuc k)
        (bound : k ≤ max_int64) where
      body_refused :
          (w : World R)
          → IsFunded arg b w.db
          → b ≤ k
          → ((adjust_body env arg w).0 ≡ err insufficient_balance)
            × ((adjust_body env arg w).1.db ≡ w.db)
      unfolding adjust_body adjust_wallet_balance explain get_wallet ◌+ℤ◌
      body_refused w f short =
          let q = adjust_wallet_balance (balance_params arg) in
          let w' : World R = record w { db = (q w.now w.db).1; tick = w.tick + 1 } in
          ground
            (arith, stmt-fine env healthy q w, stmt-fine env healthy (get_wallet arg.wallet_id) w')

      abbrev paid : World R → Database
      paid w = record {
        tables = record (w.db.tables) {
          wallets = map (set_balance arg.wallet_id (pos (b - suc k))) w.db.tables.wallets;
          wallet_entries =
              w.db.tables.wallet_entries
              ++ new_entry (entry_params arg) w.db.sequences.wallet_entries w.now ∷ [];
        };
        sequences = record (w.db.sequences) { wallet_entries = w.db.sequences.wallet_entries + 1 };
      }

      body_paid :
          (w : World R)
          → IsFunded arg b w.db
          → suc k ≤ b
          → (is_ok (adjust_body env arg w).0 ≡ true) × ((adjust_body env arg w).1.db ≡ paid w)
      unfolding adjust_body adjust_wallet_balance record_entry create_wallet_entry ◌+ℤ◌
      body_paid w f enough =
          let q = adjust_wallet_balance (balance_params arg) in
          let w' : World R = record w { db = (q w.now w.db).1; tick = w.tick + 1 } in
          ground (
            arith,
            stmt-fine env healthy q w,
            stmt-fine env healthy (create_wallet_entry (entry_params arg)) w',
            any-set_balance arg.wallet_id (pos (b - suc k)) arg.wallet_id w.db.tables.wallets,
            any-of_find arg.wallet_id w.db.tables.wallets f.row,
            f.texts,
            IsFresh-of_ahead w.db.sequences.wallet_entries w.db.tables.wallet_entries f.ahead,
          )

      IsFunded-paid :
          (w : World R) → IsFunded arg b w.db → suc k ≤ b → IsFunded arg (b - suc k) (paid w)
      IsFunded-paid w f enough = record {
        row = record (f.row) { balance = pos (b - suc k) };
        found = find-set_balance arg.wallet_id (pos (b - suc k)) w.db.tables.wallets f.row f.found;
        holds = refl;
        fits = ground (arith, f.fits);
        texts = f.texts;
        operator = f.operator;
        ahead =
            All-concat (λ e. e.id < w.db.sequences.wallet_entries + 1) w.db.tables.wallet_entries
              (ahead-suc w.db.sequences.wallet_entries w.db.tables.wallet_entries f.ahead)
              (omega arith);
      }

      withdraw_refused :
          (w : World R)
          → IsFunded arg b w.db
          → b ≤ k
          → (is_ok (adjust_wallet_tx env arg w).0 ≡ false)
            × IsFunded arg b (adjust_wallet_tx env arg w).1.db
      unfolding adjust_wallet_tx
      withdraw_refused w f short =
          let (result, after) = exec_tx-fine (adjust_body env arg) w in
          let (refusal, same) = body_refused (ticked w) f short in
          let kept : (exec_tx env (adjust_body env arg) w).1.db ≡ w.db = ground arith in
          (ground arith, rw kept f)

      withdraw_paid :
          (w : World R)
          → IsFunded arg b w.db
          → suc k ≤ b
          → (is_ok (adjust_wallet_tx env arg w).0 ≡ true)
            × IsFunded arg (b - suc k) (adjust_wallet_tx env arg w).1.db
      unfolding adjust_wallet_tx
      withdraw_paid w f enough =
          let (result, after) = exec_tx-fine (adjust_body env arg) w in
          let (success, moved) = body_paid (ticked w) f enough in
          let through : (exec_tx env (adjust_body env arg) w).1.db ≡ paid (ticked w) =
            ground arith in
          (ground arith, rw through (IsFunded-paid (ticked w) f enough))

    -- Of `n` withdrawals of `k + 1` each from a wallet that holds `b`, by an operator who is there, with
    -- a note and an operator's name that PostgreSQL takes as texts, where the sequence of the entries is ahead of them and no call fails, exactly
    -- the smaller of `n` and the quotient of `b` by `k + 1` go through, and what they do not take is
    -- left.
    pub repeat_adjust-count :
        (arg : AdjustWalletTxParams) (k : ℕ)
        → arg.amount ≡ negsuc k
        → k ≤ max_int64
        → (n b : ℕ) (w : World R) → IsFunded arg b w.db
        → ((repeat_adjust arg n w).0 ≡ min n (b / suc k))
          × IsFunded arg (b - (repeat_adjust arg n w).0 * suc k) (repeat_adjust arg n w).1.db
    unfolding repeat_adjust
    repeat_adjust-count arg k amount bound zero b w f = (omega arith, rw (zero_mul_left k b) f)
    repeat_adjust-count arg k amount bound (suc n) b w f = elim (dec_le (suc k) b) [
      | yes enough ↦
          let (success, rest) = withdraw_paid arg k b amount bound w f enough in
          let (count, left) =
            repeat_adjust-count arg k amount bound n (b - suc k) (adjust_wallet_tx env arg w).1
              rest in
          rw success (
            omega (arith, count, div-sub_self b k enough),
            rw (taken_once b (repeat_adjust arg n (adjust_wallet_tx env arg w).1).0 k) left,
          )
      | no short ↦
          let (refusal, rest) = withdraw_refused arg k b amount bound w f (omega arith) in
          let (count, left) =
            repeat_adjust-count arg k amount bound n b (adjust_wallet_tx env arg w).1 rest in
          rw refusal (omega (arith, count, div_small b k (omega arith)), left)
    ]
