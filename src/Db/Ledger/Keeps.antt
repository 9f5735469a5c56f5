-- ===== src/Db/Ledger/Keeps.antt =====
-- The ledger invariant under every call of the store that the program makes.
use template_golang_web.Base.{
  ℕ, ◌≡◌, refl, arith, Bool, false, ◌||◌, List, [], ◌∷◌, ◌++◌, pos, zero-+ℤ, any, All, All-concat,
  ◌==◌,
}
use template_golang_web.Db.Model.{Wallet, WalletEntry, Tables}
use template_golang_web.Db.Users.{CreateUserParams}
use template_golang_web.Db.Tx.{CreateUserTxResult}
use template_golang_web.Db.Tx.Create.{IsCreated}
use template_golang_web.Db.Store.{StoreCall, run_call, run_calls}
use template_golang_web.Env.{Env, World}
use template_golang_web.Db.Ledger.Effect.{Effect, apart, created, adjusted, run_call-Effect}
use template_golang_web.Db.Ledger.{
  total_of, IsKnown, IsBalanced, IsReconciled, IsAdjusted-IsReconciled,
}

-- No entry belongs to a wallet that is not there yet.
total_of_new :
    (id : ℕ) (ws : List Wallet) (es : List WalletEntry)
    → any (λ w. w.id == id) ws ≡ false
    → All (IsKnown ws) es
    → total_of id es ≡ pos 0
total_of_new id ws [] h k = refl
total_of_new id ws (e ∷ es) h (k, ks) = ground (arith, total_of_new id ws es h ks, zero-+ℤ (pos 0))

any-append {ℓ} :
    {A : Type ℓ} (p : A → Bool) (xs : List A) (x : A) → any p (xs ++ x ∷ []) ≡ (any p xs || p x)
any-append p [] x = ground arith
any-append p (y ∷ xs) x = ground (arith, any-append p xs x)

IsKnown-concat :
    (ws : List Wallet) (w : Wallet) (es : List WalletEntry)
    → All (IsKnown ws) es
    → All (IsKnown (ws ++ w ∷ [])) es
IsKnown-concat ws w [] h = tt
IsKnown-concat ws w (e ∷ es) (p, h) =
    (rw (any-append (λ v. v.id == e.wallet_id) ws w) (rw p refl), IsKnown-concat ws w es h)

IsCreated-IsReconciled :
    (arg : CreateUserParams) (before after : Tables) (res : CreateUserTxResult)
    → IsCreated arg before after res
    → IsReconciled before
    → IsReconciled after
IsCreated-IsReconciled arg before after res c i =
    let none_yet =
      total_of_new res.wallet.id before.wallets before.wallet_entries c.new_wallet_id i.known in
    rw c.result (record {
      balanced =
          All-concat (IsBalanced before.wallet_entries) before.wallets i.balanced (ground arith);
      known = IsKnown-concat before.wallets res.wallet before.wallet_entries i.known;
    })

-- What leaves wallets and entries alone keeps the invariant.
IsReconciled-of_same :
    (s t : Tables)
    → t.wallets ≡ s.wallets
    → t.wallet_entries ≡ s.wallet_entries
    → IsReconciled s
    → IsReconciled t
IsReconciled-of_same s t p q i = record {
  balanced = rw (p, q) i.balanced;
  known = rw (p, q) i.known;
}

Effect-IsReconciled : (s t : Tables) → Effect s t → IsReconciled s → IsReconciled t
Effect-IsReconciled s t (apart ws es) i = IsReconciled-of_same s t ws es i
Effect-IsReconciled s t (created arg res c) i = IsCreated-IsReconciled arg s t res c i
Effect-IsReconciled s t (adjusted arg res a) i = IsAdjusted-IsReconciled arg s t res a i

module _ {R : Type 0} (env : Env R) where
  pub run_call-IsReconciled :
      (c : StoreCall) (w : World R)
      → IsReconciled w.db.tables
      → IsReconciled (run_call env c w).db.tables
  run_call-IsReconciled c w i =
      Effect-IsReconciled w.db.tables (run_call env c w).db.tables (run_call-Effect env c w) i

  -- From reconciled tables, after any sequence of the calls of the store that the handlers, the audit
  -- layer and the clean-up make, with any arguments and whichever of them fail, every balance is the sum of the wallet's ledger entries, is not negative and fits a bigint, and every
  -- entry belongs to a wallet.
  pub run_calls-IsReconciled :
      (cs : List StoreCall) (w : World R)
      → IsReconciled w.db.tables
      → IsReconciled (run_calls env cs w).db.tables
  unfolding run_calls
  run_calls-IsReconciled [] w i = i
  run_calls-IsReconciled (c ∷ cs) w i =
      run_calls-IsReconciled cs (run_call env c w) (run_call-IsReconciled c w i)
