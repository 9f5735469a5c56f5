-- ===== src/Db/Ledger.antt =====
-- The ledger of wallet.sql.go and wallet_entry.sql.go as an invariant of the tables: every balance
-- is the sum of the wallet's entries. It is kept by every call of the store that the API makes.
pub mod Effect
pub mod Keeps
pub mod Book
pub mod Refines
use template_golang_web.Base.{
  ℕ, ◌≡◌, refl, sym, inl, inr, arith, Bool, true, false, ◌||◌, List, [], ◌∷◌, ◌++◌, map, ℤ, pos,
  ◌+ℤ◌, ◌≤ℤ◌, is_int64, int_laws, find, any, some, All, All-concat, All-find, ◌==◌, if◌then◌else◌,
  Bool-cases, ==_iff, +ℤ-zero,
}
use template_golang_web.Db.Model.{Wallet, WalletEntry, Tables}
use template_golang_web.Db.Wallets.{set_balance}
use template_golang_web.Db.Tx.{AdjustWalletTxParams, AdjustWalletTxResult}
use template_golang_web.Db.Tx.Adjust.{IsAdjusted}
use template_golang_web.Db.Tx.Verdict.{any-set_balance, any-of_find}

abbrev pub amount_of : ℕ → WalletEntry → ℤ
amount_of id e = if e.wallet_id == id then e.amount else pos 0

-- The sum of the entries of one wallet, the newest first.
abbrev pub total_of : ℕ → List WalletEntry → ℤ
total_of id [] = pos 0
total_of id (e ∷ es) = amount_of id e +ℤ total_of id es

-- The wallet of an entry is among the wallets.
abbrev pub IsKnown : List Wallet → WalletEntry → Type 0
IsKnown ws e = any (λ w. w.id == e.wallet_id) ws ≡ true

abbrev pub IsBalanced : List WalletEntry → Wallet → Type 0
IsBalanced es w =
    (w.balance ≡ total_of w.id es) × (pos 0 ≤ℤ w.balance) × (is_int64 w.balance ≡ true)

pub record IsReconciled (t : Tables) : Type 0 where
  pub balanced : All (IsBalanced t.wallet_entries) t.wallets
  pub known : All (IsKnown t.wallets) t.wallet_entries

total_of-concat :
    (id : ℕ) (es : List WalletEntry) (e : WalletEntry)
    → total_of id (es ++ e ∷ []) ≡ total_of id es +ℤ amount_of id e
total_of-concat id [] e = omega int_laws
total_of-concat id (f ∷ es) e = rw (total_of-concat id es e) (omega int_laws)

IsKnown-set_balance :
    (id : ℕ) (b : ℤ) (ws : List Wallet) (es : List WalletEntry)
    → All (IsKnown ws) es
    → All (IsKnown (map (set_balance id b) ws)) es
IsKnown-set_balance id b ws [] h = tt
IsKnown-set_balance id b ws (e ∷ es) (p, h) =
    (rw (any-set_balance id b e.wallet_id ws) p, IsKnown-set_balance id b ws es h)

IsBalanced-set_balance :
    (id : ℕ) (b : ℤ) (es : List WalletEntry) (e : WalletEntry) (w : Wallet)
    → b ≡ total_of id es +ℤ e.amount
    → pos 0 ≤ℤ b
    → is_int64 b ≡ true
    → e.wallet_id ≡ id
    → IsBalanced es w
    → IsBalanced (es ++ e ∷ []) (set_balance id b w)
IsBalanced-set_balance id b es e w same nonneg fits of_wallet h = elim (Bool-cases (w.id == id)) [
  | inl here ↦
      let eq : w.id ≡ id = (==_iff w.id id).0 here in ground (arith, total_of-concat id es e)
  | inr other ↦ ground (arith, total_of-concat w.id es e, +ℤ-zero (total_of w.id es))
]

module _ (id : ℕ) (b : ℤ) (es : List WalletEntry) (e : WalletEntry)
    (same : b ≡ total_of id es +ℤ e.amount) (nonneg : pos 0 ≤ℤ b) (fits : is_int64 b ≡ true)
    (of_wallet : e.wallet_id ≡ id) where
  IsBalanced-adjust :
      (ws : List Wallet)
      → All (IsBalanced es) ws
      → All (IsBalanced (es ++ e ∷ [])) (map (set_balance id b) ws)
  IsBalanced-adjust [] h = tt
  IsBalanced-adjust (w ∷ ws) (p, h) =
      (IsBalanced-set_balance id b es e w same nonneg fits of_wallet p, IsBalanced-adjust ws h)

-- A successful adjustment keeps every balance equal to the sum of its entries.
pub IsAdjusted-IsReconciled :
    (arg : AdjustWalletTxParams) (before after : Tables) (res : AdjustWalletTxResult)
    → IsAdjusted arg before after res
    → IsReconciled before
    → IsReconciled after
IsAdjusted-IsReconciled arg before after res a i =
    let id = arg.wallet_id in
    let b = a.row.balance +ℤ arg.amount in
    let ((row_balance, _, _), is_row) =
      All-find (IsBalanced before.wallet_entries) (λ v. v.id == id) before.wallets a.row i.balanced
        a.found in
    let row_id : a.row.id ≡ id = (==_iff a.row.id id).0 is_row in
    rw a.result (record {
      balanced =
          IsBalanced-adjust id b before.wallet_entries res.entry (ground arith) a.nonneg a.fits
            (ground arith) before.wallets i.balanced;
      known =
          All-concat (IsKnown (map (set_balance id b) before.wallets)) before.wallet_entries
            (IsKnown-set_balance id b before.wallets before.wallet_entries i.known)
            (rw (a.booked.wallet_id, any-set_balance id b id before.wallets)
              (any-of_find id before.wallets a.row a.found));
    })
