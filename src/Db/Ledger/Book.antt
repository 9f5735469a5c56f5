-- ===== src/Db/Ledger/Book.antt =====
-- The wallets as a book: what an accountant sees of the tables, and the steps that the book may take.
use mathlib.Core.Path.{fun_ext}
use template_golang_web.Base.{
  ℕ, ◌≡◌, refl, sym, arith, true, false, Option, some, none, List, [], ◌∷◌, ◌++◌, append_nil,
  append_assoc, map, any, find, ℤ, pos, ◌+ℤ◌, ◌≤ℤ◌, is_int64, ◌==◌, if◌then◌else◌, Bool-cases, inl,
  inr,
}
use template_golang_web.Db.Model.{Wallet, WalletEntry, Tables}
use template_golang_web.Db.Users.{CreateUserParams}
use template_golang_web.Db.Wallets.{set_balance}
use template_golang_web.Db.Tx.{AdjustWalletTxParams, AdjustWalletTxResult, CreateUserTxResult}
use template_golang_web.Db.Tx.Adjust.{IsAdjusted}
use template_golang_web.Db.Tx.Create.{IsCreated}

-- The balance of each wallet that is open.
abbrev pub Book : Type 0
Book = ℕ → Option ℤ

-- A wallet and the amount that it moved by.
abbrev pub Move : Type 0
Move = ℕ × ℤ

abbrev pub put : ℕ → ℤ → Book → Book
put id b book k = if k == id then some b else book k

-- One step of the book, with the moves that it records: nothing, a new wallet, which is empty, or one
-- move of an open wallet, to a balance that is not negative and fits a bigint.
pub data Step (b : Book) (ms : List Move) (b' : Book) : Type 0 where
  stay : ms ≡ [] → b' ≡ b → Step b ms b'
  open_wallet : (id : ℕ) → ms ≡ [] → b id ≡ none → b' ≡ put id (pos 0) b → Step b ms b'
  move :
      (id : ℕ) (amount balance : ℤ)
      → ms ≡ (id, amount) ∷ []
      → b id ≡ some balance
      → pos 0 ≤ℤ balance +ℤ amount
      → is_int64 (balance +ℤ amount) ≡ true
      → b' ≡ put id (balance +ℤ amount) b
      → Step b ms b'

-- The moves that lead from one book to another, in their order.
pub data History (b : Book) : List Move → Book → Type 0 where
  here : History b [] b
  next :
      {ms : List Move} {c : Book} (ns all : List Move) (d : Book)
      → History b ms c
      → Step c ns d
      → all ≡ ms ++ ns
      → History b all d

-- What the tables show of it.
abbrev pub balance_of : Option Wallet → Option ℤ
balance_of none = none
balance_of (some w) = some w.balance

unfoldable pub book : Tables → Book
book t id = balance_of (find (λ w. w.id == id) t.wallets)

abbrev pub move_of : WalletEntry → Move
move_of e = (e.wallet_id, e.amount)

unfoldable pub moves : Tables → List Move
moves t = map move_of t.wallet_entries

-- The entries that were added are the moves of a history of the book.
pub record IsRecorded (s t : Tables) : Type 0 where
  pub added : List Move
  pub entries : moves t ≡ moves s ++ added
  pub history : History (book s) added (book t)

pub IsRecorded-refl : (s : Tables) → IsRecorded s s
IsRecorded-refl s = record { added = []; entries = sym (append_nil (moves s)); history = here }

-- One more step.
pub IsRecorded-Step :
    (s t u : Tables) (ns : List Move)
    → IsRecorded s t
    → moves u ≡ moves t ++ ns
    → Step (book t) ns (book u)
    → IsRecorded s u
IsRecorded-Step s t u ns r more st = record {
  added = r.added ++ ns;
  entries = ground (arith, more, r.entries, append_assoc (moves s) r.added ns);
  history = next ns (r.added ++ ns) (book u) r.history st refl;
}

find-new :
    (w : Wallet) (k : ℕ) (ws : List Wallet)
    → any (λ v. v.id == w.id) ws ≡ false
    → balance_of (find (λ v. v.id == k) (ws ++ w ∷ []))
      ≡ (if k == w.id then some w.balance else balance_of (find (λ v. v.id == k) ws))
find-new w k [] h = ground arith
find-new w k (v ∷ ws) h = ground (arith, find-new w k ws)

find-none :
    (id : ℕ) (ws : List Wallet)
    → any (λ v. v.id == id) ws ≡ false
    → find (λ v. v.id == id) ws ≡ none
find-none id [] h = refl
find-none id (v ∷ ws) h = ground (arith, find-none id ws)

find-others :
    (id k : ℕ) (b : ℤ) (ws : List Wallet)
    → (k == id) ≡ false
    → balance_of (find (λ v. v.id == k) (map (set_balance id b) ws))
      ≡ balance_of (find (λ v. v.id == k) ws)
find-others id k b [] h = refl
find-others id k b (v ∷ ws) h = ground (arith, find-others id k b ws h)

find-moved :
    (id k : ℕ) (b : ℤ) (ws : List Wallet) (w : Wallet)
    → find (λ v. v.id == id) ws ≡ some w
    → balance_of (find (λ v. v.id == k) (map (set_balance id b) ws))
      ≡ (if k == id then some b else balance_of (find (λ v. v.id == k) ws))
find-moved id k b [] w h = cc
find-moved id k b (v ∷ ws) w h = elim (Bool-cases (v.id == id)) [
  | inl same ↦ ground (arith, find-others id k b ws)
  | inr other ↦ ground (arith, find-moved id k b ws w)
]

map-append_one :
    (es : List WalletEntry) (e : WalletEntry)
    → map move_of (es ++ e ∷ []) ≡ map move_of es ++ move_of e ∷ []
map-append_one [] e = refl
map-append_one (f ∷ es) e = rw (map-append_one es e) refl

-- A registration opens one wallet.
pub IsCreated-Step :
    (arg : CreateUserParams) (s t : Tables) (res : CreateUserTxResult)
    → IsCreated arg s t res
    → (moves t ≡ moves s ++ []) × Step (book s) [] (book t)
unfolding book moves
IsCreated-Step arg s t res c = (
  ground (arith, c.result, append_nil (map move_of s.wallet_entries)),
  open_wallet res.wallet.id refl (rw (find-none res.wallet.id s.wallets c.new_wallet_id) refl) (
      fun_ext
        (λ k. ground (arith, c.result, c.empty, find-new res.wallet k s.wallets c.new_wallet_id))),
)

-- An adjustment moves one wallet, and its entry is the move.
pub IsAdjusted-Step :
    (arg : AdjustWalletTxParams) (s t : Tables) (res : AdjustWalletTxResult)
    → IsAdjusted arg s t res
    → (moves t ≡ moves s ++ (arg.wallet_id, arg.amount) ∷ [])
      × Step (book s) ((arg.wallet_id, arg.amount) ∷ []) (book t)
unfolding book moves
IsAdjusted-Step arg s t res a = (
  ground (
    arith,
    a.result,
    a.booked.wallet_id,
    a.booked.amount,
    map-append_one s.wallet_entries res.entry,
  ),
  move arg.wallet_id arg.amount a.row.balance refl (rw a.found refl) a.nonneg a.fits (
      fun_ext (λ k. ground (
        arith,
        a.result,
        find-moved arg.wallet_id k (a.row.balance +ℤ arg.amount) s.wallets a.row a.found,
      ))),
)
