-- ===== src/Db/Wallets.antt =====
-- db/sqlc/wallet.sql.go: the queries on the table `wallets`. The column `user_id` is unique and
-- refers to `users`; a balance is a bigint that starts at 0.
use template_golang_web.Base.{
  ℕ, ◌+◌, String, Bool, ◌&&◌, ◌||◌, Option, none, some, List, [], ◌∷◌, ◌++◌, map, ℤ, pos, ◌+ℤ◌,
  leb_ℤ, is_int64, length, find, select, any, sort_by, leb, ◌==◌, if◌then◌else◌,
}
use template_golang_web.Db.Model.{User, Wallet, Database}
use template_golang_web.Db.Error.{Error, Result, ok, err, from_option, Query}
use template_golang_web.Db.Users.{is_live, page}

abbrev pub with_wallets : List Wallet → Database → Database
with_wallets rows d = record d { tables = record (d.tables) { wallets = rows } }

pub record AdjustWalletBalanceParams : Type 0 where
  pub amount : ℤ
  pub id : ℕ

-- SET balance = b WHERE id = $2
abbrev pub set_balance : ℕ → ℤ → Wallet → Wallet
set_balance id b w = if w.id == id then record w { balance = b } else w

-- One UPDATE: the new balance must be a bigint, and the row is taken only if it is not negative.
abbrev pub adjust_row : AdjustWalletBalanceParams → Wallet → Database → Result Wallet × Database
adjust_row arg w d =
    let b = w.balance +ℤ arg.amount in
    if is_int64 b
    then if leb_ℤ (pos 0) b
      then (
        ok (record w { balance = b }),
        with_wallets (map (set_balance arg.id b) d.tables.wallets) d,
      )
      else (err Error.no_rows, d)
    else (err Error.numeric_value_out_of_range, d)

unfoldable pub adjust_wallet_balance : AdjustWalletBalanceParams → Query Wallet
adjust_wallet_balance arg now d = elim (find (λ w. w.id == arg.id) d.tables.wallets) [
  | none ↦ (err Error.no_rows, d)
  | some w ↦ adjust_row arg w d
]

-- JOIN users u ON u.id = w.user_id
abbrev pub owner : List User → Wallet → Option User
owner users w = find (λ u. u.id == w.user_id) users

-- ... WHERE u.deleted_at IS NULL
abbrev pub has_live_owner : List User → Wallet → Bool
has_live_owner users w = any (λ u. u.id == w.user_id && is_live u) users

unfoldable pub count_wallets : Query ℕ
count_wallets now d = (ok (length (select (has_live_owner d.tables.users) d.tables.wallets)), d)

abbrev pub new_wallet : ℕ → ℕ → ℕ → Wallet
new_wallet user_id id now = record { id = id; user_id = user_id; balance = pos 0; created_at = now }

unfoldable pub create_wallet : ℕ → Query Wallet
create_wallet user_id now d =
    let id = d.sequences.wallets in
    let drawn = record d { sequences = record (d.sequences) { wallets = id + 1 } } in
    if any (λ w. w.id == id || w.user_id == user_id) d.tables.wallets
    then (err Error.unique_violation, drawn)
    else if any (λ u. u.id == user_id) d.tables.users
    then (
      ok (new_wallet user_id id now),
      with_wallets (d.tables.wallets ++ new_wallet user_id id now ∷ []) drawn,
    )
    else (err Error.foreign_key_violation, drawn)

unfoldable pub get_wallet : ℕ → Query Wallet
get_wallet id now d = (from_option Error.no_rows (find (λ w. w.id == id) d.tables.wallets), d)

-- GetWalletDetailRow and ListWalletsRow have the same columns.
pub record WalletRow : Type 0 where
  pub id : ℕ
  pub user_id : ℕ
  pub username : String
  pub email : String
  pub balance : ℤ
  pub created_at : ℕ

abbrev pub join_row : Wallet → User → WalletRow
join_row w u = record {
  id = w.id;
  user_id = w.user_id;
  username = u.username;
  email = u.email;
  balance = w.balance;
  created_at = w.created_at;
}

-- The joined rows, in the order of the wallets.
abbrev pub join_users : List User → List Wallet → List WalletRow
join_users users [] = []
join_users users (w ∷ ws) = elim (owner users w) [
  | none ↦ join_users users ws
  | some u ↦ join_row w u ∷ join_users users ws
]

abbrev pub detail : List User → Option Wallet → Option WalletRow
detail users none = none
detail users (some w) = elim (owner users w) [ none ↦ none | some u ↦ some (join_row w u) ]

unfoldable pub get_wallet_detail : ℕ → Query WalletRow
get_wallet_detail id now d =
    (from_option Error.no_rows (detail d.tables.users (find (λ w. w.id == id) d.tables.wallets)), d)

pub record ListWalletsParams : Type 0 where
  pub limit : ℤ
  pub offset : ℤ

abbrev pub by_id : Wallet → Wallet → Bool
by_id v w = leb v.id w.id

unfoldable pub list_wallets : ListWalletsParams → Query (List WalletRow)
list_wallets arg now d = (
  page arg.limit arg.offset (
      join_users d.tables.users
        (sort_by by_id (select (has_live_owner d.tables.users) d.tables.wallets))),
  d,
)

abbrev pub sum_balances : List Wallet → ℤ
sum_balances [] = pos 0
sum_balances (w ∷ ws) = w.balance +ℤ sum_balances ws

-- The sum is a numeric; its cast to bigint fails where it does not fit.
unfoldable pub sum_wallet_balances : Query ℤ
sum_wallet_balances now d =
    let total = sum_balances (select (has_live_owner d.tables.users) d.tables.wallets) in
    (if is_int64 total then ok total else err Error.numeric_value_out_of_range, d)
