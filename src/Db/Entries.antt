-- ===== src/Db/Entries.antt =====
-- db/sqlc/wallet_entry.sql.go: the ledger `wallet_entries`, which refers to `wallets` and to
-- `admin_users`.
use template_golang_web.Base.{
  ℕ, ◌+◌, String, Bool, not, ◌&&◌, List, [], ◌∷◌, ◌++◌, ℤ, length, select, any, sort_by, leb, ◌==◌,
  if◌then◌else◌,
}
use template_golang_web.Db.Model.{WalletEntry, Database}
use template_golang_web.Db.Error.{Error, ok, err, Query}
use template_golang_web.Db.Users.{page}
use template_golang_web.Utf8.{is_varchar}

unfoldable pub count_wallet_entries : ℕ → Query ℕ
count_wallet_entries wallet_id now d =
    (ok (length (select (λ e. e.wallet_id == wallet_id) d.tables.wallet_entries)), d)

pub record CreateWalletEntryParams : Type 0 where
  pub wallet_id : ℕ
  pub amount : ℤ
  pub note : String
  pub operator_id : ℕ
  pub operator_username : String

abbrev pub new_entry : CreateWalletEntryParams → ℕ → ℕ → WalletEntry
new_entry arg id now = record {
  id = id;
  wallet_id = arg.wallet_id;
  amount = arg.amount;
  note = arg.note;
  operator_id = arg.operator_id;
  operator_username = arg.operator_username;
  created_at = now;
}

abbrev pub with_entries : List WalletEntry → Database → Database
with_entries rows d = record d { tables = record (d.tables) { wallet_entries = rows } }

-- A text parameter that is no text of the encoding is refused before the statement runs. The two
-- foreign keys count deleted admin users too: a soft delete leaves the row.
unfoldable pub create_wallet_entry : CreateWalletEntryParams → Query WalletEntry
create_wallet_entry arg now d =
    let id = d.sequences.wallet_entries in
    let drawn = record d { sequences = record (d.sequences) { wallet_entries = id + 1 } } in
    if not (is_varchar arg.note && is_varchar arg.operator_username)
    then (err Error.invalid_byte_sequence, d)
    else if any (λ e. e.id == id) d.tables.wallet_entries
    then (err Error.unique_violation, drawn)
    else if any (λ w. w.id == arg.wallet_id) d.tables.wallets
        && any (λ a. a.id == arg.operator_id) d.tables.admin_users
    then (
      ok (new_entry arg id now),
      with_entries (d.tables.wallet_entries ++ new_entry arg id now ∷ []) drawn,
    )
    else (err Error.foreign_key_violation, drawn)

pub record ListWalletEntriesParams : Type 0 where
  pub wallet_id : ℕ
  pub limit : ℤ
  pub offset : ℤ

-- ORDER BY id DESC
abbrev pub by_id_desc : WalletEntry → WalletEntry → Bool
by_id_desc e f = leb f.id e.id

unfoldable pub list_wallet_entries : ListWalletEntriesParams → Query (List WalletEntry)
list_wallet_entries arg now d = (
  page arg.limit arg.offset
      (sort_by by_id_desc (select (λ e. e.wallet_id == arg.wallet_id) d.tables.wallet_entries)),
  d,
)
