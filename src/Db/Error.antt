-- ===== src/Db/Error.antt =====
-- The errors that the store and the cache return, and what a query is.
-- `no_rows` is sql.ErrNoRows; the violations are the SQLSTATE names that pq.Error carries;
-- `insufficient_balance` is the sentinel of tx_adjust_wallet.go; `not_found` is cache.ErrNotFound;
-- `deadline_exceeded` is context.DeadlineExceeded; `unavailable` is any other error of a driver.
use template_golang_web.Base.{ℕ, Bool, false, true, Option, none, some, ◌≡◌, refl, ◌⊎◌, inl, inr}
use template_golang_web.Db.Model.{Database}

pub data Error : Type 0 where
  no_rows : Error
  unique_violation : Error
  foreign_key_violation : Error
  numeric_value_out_of_range : Error
  invalid_row_count : Error
  invalid_byte_sequence : Error
  insufficient_balance : Error
  not_found : Error
  deadline_exceeded : Error
  unavailable : Error
  invalid_number : Error
  invalid_json : Error
  hash_failed : Error

-- errors.Is(err, sql.ErrNoRows) and its like
abbrev pub is_no_rows : Error → Bool
is_no_rows no_rows = true
is_no_rows _ = false

abbrev pub is_unique_violation : Error → Bool
is_unique_violation unique_violation = true
is_unique_violation _ = false

abbrev pub is_foreign_key_violation : Error → Bool
is_foreign_key_violation foreign_key_violation = true
is_foreign_key_violation _ = false

abbrev pub is_insufficient_balance : Error → Bool
is_insufficient_balance insufficient_balance = true
is_insufficient_balance _ = false

abbrev pub is_not_found : Error → Bool
is_not_found not_found = true
is_not_found _ = false

abbrev pub is_deadline_exceeded : Error → Bool
is_deadline_exceeded deadline_exceeded = true
is_deadline_exceeded _ = false

pub data Result {ℓ} (A : Type ℓ) : Type ℓ where
  ok : A → Result A
  err : Error → Result A

abbrev pub from_option {ℓ} : {A : Type ℓ} → Error → Option A → Result A
from_option e none = err e
from_option e (some a) = ok a

-- A statement: it runs on the database at the time `now()`, and returns its rows or an error.
abbrev pub Query : Type 0 → Type 0
Query A = ℕ → Database → Result A × Database

pub Result-cases {ℓ} :
    {A : Type ℓ} (r : Result A) → ((a : A) × (r ≡ ok a)) ⊎ ((e : Error) × (r ≡ err e))
Result-cases (ok a) = inl (a, refl)
Result-cases (err e) = inr (e, refl)
