-- ===== src/Db/Users.antt =====
-- db/sqlc/user.sql.go: the queries on the table `users`, with the two partial unique indexes of
-- migration 000007 (username and email among the rows that are not deleted).
use template_golang_web.Base.{
  ℕ, ◌+◌, String, str_eq, Bool, true, false, not, ◌&&◌, ◌||◌, Option, none, some, List, [], ◌∷◌,
  ◌++◌, map, ℤ, pos, negsuc, length, take, drop, find, select, any, sort_by, leb, ◌==◌,
  if◌then◌else◌,
}
use template_golang_web.Db.Model.{User, Database}
use template_golang_web.Db.Error.{Error, Result, ok, err, from_option, Query}

-- deleted_at IS NULL
abbrev pub is_null : Option ℕ → Bool
is_null none = true
is_null (some _) = false

abbrev pub is_live : User → Bool
is_live u = is_null u.deleted_at

-- ($1::bool OR deleted_at IS NULL)
abbrev pub is_listed : Bool → User → Bool
is_listed include_deleted u = include_deleted || is_live u

-- The update of the table in a database.
abbrev pub with_users : List User → Database → Database
with_users rows d = record d { tables = record (d.tables) { users = rows } }

-- A live row other than `id` holds this username or this email.
abbrev pub is_taken : ℕ → String → String → User → Bool
is_taken id username email u =
    not (u.id == id) && is_live u && (str_eq u.username username || str_eq u.email email)

-- LIMIT and OFFSET: a negative count is an error of the server.
abbrev pub page {ℓ} : {A : Type ℓ} → ℤ → ℤ → List A → Result (List A)
page (pos limit) (pos offset) rows = ok (take limit (drop offset rows))
page (pos limit) (negsuc _) rows = err Error.invalid_row_count
page (negsuc _) offset rows = err Error.invalid_row_count

abbrev pub by_id : User → User → Bool
by_id u v = leb u.id v.id

unfoldable pub count_users : Bool → Query ℕ
count_users include_deleted now d =
    (ok (length (select (is_listed include_deleted) d.tables.users)), d)

pub record CreateUserParams : Type 0 where
  pub username : String
  pub email : String
  pub hashed_password : String

abbrev pub new_user : CreateUserParams → ℕ → ℕ → User
new_user arg id now = record {
  id = id;
  username = arg.username;
  email = arg.email;
  created_at = now;
  hashed_password = arg.hashed_password;
  deleted_at = none;
}

-- The default of `id` is drawn before the indexes are checked, so a refused row uses a value up.
unfoldable pub create_user : CreateUserParams → Query User
create_user arg now d =
    let id = d.sequences.users in
    let drawn = record d { sequences = record (d.sequences) { users = id + 1 } } in
    if any (λ u. u.id == id || is_taken id arg.username arg.email u) d.tables.users
    then (err Error.unique_violation, drawn)
    else (ok (new_user arg id now), with_users (d.tables.users ++ new_user arg id now ∷ []) drawn)

unfoldable pub get_user : ℕ → Query User
get_user id now d = (from_option Error.no_rows (find (λ u. u.id == id) d.tables.users), d)

unfoldable pub get_user_by_username : String → Query User
get_user_by_username username now d = (
  from_option Error.no_rows (find (λ u. str_eq u.username username && is_live u) d.tables.users),
  d,
)

pub record ListUsersParams : Type 0 where
  pub include_deleted : Bool
  pub page_offset : ℤ
  pub page_limit : ℤ

unfoldable pub list_users : ListUsersParams → Query (List User)
list_users arg now d = (
  page arg.page_limit arg.page_offset
      (sort_by by_id (select (is_listed arg.include_deleted) d.tables.users)),
  d,
)

abbrev pub restored : ℕ → User → User
restored id u = if u.id == id then record u { deleted_at = none } else u

-- The row that comes back must not clash with a live row.
abbrev pub clashes : ℕ → List User → User → Bool
clashes id rows u = u.id == id && not (is_live u) && any (is_taken id u.username u.email) rows

unfoldable pub restore_user : ℕ → Query ℕ
restore_user id now d =
    let rows = d.tables.users in
    if any (clashes id rows) rows then (err Error.unique_violation, d) else (
      ok (length (select (λ u. u.id == id && not (is_live u)) rows)),
      with_users (map (restored id) rows) d,
    )

abbrev pub soft_deleted : ℕ → ℕ → User → User
soft_deleted id now u = if u.id == id && is_live u then record u { deleted_at = some now } else u

unfoldable pub soft_delete_user : ℕ → Query ℕ
soft_delete_user id now d = (
  ok (length (select (λ u. u.id == id && is_live u) d.tables.users)),
  with_users (map (soft_deleted id now) d.tables.users) d,
)

pub record UpdateUserPasswordParams : Type 0 where
  pub id : ℕ
  pub hashed_password : String

abbrev pub rehashed : UpdateUserPasswordParams → User → User
rehashed arg u = if u.id == arg.id then record u { hashed_password = arg.hashed_password } else u

unfoldable pub update_user_password : UpdateUserPasswordParams → Query (Unit {0})
update_user_password arg now d = (ok tt, with_users (map (rehashed arg) d.tables.users) d)
