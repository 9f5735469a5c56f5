-- ===== src/Db/AdminUsers.antt =====
-- db/sqlc/admin_user.sql.go: the queries on the table `admin_users`, with the partial unique index
-- on the username of the rows that are not deleted.
use template_golang_web.Base.{
  ℕ, ◌+◌, String, str_eq, Bool, not, ◌&&◌, ◌||◌, none, some, List, [], ◌∷◌, ◌++◌, map, ℤ, length,
  find, select, any, sort_by, leb, ◌==◌, if◌then◌else◌,
}
use template_golang_web.Db.Model.{AdminUser, Database}
use template_golang_web.Db.Error.{Error, ok, err, from_option, Query}
use template_golang_web.Db.Users.{is_null, page}

abbrev pub is_live : AdminUser → Bool
is_live u = is_null u.deleted_at

abbrev pub is_listed : Bool → AdminUser → Bool
is_listed include_deleted u = include_deleted || is_live u

abbrev pub with_admin_users : List AdminUser → Database → Database
with_admin_users rows d = record d { tables = record (d.tables) { admin_users = rows } }

abbrev pub is_taken : ℕ → String → AdminUser → Bool
is_taken id username u = not (u.id == id) && is_live u && str_eq u.username username

abbrev pub by_id : AdminUser → AdminUser → Bool
by_id u v = leb u.id v.id

unfoldable pub count_admin_users : Bool → Query ℕ
count_admin_users include_deleted now d =
    (ok (length (select (is_listed include_deleted) d.tables.admin_users)), d)

pub record CreateAdminUserParams : Type 0 where
  pub username : String
  pub hashed_password : String

abbrev pub new_admin_user : CreateAdminUserParams → ℕ → ℕ → AdminUser
new_admin_user arg id now = record {
  id = id;
  username = arg.username;
  hashed_password = arg.hashed_password;
  created_at = now;
  deleted_at = none;
}

unfoldable pub create_admin_user : CreateAdminUserParams → Query AdminUser
create_admin_user arg now d =
    let id = d.sequences.admin_users in
    let drawn = record d { sequences = record (d.sequences) { admin_users = id + 1 } } in
    if any (λ u. u.id == id || is_taken id arg.username u) d.tables.admin_users
    then (err Error.unique_violation, drawn)
    else (
      ok (new_admin_user arg id now),
      with_admin_users (d.tables.admin_users ++ new_admin_user arg id now ∷ []) drawn,
    )

unfoldable pub get_admin_user : ℕ → Query AdminUser
get_admin_user id now d =
    (from_option Error.no_rows (find (λ u. u.id == id && is_live u) d.tables.admin_users), d)

unfoldable pub get_admin_user_by_username : String → Query AdminUser
get_admin_user_by_username username now d = (
  from_option Error.no_rows
      (find (λ u. str_eq u.username username && is_live u) d.tables.admin_users),
  d,
)

pub record ListAdminUsersParams : Type 0 where
  pub include_deleted : Bool
  pub page_offset : ℤ
  pub page_limit : ℤ

unfoldable pub list_admin_users : ListAdminUsersParams → Query (List AdminUser)
list_admin_users arg now d = (
  page arg.page_limit arg.page_offset
      (sort_by by_id (select (is_listed arg.include_deleted) d.tables.admin_users)),
  d,
)

abbrev pub restored : ℕ → AdminUser → AdminUser
restored id u = if u.id == id then record u { deleted_at = none } else u

abbrev pub clashes : ℕ → List AdminUser → AdminUser → Bool
clashes id rows u = u.id == id && not (is_live u) && any (is_taken id u.username) rows

unfoldable pub restore_admin_user : ℕ → Query ℕ
restore_admin_user id now d =
    let rows = d.tables.admin_users in
    if any (clashes id rows) rows then (err Error.unique_violation, d) else (
      ok (length (select (λ u. u.id == id && not (is_live u)) rows)),
      with_admin_users (map (restored id) rows) d,
    )

abbrev pub soft_deleted : ℕ → ℕ → AdminUser → AdminUser
soft_deleted id now u = if u.id == id && is_live u then record u { deleted_at = some now } else u

unfoldable pub soft_delete_admin_user : ℕ → Query ℕ
soft_delete_admin_user id now d = (
  ok (length (select (λ u. u.id == id && is_live u) d.tables.admin_users)),
  with_admin_users (map (soft_deleted id now) d.tables.admin_users) d,
)

pub record UpdateAdminUserPasswordParams : Type 0 where
  pub id : ℕ
  pub hashed_password : String

abbrev pub rehashed : UpdateAdminUserPasswordParams → AdminUser → AdminUser
rehashed arg u = if u.id == arg.id then record u { hashed_password = arg.hashed_password } else u

unfoldable pub update_admin_user_password : UpdateAdminUserPasswordParams → Query (Unit {0})
update_admin_user_password arg now d =
    (ok tt, with_admin_users (map (rehashed arg) d.tables.admin_users) d)
