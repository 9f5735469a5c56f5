-- ===== src/Db/Roles.antt =====
-- db/sqlc/role.sql.go, permission.sql.go, role_permission.sql.go and admin_user_role.sql.go: the
-- four tables of the roles and permissions. The order of texts is the collation of the database, a
-- parameter of the queries that sort by one.
use template_golang_web.Base.{
  ℕ, String, str_eq, Bool, not, ◌&&◌, ◌||◌, none, some, List, [], ◌∷◌, ◌++◌, map, find, select, any,
  sort_by, leb, ltb, ◌==◌, if◌then◌else◌,
}
use template_golang_web.Db.Model.{Role, Permission, RolePermission, AdminUserRole, Tables, Database}
use template_golang_web.Db.Error.{Error, ok, err, Query}

abbrev pub by_role_id : Role → Role → Bool
by_role_id r s = leb r.id s.id

unfoldable pub list_roles : Query (List Role)
list_roles now d = (ok (sort_by by_role_id d.tables.roles), d)

pub record ListRolePermissionsRow : Type 0 where
  pub role_id : ℕ
  pub code : String
  pub description : String

abbrev pub join_permissions : List Permission → List RolePermission → List ListRolePermissionsRow
join_permissions perms [] = []
join_permissions perms (rp ∷ rps) = elim (find (λ p. p.id == rp.permission_id) perms) [
  | none ↦ join_permissions perms rps
  | some p ↦
      record { role_id = rp.role_id; code = p.code; description = p.description }
      ∷ join_permissions perms rps
]

-- ORDER BY rp.role_id, p.code
abbrev pub by_role_and_code :
    (String → String → Bool) → ListRolePermissionsRow → ListRolePermissionsRow → Bool
by_role_and_code collate r s =
    ltb r.role_id s.role_id || (r.role_id == s.role_id && collate r.code s.code)

unfoldable pub list_role_permissions :
    (String → String → Bool) → Query (List ListRolePermissionsRow)
list_role_permissions collate now d = (
  ok (
      sort_by (by_role_and_code collate)
        (join_permissions d.tables.permissions d.tables.role_permissions)),
  d,
)

abbrev pub contains : String → List String → Bool
contains s = any (λ t. str_eq t s)

-- SELECT DISTINCT
abbrev pub distinct : List String → List String
distinct [] = []
distinct (s ∷ ss) = if contains s ss then distinct ss else s ∷ distinct ss

-- The codes that a role holds: a join of role_permissions and permissions.
abbrev pub role_codes : Tables → ℕ → List String
role_codes t role_id =
    map (λ r. r.code)
      (join_permissions t.permissions (select (λ rp. rp.role_id == role_id) t.role_permissions))

-- The codes of all the roles that are bound to the user.
abbrev pub codes_of : Tables → List AdminUserRole → List String
codes_of t [] = []
codes_of t (aur ∷ rest) = role_codes t aur.role_id ++ codes_of t rest

unfoldable pub list_permission_codes_by_admin_user_id :
    (String → String → Bool) → ℕ → Query (List String)
list_permission_codes_by_admin_user_id collate admin_user_id now d = (
  ok (
      sort_by collate (
        distinct (
          codes_of d.tables
            (select (λ aur. aur.admin_user_id == admin_user_id) d.tables.admin_user_roles)))),
  d,
)

pub record CreateAdminUserRoleParams : Type 0 where
  pub admin_user_id : ℕ
  pub role_id : ℕ

abbrev pub with_admin_user_roles : List AdminUserRole → Database → Database
with_admin_user_roles rows d = record d { tables = record (d.tables) { admin_user_roles = rows } }

abbrev pub is_binding : ℕ → ℕ → AdminUserRole → Bool
is_binding admin_user_id role_id aur = aur.admin_user_id == admin_user_id && aur.role_id == role_id

-- The primary key is the pair; both columns are foreign keys.
unfoldable pub create_admin_user_role : CreateAdminUserRoleParams → Query (Unit {0})
create_admin_user_role arg now d =
    if any (is_binding arg.admin_user_id arg.role_id) d.tables.admin_user_roles
    then (err Error.unique_violation, d)
    else if any (λ a. a.id == arg.admin_user_id) d.tables.admin_users
        && any (λ r. r.id == arg.role_id) d.tables.roles
    then (
      ok tt,
      with_admin_user_roles
          (d.tables.admin_user_roles
            ++ record { admin_user_id = arg.admin_user_id; role_id = arg.role_id } ∷ [])
          d,
    )
    else (err Error.foreign_key_violation, d)

unfoldable pub delete_admin_user_roles : ℕ → Query (Unit {0})
delete_admin_user_roles admin_user_id now d = (
  ok tt,
  with_admin_user_roles
      (select (λ aur. not (aur.admin_user_id == admin_user_id)) d.tables.admin_user_roles) d,
)

pub record ListAdminUserRolesRow : Type 0 where
  pub admin_user_id : ℕ
  pub role_id : ℕ
  pub name : String

abbrev pub join_roles : List Role → List AdminUserRole → List ListAdminUserRolesRow
join_roles roles [] = []
join_roles roles (aur ∷ rest) = elim (find (λ r. r.id == aur.role_id) roles) [
  | none ↦ join_roles roles rest
  | some r ↦
      record { admin_user_id = aur.admin_user_id; role_id = r.id; name = r.name }
      ∷ join_roles roles rest
]

-- ORDER BY aur.admin_user_id, r.id
abbrev pub by_user_and_role : ListAdminUserRolesRow → ListAdminUserRolesRow → Bool
by_user_and_role r s =
    ltb r.admin_user_id s.admin_user_id
    || (r.admin_user_id == s.admin_user_id && leb r.role_id s.role_id)

unfoldable pub list_admin_user_roles : Query (List ListAdminUserRolesRow)
list_admin_user_roles now d =
    (ok (sort_by by_user_and_role (join_roles d.tables.roles d.tables.admin_user_roles)), d)
