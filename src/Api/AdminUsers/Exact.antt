-- ===== src/Api/AdminUsers/Exact.antt =====
-- api/admin_user.go and api/role.go: what the two lists say of the accounts and the roles, against the
-- tables.
use template_golang_web.Base.{
  ℕ, ◌≡◌, refl, arith, String, str_eq, Bool, false, ◌&&◌, Option-cases, none, some, inl, inr, List,
  [], ◌∷◌, map, find, select, sort_by, any, any-map, any-select, any-sort_by, All, length, ◌==◌,
}
use template_golang_web.Db.Model.{
  AdminUser, Role, Permission, RolePermission, AdminUserRole, Tables,
}
use template_golang_web.Db.Error.{ok, Result-cases}
use template_golang_web.Db.AdminUsers
use template_golang_web.Db.AdminUsers.{ListAdminUsersParams, is_listed}
use template_golang_web.Db.Roles
use template_golang_web.Db.Roles.{
  ListAdminUserRolesRow, ListRolePermissionsRow, join_permissions, join_roles, by_role_id,
  by_role_and_code, by_user_and_role,
}
use template_golang_web.Env.{Env, World, stmt, attempt}
use template_golang_web.Api.Response
use template_golang_web.Api.Response.{
  Response, RoleBrief, AdminUserResponse, AdminUserWithRolesResponse, RoleResponse, admin_user_page,
  role_list, new_admin_user_response,
}
use template_golang_web.Api.Handler.{next}
use template_golang_web.Api.Page.{PageRequest, offset_of, limit_of, page_result}
use template_golang_web.Api.Middleware.Rights.{gives}
use template_golang_web.Api.AdminUsers.{
  read, brief, with_roles, with_codes, group_roles, group_codes, list_admin_users, list_roles,
}
use template_golang_web.Api.AdminUsers.Grouping.{code_of, read-group_roles, read-group_codes}

-- The row binds its account to a role whose id and name pass the test.
abbrev binds : List Role → (RoleBrief → Bool) → AdminUserRole → Bool
binds roles test aur = elim (find (λ r. r.id == aur.role_id) roles) [
  | none ↦ false
  | some r ↦ test (record { id = r.id; name = r.name })
]

any-join_roles :
    (roles : List Role) (id : ℕ) (test : RoleBrief → Bool) (aurs : List AdminUserRole)
    → any (λ ur. ur.admin_user_id == id && test (brief ur)) (join_roles roles aurs)
      ≡ any (λ aur. aur.admin_user_id == id && binds roles test aur) aurs
any-join_roles roles id test [] = refl
any-join_roles roles id test (aur ∷ aurs) =
    elim (Option-cases (find (λ r. r.id == aur.role_id) roles)) [
      | inl missing ↦ ground (arith, any-join_roles roles id test aurs)
      | inr (r, found) ↦ ground (arith, any-join_roles roles id test aurs)
    ]

any-join_permissions :
    (perms : List Permission) (id : ℕ) (test : String → Bool) (rps : List RolePermission)
    → any (λ row. row.role_id == id && test row.code) (join_permissions perms rps)
      ≡ any (λ rp. rp.role_id == id && gives perms test rp) rps
any-join_permissions perms id test [] = refl
any-join_permissions perms id test (rp ∷ rps) =
    elim (Option-cases (find (λ p. p.id == rp.permission_id) perms)) [
      | inl missing ↦ ground (arith, any-join_permissions perms id test rps)
      | inr (p, found) ↦ ground (arith, any-join_permissions perms id test rps)
    ]

-- A role with its permissions: a code is among them exactly if the tables give it to the role.
abbrev pub IsExactRole : Tables → RoleResponse → Type 0
IsExactRole t r =
    (code : String)
    → any (str_eq code) r.permissions
      ≡ any (λ rp. rp.role_id == r.id && gives t.permissions (str_eq code) rp) t.role_permissions

-- An account with its roles: a role is among them exactly if the tables bind the account to it.
abbrev pub IsExactAdmin : Tables → AdminUserWithRolesResponse → Type 0
IsExactAdmin t u =
    (test : RoleBrief → Bool)
    → any test u.roles
      ≡ any (λ aur. aur.admin_user_id == u.user.id && binds t.roles test aur) t.admin_user_roles

-- What a role is shown with, apart from its permissions.
abbrev pub shown : Role → ℕ × String × String × ℕ
shown r = (r.id, r.name, r.description, r.created_at)

abbrev pub shown_of : RoleResponse → ℕ × String × String × ℕ
shown_of r = (r.id, r.name, r.description, r.created_at)

abbrev pub user_of : AdminUserWithRolesResponse → AdminUserResponse
user_of u = u.user

module _ {ℓ κ} {A : Type ℓ} {B : Type κ} (f : A → B) where
  map-map {μ} :
      {C : Type μ} (g : B → C) (h : A → C)
      → ((x : A) → g (f x) ≡ h x)
      → (xs : List A) → map g (map f xs) ≡ map h xs
  map-map g h same [] = refl
  map-map g h same (x ∷ xs) = rw (same x, map-map g h same xs) refl

  All-map {μ} : (P : B → Type μ) → ((x : A) → P (f x)) → (xs : List A) → All P (map f xs)
  All-map P holds [] = tt
  All-map P holds (x ∷ xs) = (holds x, All-map P holds xs)

module _ (collate : String → String → Bool) (t : Tables) where
  abbrev permission_rows : List ListRolePermissionsRow
  permission_rows =
      sort_by (by_role_and_code collate) (join_permissions t.permissions t.role_permissions)

  with_codes-IsExact : (r : Role) → IsExactRole t (with_codes (group_codes [] permission_rows) r)
  with_codes-IsExact r code =
      let own : ListRolePermissionsRow → Bool = λ row. row.role_id == r.id in
      ground (
        arith,
        read-group_codes permission_rows r.id,
        any-map (str_eq code) code_of (select own permission_rows),
        any-select (λ row. str_eq code row.code) own permission_rows,
        any-sort_by (λ row. own row && str_eq code row.code) (by_role_and_code collate)
            (join_permissions t.permissions t.role_permissions),
        any-join_permissions t.permissions r.id (str_eq code) t.role_permissions,
      )

module _ (t : Tables) where
  abbrev role_rows : List ListAdminUserRolesRow
  role_rows = sort_by by_user_and_role (join_roles t.roles t.admin_user_roles)

  with_roles-IsExact : (u : AdminUser) → IsExactAdmin t (with_roles (group_roles [] role_rows) u)
  unfolding new_admin_user_response
  with_roles-IsExact u test =
      let own : ListAdminUserRolesRow → Bool = λ ur. ur.admin_user_id == u.id in
      ground (
        arith,
        read-group_roles role_rows u.id,
        any-map test brief (select own role_rows),
        any-select (λ ur. test (brief ur)) own role_rows,
        any-sort_by (λ ur. own ur && test (brief ur)) by_user_and_role
            (join_roles t.roles t.admin_user_roles),
        any-join_roles t.roles u.id test t.admin_user_roles,
      )

-- What the query for the page is given.
abbrev pub page_params : PageRequest → ListAdminUsersParams
page_params req = record {
  include_deleted = req.include_deleted;
  page_offset = offset_of req;
  page_limit = limit_of req;
}

module _ {R : Type 0} (env : Env R) where
  -- The list of an answer with 200: all roles in the order of their ids, each with exactly the
  -- permissions that the tables give it, whichever calls fail.
  pub list_roles-IsExact :
      (w : World R) (a : Response)
      → (list_roles env w).0 ≡ next a
      → (rs : List RoleResponse) × (a ≡ Response.ok (role_list rs))
        × (map shown_of rs ≡ map shown (sort_by by_role_id w.db.tables.roles))
        × All (IsExactRole w.db.tables) rs
  unfolding list_roles Roles.list_roles Roles.list_role_permissions stmt attempt
  list_roles-IsExact w a h =
      let t = w.db.tables in
      let m = group_codes [] (permission_rows env.collate t) in
      let roles = sort_by by_role_id t.roles in
      (
        map (with_codes m) roles,
        ground arith,
        map-map (with_codes m) shown_of shown (λ r. refl) roles,
        All-map (with_codes m) (IsExactRole t) (with_codes-IsExact env.collate t) roles,
      )

  -- The list of an answer with 200: the accounts of the page, each with exactly the roles that the
  -- tables bind it to, and the number of all accounts that are listed, whichever calls fail.
  pub list_admin_users-IsExact :
      (req : PageRequest) (w : World R) (a : Response)
      → (list_admin_users env (some req) w).0 ≡ next a
      → (users : List AdminUser) × (us : List AdminUserWithRolesResponse)
        × ((AdminUsers.list_admin_users (page_params req) w.now w.db).0 ≡ ok users)
        × (a
            ≡ Response.ok (
                admin_user_page (
                  page_result req
                    (length (select (is_listed req.include_deleted) w.db.tables.admin_users))
                    us)))
        × (map user_of us ≡ map new_admin_user_response users)
        × All (IsExactAdmin w.db.tables) us
  unfolding list_admin_users AdminUsers.list_admin_users AdminUsers.count_admin_users
      Roles.list_admin_user_roles stmt attempt
  list_admin_users-IsExact req w a h =
      let t = w.db.tables in
      let m = group_roles [] (role_rows t) in
      elim (Result-cases (AdminUsers.list_admin_users (page_params req) w.now w.db).0) [
        | inr (e, refused) ↦ absurd (ground arith)
        | inl (users, read) ↦ (
          users,
          map (with_roles m) users,
          read,
          ground arith,
          map-map (with_roles m) user_of new_admin_user_response (λ u. refl) users,
          All-map (with_roles m) (IsExactAdmin t) (with_roles-IsExact t) users,
        )
      ]
