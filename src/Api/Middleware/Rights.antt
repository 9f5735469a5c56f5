-- ===== src/Api/Middleware/Rights.antt =====
-- db/sqlc/permission.sql.go with api/middleware.go: the permissions of a session against the tables of
-- the roles.
use template_golang_web.Base.{
  ℕ, ◌≡◌, refl, arith, String, str_eq, eq_iff, Bool, true, false, ◌&&◌, ◌||◌, none, some, List, [],
  ◌∷◌, map, select, any, any-append_lists, any-sort_by, any-select, find, ◌==◌, Bool-cases,
  Option-cases, inl, inr,
}
use template_golang_web.Db.Model.{AdminUserRole, Permission, RolePermission, Tables, Database}
use template_golang_web.Db.Error.{ok}
use template_golang_web.Db.Roles.{
  ListRolePermissionsRow, join_permissions, contains, distinct, role_codes, codes_of,
  list_permission_codes_by_admin_user_id,
}
use template_golang_web.Api.Middleware.{perm_wildcard, has_permission}

-- A code opens what needs `code`: it is the code, or the wildcard.
abbrev pub opens : String → String → Bool
opens code p = str_eq p perm_wildcard || str_eq p code

-- The row gives its role a permission whose code passes the test.
abbrev pub gives : List Permission → (String → Bool) → RolePermission → Bool
gives perms test rp = elim (find (λ p. p.id == rp.permission_id) perms) [
  | none ↦ false
  | some p ↦ test p.code
]

-- The account is bound to a role that has such a row.
abbrev pub is_granted : Tables → ℕ → String → Bool
is_granted t id code =
    any
      (λ (aur : AdminUserRole).
        aur.admin_user_id == id
        && any (λ rp. rp.role_id == aur.role_id && gives t.permissions (opens code) rp)
            t.role_permissions)
      t.admin_user_roles

-- The permissions open exactly what the tables grant to the account.
abbrev pub IsExact : Tables → ℕ → List String → Type 0
IsExact t id codes = (code : String) → has_permission codes code ≡ is_granted t id code

has_permission-any :
    (ps : List String) (code : String) → has_permission ps code ≡ any (opens code) ps
unfolding has_permission
has_permission-any [] code = refl
has_permission-any (p ∷ ps) code = ground (arith, has_permission-any ps code)

any-of_contains :
    (p : String → Bool) (s : String) (ss : List String)
    → contains s ss ≡ true
    → p s ≡ true
    → any p ss ≡ true
any-of_contains p s [] h q = cc
any-of_contains p s (t ∷ ss) h q = elim (Bool-cases (str_eq t s)) [
  | inl same ↦ let e = (eq_iff t s).0 same in rw e (rw q refl)
  | inr other ↦ ground (arith, any-of_contains p s ss)
]

any-distinct : (p : String → Bool) (ss : List String) → any p (distinct ss) ≡ any p ss
any-distinct p [] = refl
any-distinct p (s ∷ ss) = ground (arith, any-distinct p ss, any-of_contains p s ss)

abbrev code_of : ListRolePermissionsRow → String
code_of r = r.code

any-join_permissions :
    (perms : List Permission) (test : String → Bool) (rps : List RolePermission)
    → any test (map code_of (join_permissions perms rps)) ≡ any (gives perms test) rps
any-join_permissions perms test [] = refl
any-join_permissions perms test (rp ∷ rps) =
    elim (Option-cases (find (λ p. p.id == rp.permission_id) perms)) [
      | inl missing ↦ ground (arith, any-join_permissions perms test rps)
      | inr (p, found) ↦ ground (arith, any-join_permissions perms test rps)
    ]

any-codes_of :
    (t : Tables) (code : String) (aurs : List AdminUserRole)
    → any (opens code) (codes_of t aurs)
      ≡ any
          (λ aur.
            any
              (λ rp. rp.role_id == aur.role_id && gives t.permissions (opens code) rp)
              t.role_permissions)
          aurs
any-codes_of t code [] = refl
any-codes_of t code (aur ∷ aurs) =
    let rows = select (λ (rp : RolePermission). rp.role_id == aur.role_id) t.role_permissions in
    ground (
      arith,
      any-append_lists (opens code) (role_codes t aur.role_id) (codes_of t aurs),
      any-join_permissions t.permissions (opens code) rows,
      any-select (gives t.permissions (opens code))
          (λ (rp : RolePermission). rp.role_id == aur.role_id) t.role_permissions,
      any-codes_of t code aurs,
    )

-- The permissions that the login reads open what needs a code exactly if the tables bind the account
-- to a role with this permission or the wildcard, whatever the order of the codes.
pub has_permission-is_granted :
    (collate : String → String → Bool) (id now : ℕ) (d : Database) (codes : List String)
    (code : String)
    → (list_permission_codes_by_admin_user_id collate id now d).0 ≡ ok codes
    → has_permission codes code ≡ is_granted d.tables id code
unfolding list_permission_codes_by_admin_user_id
has_permission-is_granted collate id now d codes code h =
    let bound =
      select (λ (aur : AdminUserRole). aur.admin_user_id == id) d.tables.admin_user_roles in
    let all = codes_of d.tables bound in
    let holds : AdminUserRole → Bool = λ aur.
      any (λ rp. rp.role_id == aur.role_id && gives d.tables.permissions (opens code) rp)
        d.tables.role_permissions in
    ground (
      arith,
      has_permission-any codes code,
      any-sort_by (opens code) collate (distinct all),
      any-distinct (opens code) all,
      any-codes_of d.tables code bound,
      any-select holds (λ (aur : AdminUserRole). aur.admin_user_id == id) d.tables.admin_user_roles,
    )
