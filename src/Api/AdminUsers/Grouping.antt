-- ===== src/Api/AdminUsers/Grouping.antt =====
-- api/admin_user.go and api/role.go: what the maps that the two list handlers build hold of a key.
use template_golang_web.Base.{
  append_nil, append_assoc, ℕ, String, ◌≡◌, refl, sym, arith, List, [], ◌∷◌, ◌++◌, map, select,
  ◌==◌, if◌then◌else◌,
}
use template_golang_web.Db.Roles.{ListAdminUserRolesRow, ListRolePermissionsRow}
use template_golang_web.Api.Response.{RoleBrief}
use template_golang_web.Api.AdminUsers.{read, push, brief, group_roles, group_codes}

-- A push is read under its own key only.
read-push {ℓ} :
    {A : Type ℓ} (m : List (ℕ × List A)) (j k : ℕ) (x : A)
    → read (push m j x) k ≡ (if j == k then read m k ++ x ∷ [] else read m k)
unfolding read push
read-push [] j k x = refl
read-push ((i, xs) ∷ m) j k x = ground (arith, read-push m j k x)

read-group_roles-from :
    (m : List (ℕ × List RoleBrief)) (urs : List ListAdminUserRolesRow) (id : ℕ)
    → read (group_roles m urs) id
      ≡ read m id ++ map brief (select (λ ur. ur.admin_user_id == id) urs)
unfolding group_roles
read-group_roles-from m [] id = sym (append_nil (read m id))
read-group_roles-from m (ur ∷ urs) id = ground (
  arith,
  read-group_roles-from (push m ur.admin_user_id (brief ur)) urs id,
  read-push m ur.admin_user_id id (brief ur),
  append_assoc (read m id) (brief ur ∷ [])
      (map brief (select (λ ur'. ur'.admin_user_id == id) urs)),
)

-- The map of the roles holds, for each account, the roles of its rows in their order.
pub read-group_roles :
    (urs : List ListAdminUserRolesRow) (id : ℕ)
    → read (group_roles [] urs) id ≡ map brief (select (λ ur. ur.admin_user_id == id) urs)
unfolding read
read-group_roles urs id = read-group_roles-from [] urs id

abbrev pub code_of : ListRolePermissionsRow → String
code_of rp = rp.code

read-group_codes-from :
    (m : List (ℕ × List String)) (rps : List ListRolePermissionsRow) (id : ℕ)
    → read (group_codes m rps) id ≡ read m id ++ map code_of (select (λ rp. rp.role_id == id) rps)
unfolding group_codes
read-group_codes-from m [] id = sym (append_nil (read m id))
read-group_codes-from m (rp ∷ rps) id = ground (
  arith,
  read-group_codes-from (push m rp.role_id rp.code) rps id,
  read-push m rp.role_id id rp.code,
  append_assoc (read m id) (rp.code ∷ []) (map code_of (select (λ rp'. rp'.role_id == id) rps)),
)

-- The map of the permissions holds, for each role, the codes of its rows in their order.
pub read-group_codes :
    (rps : List ListRolePermissionsRow) (id : ℕ)
    → read (group_codes [] rps) id ≡ map code_of (select (λ rp. rp.role_id == id) rps)
unfolding read
read-group_codes rps id = read-group_codes-from [] rps id
