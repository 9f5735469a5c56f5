-- ===== src/Api/AdminUsers.antt =====
-- api/admin_user.go and api/role.go: the accounts of the back office, their roles, and the maps
-- that the two list handlers build in memory.
pub mod Deletion
pub mod Eviction
pub mod Grouping
pub mod Exact
use template_golang_web.Base.{
  ℕ, String, Bool, not, ◌&&◌, Option, none, some, List, [], ◌∷◌, ◌++◌, map, leb, ◌==◌,
  if◌then◌else◌, true,
}
use template_golang_web.Db.Model.{AdminUser, Role}
use template_golang_web.Db.Error.{Error, is_no_rows, is_unique_violation, is_foreign_key_violation}
use template_golang_web.Db.AdminUsers
use template_golang_web.Db.Roles
use template_golang_web.Db.Roles.{ListAdminUserRolesRow, ListRolePermissionsRow}
use template_golang_web.Db.Tx.{create_admin_user_tx, update_admin_user_roles_tx}
use template_golang_web.Env.{Env, AuthUser, stmt}
use template_golang_web.Errcode.{Code}
use template_golang_web.Api.Response
use template_golang_web.Api.Response.{
  Response, RoleBrief, AdminUserWithRolesResponse, RoleResponse, null, admin_user, admin_user_page,
  role_list, fail, fail_internal, new_admin_user_response,
}
use template_golang_web.Api.Handler.{
  Handler, ◌>>=◌, ◌>>◌, done, refuse, call_or, call, bind, ensure,
}
use template_golang_web.Api.Page.{
  PageRequest, is_valid_page, offset_of, limit_of, is_valid_id, page_result,
}
use template_golang_web.Api.Auth.{is_password, is_username, hash_password, kick_admin_session}

-- A Go map from int64 to slices: a missing key reads as nil, the empty slice.
module _ {ℓ} {A : Type ℓ} where
  unfoldable pub read : List (ℕ × List A) → ℕ → List A
  read [] k = []
  read ((j, xs) ∷ m) k = if j == k then xs else read m k

  -- m[k] = append(m[k], x)
  unfoldable pub push : List (ℕ × List A) → ℕ → A → List (ℕ × List A)
  push [] k x = (k, x ∷ []) ∷ []
  push ((j, xs) ∷ m) k x = if j == k then (j, xs ++ x ∷ []) ∷ m else (j, xs) ∷ push m k x

abbrev pub brief : ListAdminUserRolesRow → RoleBrief
brief ur = record { id = ur.role_id; name = ur.name }

-- for _, ur := range userRoles
unfoldable pub group_roles :
    List (ℕ × List RoleBrief) → List ListAdminUserRolesRow → List (ℕ × List RoleBrief)
group_roles m [] = m
group_roles m (ur ∷ urs) = group_roles (push m ur.admin_user_id (brief ur)) urs

abbrev pub with_roles : List (ℕ × List RoleBrief) → AdminUser → AdminUserWithRolesResponse
with_roles m u = record { user = new_admin_user_response u; roles = read m u.id }

-- for _, rp := range rolePerms
unfoldable pub group_codes :
    List (ℕ × List String) → List ListRolePermissionsRow → List (ℕ × List String)
group_codes m [] = m
group_codes m (rp ∷ rps) = group_codes (push m rp.role_id rp.code) rps

abbrev pub with_codes : List (ℕ × List String) → Role → RoleResponse
with_codes m r = record {
  id = r.id;
  name = r.name;
  description = r.description;
  permissions = read m r.id;
  created_at = r.created_at;
}

pub record CreateAdminUserRequest : Type 0 where
  pub username : String
  pub password : String
  pub role_ids : List ℕ

abbrev pub all_ids : List ℕ → Bool
all_ids [] = true
all_ids (id ∷ ids) = is_valid_id id && all_ids ids

module _ {R : Type 0} (env : Env R) where
  unfoldable pub list_admin_users : Option PageRequest → Handler R Response
  list_admin_users query = do
    req ← bind is_valid_page query
    users ← call (
        stmt env (
          AdminUsers.list_admin_users (record {
            include_deleted = req.include_deleted;
            page_offset = offset_of req;
            page_limit = limit_of req;
          })))
    total ← call (stmt env (AdminUsers.count_admin_users req.include_deleted))
    user_roles ← call (stmt env Roles.list_admin_user_roles)
    done (
        Response.ok (
          admin_user_page
            (page_result req total (map (with_roles (group_roles [] user_roles)) users))))

  abbrev pub is_valid_admin : CreateAdminUserRequest → Bool
  is_valid_admin req =
      is_username env req.username && is_password env req.password && all_ids req.role_ids

  abbrev pub on_create_error : {A : Type 0} → Error → Handler R A
  on_create_error e =
      if is_unique_violation e
      then refuse (fail 409 Code.user_exists)
      else if is_foreign_key_violation e
      then refuse (fail 400 Code.invalid_params)
      else refuse (fail_internal e)

  unfoldable pub create_admin_user : Option CreateAdminUserRequest → Handler R Response
  create_admin_user body = do
    req ← bind is_valid_admin body
    hashed ← call (hash_password env req.password)
    u ←
        call_or
          (create_admin_user_tx env (record {
            params = record { username = req.username; hashed_password = hashed };
            role_ids = req.role_ids;
          }))
          on_create_error
    done (Response.ok (admin_user (new_admin_user_response u)))

  abbrev pub on_missing : {A : Type 0} → Error → Handler R A
  on_missing e =
      if is_no_rows e then refuse (fail 404 Code.user_not_found) else refuse (fail_internal e)

  unfoldable pub update_admin_user_roles : Option ℕ → Option (List ℕ) → Handler R Response
  update_admin_user_roles uri body = do
    id ← bind is_valid_id uri
    role_ids ← bind all_ids body
    _ ← call_or (stmt env (AdminUsers.get_admin_user id)) on_missing
    call_or (update_admin_user_roles_tx env (record { admin_user_id = id; role_ids = role_ids }))
        (λ e.
          if is_foreign_key_violation e
          then refuse (fail 400 Code.invalid_params)
          else refuse (fail_internal e))
    done (Response.ok null)

  -- The account is marked first; then its session goes.
  unfoldable pub delete_admin_user : AuthUser → Option ℕ → Handler R Response
  delete_admin_user operator uri = do
    id ← bind is_valid_id uri
    ensure (not (id == operator.user_id)) (fail 400 Code.cannot_delete_self)
    rows ← call (stmt env (AdminUsers.soft_delete_admin_user id))
    ensure (not (rows == 0)) (fail 404 Code.user_not_found)
    kick_admin_session env id
    done (Response.ok null)

  unfoldable pub restore_admin_user : Option ℕ → Handler R Response
  restore_admin_user uri = do
    id ← bind is_valid_id uri
    rows ← call_or (stmt env (AdminUsers.restore_admin_user id)) (λ e.
        if is_unique_violation e
        then refuse (fail 409 Code.user_exists)
        else refuse (fail_internal e))
    ensure (not (rows == 0)) (fail 404 Code.user_not_found)
    done (Response.ok null)

  unfoldable pub list_roles : Handler R Response
  list_roles = do
    roles ← call (stmt env Roles.list_roles)
    role_perms ← call (stmt env (Roles.list_role_permissions env.collate))
    done (Response.ok (role_list (map (with_codes (group_codes [] role_perms)) roles)))
