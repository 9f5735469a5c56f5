-- ===== src/Db/Tx/Replace.antt =====
-- db/sqlc/tx_admin_user.go: the roles that an update of an account's roles leaves.
use template_golang_web.Base.{
  append_nil, append_cons, ℕ, ◌≡◌, ◌≢◌, refl, arith, ◌⊎◌, inl, inr, not, List, [], ◌∷◌, ◌++◌,
  select, ◌==◌,
}
use template_golang_web.Db.Model.{AdminUserRole, Tables, Database}
use template_golang_web.Db.Error.{ok, Result-cases}
use template_golang_web.Db.Roles.{
  CreateAdminUserRoleParams, create_admin_user_role, delete_admin_user_roles,
}
use template_golang_web.Env.{Env, World, ticked}
use template_golang_web.Db.Tx.{
  UpdateAdminUserRolesTxParams, bind_roles, update_roles_body, update_admin_user_roles_tx,
}
use template_golang_web.Db.Tx.Atomic.{exec_tx-eq-ok, exec_tx_atomic, stmt->>=-eq-ok, after_stmt}

-- The rows that bind the account to the roles, in their order.
abbrev pub bindings : ℕ → List ℕ → List AdminUserRole
bindings id [] = []
bindings id (r ∷ rs) = record { admin_user_id = id; role_id = r } ∷ bindings id rs

create_admin_user_role-eq-ok :
    (arg : CreateAdminUserRoleParams) (now : ℕ) (d : Database)
    → (create_admin_user_role arg now d).0 ≡ ok tt
    → (create_admin_user_role arg now d).1.tables ≡ record (d.tables) {
      admin_user_roles =
          d.tables.admin_user_roles
          ++ record { admin_user_id = arg.admin_user_id; role_id = arg.role_id } ∷ [];
    }
unfolding create_admin_user_role
create_admin_user_role-eq-ok arg now d h = ground arith

-- The tables with exactly these roles for the account.
abbrev pub with_roles_of : UpdateAdminUserRolesTxParams → Tables → Tables
with_roles_of arg t = record t {
  admin_user_roles =
      select (λ aur. not (aur.admin_user_id == arg.admin_user_id)) t.admin_user_roles
      ++ bindings arg.admin_user_id arg.role_ids;
}

module _ {R : Type 0} (env : Env R) where
  bind_roles-eq-ok :
      (id : ℕ) (role_ids : List ℕ) (w : World R)
      → (bind_roles env id role_ids w).0 ≡ ok tt
      → (bind_roles env id role_ids w).1.db.tables ≡ record (w.db.tables) {
        admin_user_roles = w.db.tables.admin_user_roles ++ bindings id role_ids;
      }
  unfolding bind_roles
  bind_roles-eq-ok id [] w h = rw (append_nil w.db.tables.admin_user_roles) refl
  bind_roles-eq-ok id (r ∷ rs) w h =
      let arg : CreateAdminUserRoleParams = record { admin_user_id = id; role_id = r } in
      let row : AdminUserRole = record { admin_user_id = id; role_id = r } in
      let (_, ran, rest, same) =
        stmt->>=-eq-ok env (create_admin_user_role arg) (λ _. bind_roles env id rs) w tt h in
      let w' = after_stmt env (create_admin_user_role arg) w in
      let added = create_admin_user_role-eq-ok arg w.now w.db ran in
      let more = bind_roles-eq-ok id rs w' rest in
      ground
        (arith, same, more, added, append_cons w.db.tables.admin_user_roles (bindings id rs) row)

  update_roles_body-eq-ok :
      (arg : UpdateAdminUserRolesTxParams) (w : World R)
      → (update_roles_body env arg w).0 ≡ ok tt
      → (update_roles_body env arg w).1.db.tables ≡ with_roles_of arg w.db.tables
  unfolding update_roles_body delete_admin_user_roles
  update_roles_body-eq-ok arg w h =
      let q = delete_admin_user_roles arg.admin_user_id in
      let (_, ran, rest, same) =
        stmt->>=-eq-ok env q (λ _. bind_roles env arg.admin_user_id arg.role_ids) w tt h in
      let more = bind_roles-eq-ok arg.admin_user_id arg.role_ids (after_stmt env q w) rest in
      ground (arith, same, more)

  -- An update of the roles of an account that reports success has given the account exactly the roles
  -- of the request and left the roles of all others and every other table as they were; and whatever
  -- it reports and whatever faults befall it, the tables are as they were or that is what they are.
  pub update_admin_user_roles_tx-replaces :
      (arg : UpdateAdminUserRolesTxParams) (w : World R)
      → let ran = update_admin_user_roles_tx env arg w in
        ((ran.1.db.tables ≡ with_roles_of arg w.db.tables)
          ⊎ ((ran.1.db.tables ≡ w.db.tables) × (ran.0 ≢ ok tt)))
  unfolding update_admin_user_roles_tx
  update_admin_user_roles_tx-replaces arg w =
      let body = update_roles_body env arg in
      elim (Result-cases (update_admin_user_roles_tx env arg w).0) [
        | inl (_, done) ↦
            let (ran, same) = exec_tx-eq-ok env body w tt done in
            inl (ground (arith, same, update_roles_body-eq-ok arg (ticked w) ran))
        | inr (e, failed) ↦ elim (exec_tx_atomic env body w) [
          | inl same ↦ inr (same, ground arith)
          | inr (_, ran, same) ↦
              inl (ground (arith, same, update_roles_body-eq-ok arg (ticked w) ran))
        ]
      ]
