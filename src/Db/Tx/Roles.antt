-- ===== src/Db/Tx/Roles.antt =====
-- db/sqlc/tx_admin_user.go: what the two transactions on admin users leave alone.
use template_golang_web.Base.{ℕ, ◌≡◌, arith, List, [], ◌∷◌, inl, inr}
use template_golang_web.Db.Model.{Tables, Database}
use template_golang_web.Db.Error.{Result-cases}
use template_golang_web.Db.AdminUsers.{CreateAdminUserParams, create_admin_user}
use template_golang_web.Db.Roles.{
  CreateAdminUserRoleParams, create_admin_user_role, delete_admin_user_roles,
}
use template_golang_web.Env.{Env, World, ticked, stmt}
use template_golang_web.Db.Tx.{
  CreateAdminUserTxParams, UpdateAdminUserRolesTxParams, bind_roles, create_admin_user_body,
  create_admin_user_tx, update_roles_body, update_admin_user_roles_tx,
}
use template_golang_web.Db.Tx.Atomic.{stmt_keeps, exec_tx_keeps}

-- The tables that only the front end's users have.
abbrev pub HasSameUsers : Tables → Tables → Type 0
HasSameUsers s t =
    (t.users ≡ s.users) × (t.wallets ≡ s.wallets) × (t.wallet_entries ≡ s.wallet_entries)

module _ (s : Tables) (now : ℕ) (d : Database) (h : HasSameUsers s d.tables) where
  create_admin_user_role_same :
      (arg : CreateAdminUserRoleParams) → HasSameUsers s (create_admin_user_role arg now d).1.tables
  unfolding create_admin_user_role
  create_admin_user_role_same arg = ground arith

  delete_admin_user_roles_same :
      (id : ℕ) → HasSameUsers s (delete_admin_user_roles id now d).1.tables
  unfolding delete_admin_user_roles
  delete_admin_user_roles_same id = h

  create_admin_user_same :
      (arg : CreateAdminUserParams) → HasSameUsers s (create_admin_user arg now d).1.tables
  unfolding create_admin_user
  create_admin_user_same arg = ground arith

module _ {R : Type 0} (env : Env R) (s : Tables) where
  bind_roles_same :
      (id : ℕ) (role_ids : List ℕ) (w : World R)
      → HasSameUsers s w.db.tables
      → HasSameUsers s (bind_roles env id role_ids w).1.db.tables
  unfolding bind_roles
  bind_roles_same id [] w h = h
  bind_roles_same id (r ∷ rs) w h =
      let arg : CreateAdminUserRoleParams = record { admin_user_id = id; role_id = r } in
      let q = create_admin_user_role arg in
      let kept : HasSameUsers s (stmt env q w).1.db.tables =
        stmt_keeps env (HasSameUsers s) q w (λ now d p. create_admin_user_role_same s now d p arg)
          h in
      ground (arith, bind_roles_same id rs (stmt env q w).1 kept)

  create_admin_user_body_same :
      (arg : CreateAdminUserTxParams) (w : World R)
      → HasSameUsers s w.db.tables
      → HasSameUsers s (create_admin_user_body env arg w).1.db.tables
  unfolding create_admin_user_body
  create_admin_user_body_same arg w h =
      let q = create_admin_user arg.params in
      let kept : HasSameUsers s (stmt env q w).1.db.tables =
        stmt_keeps env (HasSameUsers s) q w (λ now d p. create_admin_user_same s now d p arg.params)
          h in
      elim (Result-cases (stmt env q w).0) [
        | inr (e, failed) ↦ ground arith
        | inl (u, done) ↦ ground (arith, bind_roles_same u.id arg.role_ids (stmt env q w).1 kept)
      ]

  update_roles_body_same :
      (arg : UpdateAdminUserRolesTxParams) (w : World R)
      → HasSameUsers s w.db.tables
      → HasSameUsers s (update_roles_body env arg w).1.db.tables
  unfolding update_roles_body
  update_roles_body_same arg w h =
      let q = delete_admin_user_roles arg.admin_user_id in
      let kept : HasSameUsers s (stmt env q w).1.db.tables =
        stmt_keeps env (HasSameUsers s) q w
          (λ now d p. delete_admin_user_roles_same s now d p arg.admin_user_id) h in
      ground (arith, bind_roles_same arg.admin_user_id arg.role_ids (stmt env q w).1 kept)

  pub create_admin_user_tx_same :
      (arg : CreateAdminUserTxParams) (w : World R)
      → HasSameUsers s w.db.tables
      → HasSameUsers s (create_admin_user_tx env arg w).1.db.tables
  unfolding create_admin_user_tx
  create_admin_user_tx_same arg w h =
      exec_tx_keeps env (HasSameUsers s) (create_admin_user_body env arg) w h
        (create_admin_user_body_same arg (ticked w) h)

  pub update_admin_user_roles_tx_same :
      (arg : UpdateAdminUserRolesTxParams) (w : World R)
      → HasSameUsers s w.db.tables
      → HasSameUsers s (update_admin_user_roles_tx env arg w).1.db.tables
  unfolding update_admin_user_roles_tx
  update_admin_user_roles_tx_same arg w h =
      exec_tx_keeps env (HasSameUsers s) (update_roles_body env arg) w h
        (update_roles_body_same arg (ticked w) h)
