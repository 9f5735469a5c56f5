-- ===== src/Api/Server/Accounts.antt =====
-- The handlers of accounts and sessions that write: each makes at most one call of the store that
-- changes the database.
use template_golang_web.Base.{
  ℕ, ◌≡◌, refl, arith, Option, some, none, String, inl, inr, Bool-cases, Option-cases, List, not,
  ◌==◌, ◌&&◌,
}
use template_golang_web.Env.{Env, World, AuthUser, stmt}
use template_golang_web.Db.Error.{Result-cases}
use template_golang_web.Db.AdminUsers
use template_golang_web.Db.AdminUsers.{get_admin_user, get_admin_user_by_username}
use template_golang_web.Db.Roles.{list_permission_codes_by_admin_user_id}
use template_golang_web.Db.Model.{AdminUser}
use template_golang_web.Api.Handler.{Outcome-cases}
use template_golang_web.Db.Store.{StoreCall, run_call}
use template_golang_web.Cache.{get, set, del, incr, count_up, expire}
use template_golang_web.Api.Page.{is_valid_id}
use template_golang_web.Api.AdminUsers as AdminApi
use template_golang_web.Api.AdminUsers.{CreateAdminUserRequest, is_valid_admin, all_ids}
use template_golang_web.Api.Auth.{
  LoginRequest, ChangePasswordRequest, is_valid_change, hash_password, check_password, verify_old,
  change_password, login, authenticate, open_session, check_lock, find_admin, verify,
  wrong_credentials, record_login_fail, drop_previous, put_session, put_index, session_user,
  replace_session, encode_user, new_token,
}
use template_golang_web.Api.Auth.Credentials.{check_lock_same}
use template_golang_web.Api.Server.Writing.{IsStep, kick_admin_session_db}

module _ {R : Type 0} (env : Env R) (w : World R) where
  pub delete_admin_user-IsStep :
      (user : AuthUser) (id : Option ℕ) → IsStep env w (AdminApi.delete_admin_user env user id w).1
  unfolding AdminApi.delete_admin_user run_call
  delete_admin_user-IsStep user none = inl refl
  delete_admin_user-IsStep user (some id) =
      elim (Bool-cases (is_valid_id id && not (id == user.user_id))) [
        | inr bad ↦ inl (ground arith)
        | inl good ↦
            let w1 = (stmt env (AdminUsers.soft_delete_admin_user id) w).1 in
            inr (
              StoreCall.soft_delete_admin_user id,
              w,
              refl,
              ground (arith, kick_admin_session_db env w1 id),
            )
      ]

  get_admin_user_db : (id : ℕ) → (stmt env (get_admin_user id) w).1.db ≡ w.db
  unfolding get_admin_user stmt
  get_admin_user_db id = ground arith

  pub update_admin_user_roles-IsStep :
      (id : Option ℕ) (body : Option (List ℕ))
      → IsStep env w (AdminApi.update_admin_user_roles env id body w).1
  unfolding AdminApi.update_admin_user_roles run_call
  update_admin_user_roles-IsStep none body = inl refl
  update_admin_user_roles-IsStep (some id) none = inl (ground arith)
  update_admin_user_roles-IsStep (some id) (some role_ids) =
      let same = get_admin_user_db id in
      elim (Bool-cases (is_valid_id id && all_ids role_ids)) [
        | inr bad ↦ inl (ground arith)
        | inl good ↦ elim (Result-cases (stmt env (get_admin_user id) w).0) [
          | inr (e, failed) ↦ inl (ground arith)
          | inl (u, found) ↦ inr (
            StoreCall.update_admin_user_roles (record { admin_user_id = id; role_ids = role_ids }),
            (stmt env (get_admin_user id) w).1,
            same,
            ground arith,
          )
        ]
      ]

  pub change_password-IsStep :
      (token : String) (user : AuthUser) (body : Option ChangePasswordRequest)
      → IsStep env w (change_password env token user body w).1
  unfolding change_password verify_old hash_password del run_call
  change_password-IsStep token user none = inl refl
  change_password-IsStep token user (some req) =
      let q = get_admin_user user.user_id in
      let same = get_admin_user_db user.user_id in
      let w1 = (stmt env q w).1 in
      elim (Bool-cases (is_valid_change env req)) [
        | inr bad ↦ inl (ground arith)
        | inl good ↦ elim (Result-cases (stmt env q w).0) [
          | inr (e, failed) ↦ inl (ground arith)
          | inl (u, found) ↦ elim (Option-cases (env.bcrypt_generate w1.tick req.new_password)) [
            | inl failed ↦ inl (ground arith)
            | inr (hashed, done) ↦
                elim (Bool-cases (check_password env req.old_password u.hashed_password)) [
                  | inr wrong ↦ inl (ground (arith, same))
                  | inl right ↦ inr (
                    StoreCall.update_admin_user_password
                        (record { id = user.user_id; hashed_password = hashed }),
                    w1,
                    same,
                    ground (arith, same),
                  )
                ]
          ]
        ]
      ]

  wrong_credentials_db :
      (A : Type 0) (name : String) → (wrong_credentials env {A = A} name w).1.db ≡ w.db
  unfolding wrong_credentials record_login_fail incr count_up expire
  wrong_credentials_db A name = ground arith

module _ {R : Type 0} (env : Env R) where
  find_admin_db : (name : String) (w : World R) → (find_admin env name w).1.db ≡ w.db
  unfolding find_admin get_admin_user_by_username
  find_admin_db name w =
      let q = get_admin_user_by_username name in
      let same : (stmt env q w).1.db ≡ w.db = unfold stmt in ground arith in
      ground (arith, same, wrong_credentials_db env (stmt env q w).1 AdminUser name)

  verify_db :
      (req : LoginRequest) (user : AdminUser) (w : World R) → (verify env req user w).1.db ≡ w.db
  unfolding verify
  verify_db req user w = ground (arith, wrong_credentials_db env w (Unit {0}) req.username)

  authenticate_db : (req : LoginRequest) (w : World R) → (authenticate env req w).1.db ≡ w.db
  unfolding authenticate del
  authenticate_db req w =
      let w1 = (check_lock env req.username w).1 in
      let w2 = (find_admin env req.username w1).1 in
      elim (Outcome-cases (find_admin env req.username w1).0) [
        | inr (r, refused) ↦
            ground (arith, check_lock_same env req.username w, find_admin_db req.username w1)
        | inl (user, found) ↦ ground (
          arith,
          check_lock_same env req.username w,
          find_admin_db req.username w1,
          verify_db req user w2,
        )
      ]

  replace_session_db :
      (id : ℕ) (token payload : String) (w : World R)
      → (replace_session env id token payload w).1.db ≡ w.db
  unfolding replace_session drop_previous put_session put_index get set del
  replace_session_db id token payload w = ground arith

  open_session_db : (user : AdminUser) (w : World R) → (open_session env user w).1.db ≡ w.db
  unfolding open_session new_token encode_user list_permission_codes_by_admin_user_id
  open_session_db user w =
      let q = list_permission_codes_by_admin_user_id env.collate user.id in
      let w1 = (stmt env q w).1 in
      let same : w1.db ≡ w.db = unfold stmt in ground arith in
      elim (Result-cases (stmt env q w).0) [
        | inr (e, failed) ↦ ground (arith, same)
        | inl (codes, listed) ↦ elim (Option-cases (env.marshal (session_user user codes))) [
          | inl refused ↦ ground (arith, same)
          | inr (payload, encoded) ↦
              ground (arith, same, replace_session_db user.id (env.uuid w1.tick) payload w1)
        ]
      ]

  pub login_db : (body : Option LoginRequest) (w : World R) → (login env body w).1.db ≡ w.db
  unfolding login
  login_db none w = refl
  login_db (some req) w =
      let w1 = (authenticate env req w).1 in
      elim (Outcome-cases (authenticate env req w).0) [
        | inr (r, refused) ↦ ground (arith, authenticate_db req w)
        | inl (user, on) ↦ ground (arith, authenticate_db req w, open_session_db user w1)
      ]
