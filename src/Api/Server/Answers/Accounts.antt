-- ===== src/Api/Server/Answers/Accounts.antt =====
-- The answers of the login, of the sessions and of the accounts of the back office.
use template_golang_web.Base.{ℕ, refl, inl, inr, String, Option, Option-cases, List}
use template_golang_web.Db.Error.{Result-cases, invalid_json}
use template_golang_web.Db.Model.{AdminUser}
use template_golang_web.Env.{Env, AuthUser}
use template_golang_web.Cache.{get}
use template_golang_web.Cache.Keys.{admin_session_key}
use template_golang_web.Api.Auth
use template_golang_web.Api.Auth.{LoginRequest, ChangePasswordRequest}
use template_golang_web.Api.AdminUsers
use template_golang_web.Api.AdminUsers.{CreateAdminUserRequest}
use template_golang_web.Api.Server.Answers.{IsEnveloping, IsWell, answer_rules, fail_internal_lem}

module _ {R : Type 0} (env : Env R) where
  wrong_credentials-IsWell :
      {A : Type 0} (username : String) → IsWell (Auth.wrong_credentials env {A = A} username)
  unfolding Auth.wrong_credentials Auth.record_login_fail
  wrong_credentials-IsWell username = search answer_rules

  check_lock-IsWell : (username : String) → IsWell (Auth.check_lock env username)
  unfolding Auth.check_lock
  check_lock-IsWell username = search answer_rules

  find_admin-IsWell : (username : String) → IsWell (Auth.find_admin env username)
  unfolding Auth.find_admin
  find_admin-IsWell username = search (answer_rules, wrong_credentials-IsWell)

  verify-IsWell : (req : LoginRequest) (user : AdminUser) → IsWell (Auth.verify env req user)
  unfolding Auth.verify
  verify-IsWell req user = search (answer_rules, wrong_credentials-IsWell)

  authenticate-IsWell : (req : LoginRequest) → IsWell (Auth.authenticate env req)
  unfolding Auth.authenticate
  authenticate-IsWell req =
      search (answer_rules, check_lock-IsWell, find_admin-IsWell, verify-IsWell) depth 9

  drop_previous-IsWell : (id : ℕ) → IsWell (Auth.drop_previous env id)
  unfolding Auth.drop_previous
  drop_previous-IsWell id = record {
    refusals = λ w. elim (Result-cases (get env (admin_session_key id) w).0) [
      | inl (token, found) ↦ rw (found, Auth.drop_previous) refl
      | inr (e, failed) ↦ rw (failed, Auth.drop_previous) refl
    ];
  }

  kick_admin_session-IsWell : (id : ℕ) → IsWell (Auth.kick_admin_session env id)
  unfolding Auth.kick_admin_session
  kick_admin_session-IsWell id = record {
    refusals = λ w. elim (Result-cases (get env (admin_session_key id) w).0) [
      | inl (token, found) ↦ rw (found, Auth.kick_admin_session) refl
      | inr (e, failed) ↦ rw (failed, Auth.kick_admin_session) refl
    ];
  }

  put_session-IsWell : (token payload : String) → IsWell (Auth.put_session env token payload)
  unfolding Auth.put_session
  put_session-IsWell token payload = search answer_rules

  put_index-IsWell : (id : ℕ) (token : String) → IsWell (Auth.put_index env id token)
  unfolding Auth.put_index
  put_index-IsWell id token = search answer_rules

  replace_session-IsWell :
      (id : ℕ) (token payload : String) → IsWell (Auth.replace_session env id token payload)
  unfolding Auth.replace_session
  replace_session-IsWell id token payload =
      search (answer_rules, drop_previous-IsWell, put_session-IsWell, put_index-IsWell)

  encode_user-IsWell : (user : AuthUser) → IsWell (Auth.encode_user env user)
  unfolding Auth.encode_user
  encode_user-IsWell user = record {
    refusals = λ w. elim (Option-cases (env.marshal user)) [
      | inl failed ↦ rw (failed, Auth.encode_user) (fail_internal_lem invalid_json)
      | inr (payload, encoded) ↦ rw (encoded, Auth.encode_user) refl
    ];
  }

  new_token-IsWell : IsWell (Auth.new_token env)
  unfolding Auth.new_token
  new_token-IsWell = record { refusals = λ w. refl }

  open_session-IsEnveloping : (user : AdminUser) → IsEnveloping (Auth.open_session env user)
  unfolding Auth.open_session
  open_session-IsEnveloping user =
      search (answer_rules, new_token-IsWell, encode_user-IsWell, replace_session-IsWell) depth 9

  pub login-IsEnveloping : (body : Option LoginRequest) → IsEnveloping (Auth.login env body)
  unfolding Auth.login
  login-IsEnveloping body = search (answer_rules, authenticate-IsWell, open_session-IsEnveloping)

  pub logout-IsEnveloping :
      (token : String) (user : AuthUser) → IsEnveloping (Auth.logout env token user)
  unfolding Auth.logout
  logout-IsEnveloping token user = search answer_rules

  pub me-IsEnveloping : (user : AuthUser) → IsEnveloping (Auth.me env user)
  unfolding Auth.me
  me-IsEnveloping user = search answer_rules

  verify_old-IsWell :
      (req : ChangePasswordRequest) (user : AdminUser) → IsWell (Auth.verify_old env req user)
  unfolding Auth.verify_old
  verify_old-IsWell req user = search answer_rules

  pub change_password-IsEnveloping :
      (token : String) (user : AuthUser) (body : Option ChangePasswordRequest)
      → IsEnveloping (Auth.change_password env token user body)
  unfolding Auth.change_password
  change_password-IsEnveloping token user body = search (answer_rules, verify_old-IsWell) depth 14

  pub create_admin_user-IsEnveloping :
      (body : Option CreateAdminUserRequest) → IsEnveloping (AdminUsers.create_admin_user env body)
  unfolding AdminUsers.create_admin_user
  create_admin_user-IsEnveloping body = search answer_rules depth 12

  pub update_admin_user_roles-IsEnveloping :
      (id : Option ℕ) (body : Option (List ℕ))
      → IsEnveloping (AdminUsers.update_admin_user_roles env id body)
  unfolding AdminUsers.update_admin_user_roles
  update_admin_user_roles-IsEnveloping id body = search answer_rules depth 12

  pub delete_admin_user-IsEnveloping :
      (user : AuthUser) (id : Option ℕ) → IsEnveloping (AdminUsers.delete_admin_user env user id)
  unfolding AdminUsers.delete_admin_user
  delete_admin_user-IsEnveloping user id = search (answer_rules, kick_admin_session-IsWell) depth 12

  pub restore_admin_user-IsEnveloping :
      (id : Option ℕ) → IsEnveloping (AdminUsers.restore_admin_user env id)
  unfolding AdminUsers.restore_admin_user
  restore_admin_user-IsEnveloping id = search answer_rules depth 9
