-- ===== src/Api/Auth.antt =====
-- api/auth.go and util/password.go: login with its lock, logout, the change of a password, and the
-- end of a session from outside. `authenticate` and `open_session` are the two halves of `login`.
pub mod Counter
pub mod Lock
pub mod Revocation
pub mod Replacement
pub mod Timed
pub mod Attempts
pub mod Credentials
pub mod Written
pub mod Opening
pub mod Password
pub mod Expiry
use template_golang_web.Base.{
  ℕ, String, str_eq, Bool, true, false, not, ◌&&◌, Option, none, some, List, [], ◌∷◌, ℤ, pos, ltb_ℤ,
  leb, if◌then◌else◌,
}
use template_golang_web.Strconv.{parse_int}
use template_golang_web.Db.Model.{AdminUser}
use template_golang_web.Db.Error.{
  Error, Result, ok, err, from_option, is_no_rows, is_not_found, invalid_number, invalid_json,
  hash_failed,
}
use template_golang_web.Db.AdminUsers.{
  get_admin_user, get_admin_user_by_username, update_admin_user_password,
}
use template_golang_web.Db.Roles.{list_permission_codes_by_admin_user_id}
use template_golang_web.Env.{Env, World, AuthUser, Call, stmt}
use template_golang_web.Cache.{get, set, del, incr}
use template_golang_web.Cache.Keys.{login_fail_key, session_key, admin_session_key}
use template_golang_web.Errcode.{Code}
use template_golang_web.Api.Response
use template_golang_web.Api.Response.{
  Response, null, login_result, auth_user, fail, fail_internal, new_admin_user_response,
}
use template_golang_web.Api.Handler.{
  Outcome, next, answer, Handler, ◌>>=◌, ◌>>◌, done, refuse, call_or, call, quietly, bind, ensure,
}

abbrev pub max_login_attempts : ℕ
max_login_attempts = 5

-- 15 minutes, in seconds
abbrev pub login_fail_ttl : ℕ
login_fail_ttl = 900

pub record LoginRequest : Type 0 where
  pub username : String
  pub password : String

pub record ChangePasswordRequest : Type 0 where
  pub old_password : String
  pub new_password : String

-- The AuthUser that a login puts into the session.
abbrev pub session_user : AdminUser → List String → AuthUser
session_user user permissions = record {
  user_id = user.id;
  username = user.username;
  permissions = permissions;
}

module _ {R : Type 0} (env : Env R) where
  -- binding:"required,min=6"
  abbrev pub is_password : String → Bool
  is_password p = not (str_eq p "") && leb 6 (env.rune_count p)

  -- binding:"required,alphanum"
  abbrev pub is_username : String → Bool
  is_username u = not (str_eq u "") && env.is_alphanum u

  abbrev pub is_valid_login : LoginRequest → Bool
  is_valid_login req = is_username req.username && is_password req.password

  abbrev pub is_valid_change : ChangePasswordRequest → Bool
  is_valid_change req = is_password req.old_password && is_password req.new_password

  -- HashPassword of util/password.go
  unfoldable pub hash_password : String → Call R String
  hash_password password w = (from_option hash_failed (env.bcrypt_generate w.tick password), w)

  -- CheckPassword of util/password.go; `true` is a nil error.
  unfoldable pub check_password : String → String → Bool
  check_password password hashed_password = env.bcrypt_compare hashed_password password

  unfoldable pub get_login_fail_count : String → Call R ℤ
  get_login_fail_count username w =
      let (r, w') = get env (login_fail_key username) w in
      elim r [
        | ok val ↦ (from_option invalid_number (parse_int val), w')
        | err e ↦ (if is_not_found e then ok (pos 0) else err e, w')
      ]

  unfoldable pub record_login_fail : String → Handler R (Unit {0})
  record_login_fail username = quietly (incr env (login_fail_key username) login_fail_ttl)

  -- `recordLoginFail` and the answer that does not tell which of the two was wrong.
  unfoldable pub wrong_credentials : {A : Type 0} → String → Handler R A
  unfolding record_login_fail
  wrong_credentials username = do
    record_login_fail username
    refuse (fail 401 Code.wrong_credentials)

  unfoldable pub find_admin : String → Handler R AdminUser
  find_admin username =
      call_or (stmt env (get_admin_user_by_username username))
        (λ e. if is_no_rows e then wrong_credentials username else refuse (fail_internal e))

  unfoldable pub verify : LoginRequest → AdminUser → Handler R (Unit {0})
  verify req user =
      if check_password req.password user.hashed_password
      then done tt
      else wrong_credentials req.username

  unfoldable pub check_lock : String → Handler R (Unit {0})
  check_lock username = do
    fail_count ← call (get_login_fail_count username)
    ensure (ltb_ℤ fail_count (pos max_login_attempts)) (fail 429 Code.too_many_login_fails)

  unfoldable pub authenticate : LoginRequest → Handler R AdminUser
  authenticate req = do
    check_lock req.username
    user ← find_admin req.username
    verify req user
    quietly (del env (login_fail_key req.username ∷ []))
    done user

  -- The session that the index still names is dropped; an error is only logged.
  unfoldable pub drop_previous : ℕ → Handler R (Unit {0})
  drop_previous id w =
      let (r, w') = get env (admin_session_key id) w in
      elim r [
        | ok old_token ↦ quietly (del env (session_key old_token ∷ [])) w'
        | err _ ↦ (next tt, w')
      ]

  unfoldable pub put_session : String → String → Handler R (Unit {0})
  put_session token payload = call (set env (session_key token) payload env.token_duration)

  unfoldable pub put_index : ℕ → String → Handler R (Unit {0})
  put_index id token =
      call_or (set env (admin_session_key id) token env.token_duration)
        (λ e. do quietly (del env (session_key token ∷ [])); refuse (fail_internal e))

  unfoldable pub encode_user : AuthUser → Handler R String
  encode_user user w = elim (env.marshal user) [
    | none ↦ (answer (fail_internal invalid_json), w)
    | some payload ↦ (next payload, w)
  ]

  unfoldable pub new_token : Handler R String
  new_token w = (next (env.uuid w.tick), w)

  -- The two keys of a session, the old session first.
  unfoldable pub replace_session : ℕ → String → String → Handler R (Unit {0})
  replace_session id token payload = do
    drop_previous id
    put_session token payload
    put_index id token

  unfoldable pub open_session : AdminUser → Handler R Response
  open_session user = do
    permissions ← call (stmt env (list_permission_codes_by_admin_user_id env.collate user.id))
    token ← new_token
    payload ← encode_user (session_user user permissions)
    replace_session user.id token payload
    done (Response.ok (login_result token (new_admin_user_response user)))

  unfoldable pub login : Option LoginRequest → Handler R Response
  login body = do req ← bind is_valid_login body; user ← authenticate req; open_session user

  unfoldable pub logout : String → AuthUser → Handler R Response
  logout token user = do
    call (del env (session_key token ∷ admin_session_key user.user_id ∷ []))
    done (Response.ok null)

  unfoldable pub verify_old : ChangePasswordRequest → AdminUser → Handler R (Unit {0})
  verify_old req user =
      ensure (check_password req.old_password user.hashed_password)
        (fail 400 Code.wrong_credentials)

  unfoldable pub change_password :
      String → AuthUser → Option ChangePasswordRequest → Handler R Response
  change_password token auth body = do
    req ← bind is_valid_change body
    user ← call (stmt env (get_admin_user auth.user_id))
    verify_old req user
    hashed ← call (hash_password req.new_password)
    call (
        stmt env
          (update_admin_user_password (record { id = auth.user_id; hashed_password = hashed })))
    quietly (del env (session_key token ∷ admin_session_key auth.user_id ∷ []))
    done (Response.ok null)

  unfoldable pub me : AuthUser → Handler R Response
  me user = done (Response.ok (auth_user user))

  unfoldable pub kick_admin_session : ℕ → Handler R (Unit {0})
  kick_admin_session admin_user_id w =
      let (r, w') = get env (admin_session_key admin_user_id) w in
      elim r [
        | ok token ↦ quietly (del env (session_key token ∷ admin_session_key admin_user_id ∷ [])) w'
        | err _ ↦ (next tt, w')
      ]
