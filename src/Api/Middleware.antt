-- ===== src/Api/Middleware.antt =====
-- api/middleware.go: the layers that admit a request, and the user of a session.
pub mod Session
pub mod Rights
use template_golang_web.Base.{
  ℕ, String, str_eq, Bool, true, false, ◌||◌, Option, none, some, List, [], ◌∷◌, any, if◌then◌else◌,
}
use template_golang_web.Db.Error.{Error, Result, ok, err, is_not_found}
use template_golang_web.Env.{Env, World, AuthUser}
use template_golang_web.Cache.{get, expire}
use template_golang_web.Cache.Keys.{session_key, admin_session_key}
use template_golang_web.Errcode.{Code}
use template_golang_web.Api.Response.{fail}
use template_golang_web.Api.Handler.{
  Outcome, next, answer, Handler, ◌>>=◌, ◌>>◌, done, refuse, call_or, quietly, ensure,
}

abbrev pub perm_wildcard : String
perm_wildcard = "*"

-- The loop of `HasPermission` over the snapshot of the session.
unfoldable pub has_permission : List String → String → Bool
has_permission [] code = false
has_permission (p ∷ ps) code =
    let rest = has_permission ps code in
    if str_eq p perm_wildcard || str_eq p code then true else rest

module _ {R : Type 0} (env : Env R) where
  -- json.Unmarshal of the value of the session.
  unfoldable pub decode_user : String → Handler R AuthUser
  decode_user val w = elim (env.unmarshal val) [
    | none ↦ (answer (fail 500 Code.internal), w)
    | some user ↦ (next user, w)
  ]

  -- The session and its index get their time to live anew; an error is only logged.
  unfoldable pub refresh : String → AuthUser → Handler R (Unit {0})
  refresh token user = do
    quietly (expire env (session_key token) env.token_duration)
    quietly (expire env (admin_session_key user.user_id) env.token_duration)

  -- The session of the token, or the answer of `failAbort`.
  unfoldable pub find_session : String → Handler R String
  find_session token =
      if str_eq token ""
      then refuse (fail 401 Code.unauthorized)
      else call_or (get env (session_key token)) (λ e.
        if is_not_found e
        then refuse (fail 401 Code.unauthorized)
        else refuse (fail 500 Code.internal))

  unfoldable pub auth_middleware : String → Handler R AuthUser
  auth_middleware token = do
    val ← find_session token
    user ← decode_user val
    refresh token user
    done user

  unfoldable pub perm_middleware : String → AuthUser → Handler R (Unit {0})
  perm_middleware code user =
      ensure (has_permission user.permissions code) (fail 403 Code.forbidden)
