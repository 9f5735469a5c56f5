-- ===== src/Api/Middleware/Session.antt =====
-- api/middleware.go: what `authMiddleware` has found out about a token that it admits, and that it
-- touches nothing but times to live.
use template_golang_web.Base.{
  String, str_eq, ◌≡◌, ◌≢◌, arith, false, some, ◌⊎◌, inl, inr, Option-cases,
}
use template_golang_web.Db.Error.{Result-cases}
use template_golang_web.Env.{Env, World, AuthUser, fine, ticked}
use template_golang_web.Errcode.{Code}
use template_golang_web.Cache.{get, expire}
use template_golang_web.Cache.Keys.{session_key}
use template_golang_web.Cache.Calls.{get-eq-ok}
use template_golang_web.Api.Response.{Response, fail}
use template_golang_web.Api.Handler.{next, answer, Outcome-cases}
use template_golang_web.Api.Middleware.{find_session, decode_user, refresh, auth_middleware}

-- The token has a session that decodes to this user.
pub record IsSession {R : Type 0} (env : Env R) (w : World R) (token : String) (user : AuthUser)
    : Type 0 where
  pub val : String
  pub stored : env.redis.get w.now (session_key token) w.cache ≡ some val
  pub decoded : env.unmarshal val ≡ some user

module _ {R : Type 0} (env : Env R) where
  find_session-eq-next :
      (token val : String) (w : World R)
      → (find_session env token w).0 ≡ next val
      → (env.redis.get w.now (session_key token) w.cache ≡ some val)
        × ((find_session env token w).1 ≡ ticked w)
  unfolding find_session
  find_session-eq-next token val w h = elim (Result-cases (get env (session_key token) w).0) [
    | inl (v, got) ↦ ground (arith, get-eq-ok env (session_key token) v w got)
    | inr (e, failed) ↦ absurd (ground arith)
  ]

  find_session_db : (token : String) (w : World R) → (find_session env token w).1.db ≡ w.db
  unfolding find_session get
  find_session_db token w = ground arith

  refresh_db :
      (token : String) (user : AuthUser) (w : World R)
      → ((refresh env token user w).0 ≡ next tt)
        × ((refresh env token user w).1.db ≡ w.db)
        × ((refresh env token user w).1.now ≡ w.now)
  unfolding refresh expire
  refresh_db token user w = ground arith

  find_session-eq-answer :
      (token : String) (w : World R) (r : Response)
      → (find_session env token w).0 ≡ answer r
      → r.status ≢ 200
  unfolding find_session get fail
  find_session-eq-answer token w r h = ground arith

  -- A session that decodes admits its user; nothing else does, and the database is left alone.
  auth_decoded :
      (token val : String) (w : World R)
      → (find_session env token w).0 ≡ next val
      → ((auth_middleware env token w).1.db ≡ w.db)
        × (((r : Response) × ((auth_middleware env token w).0 ≡ answer r) × (r.status ≢ 200))
            ⊎ ((user : AuthUser) × ((auth_middleware env token w).0 ≡ next user)
                × IsSession env w token user))
  unfolding auth_middleware decode_user fail
  auth_decoded token val w found =
      let (stored, same) = find_session-eq-next token val w found in
      elim (Option-cases (env.unmarshal val)) [
        | inl garbled ↦ (ground arith, inl (fail 500 Code.internal, ground arith, ground arith))
        | inr (user, decoded) ↦
            let (on, kept, _) = refresh_db token user (ticked w) in
            (
              ground arith,
              inr (user, ground arith, record { val = val; stored = stored; decoded = decoded }),
            )
      ]

  -- The layer never touches the database; whom it admits has a session under the token, and what it
  -- answers otherwise is no success.
  pub auth_middleware_sound :
      (token : String) (w : World R)
      → ((auth_middleware env token w).1.db ≡ w.db)
        × (((r : Response) × ((auth_middleware env token w).0 ≡ answer r) × (r.status ≢ 200))
            ⊎ ((user : AuthUser) × ((auth_middleware env token w).0 ≡ next user)
                × IsSession env w token user))
  unfolding auth_middleware
  auth_middleware_sound token w = elim (Outcome-cases (find_session env token w).0) [
    | inl (val, found) ↦ auth_decoded token val w found
    | inr (r, refused) ↦ (
      ground (arith, find_session_db token w),
      inl (r, ground arith, find_session-eq-answer token w r refused),
    )
  ]

  -- A session under the token is all that the layer asks for.
  pub auth_middleware-IsSession :
      (token : String) (user : AuthUser) (w : World R)
      → str_eq token "" ≡ false
      → IsSession env w token user
      → env.fault w.tick ≡ fine
      → (auth_middleware env token w).0 ≡ next user
  unfolding auth_middleware find_session decode_user get
  auth_middleware-IsSession token user w genuine s reached =
      ground (arith, refresh_db token user (ticked w))
