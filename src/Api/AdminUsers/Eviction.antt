-- ===== src/Api/AdminUsers/Eviction.antt =====
-- api/admin_user.go with api/auth.go: the deletion of an account ends its session at once.
use template_golang_web.Base.{ℕ, ◌≤◌, String, ◌≡◌, arith, some, ◌==◌, Bool-cases, inl, inr, [], ◌∷◌}
use template_golang_web.Db.Error.{Result-cases}
use template_golang_web.Db.AdminUsers.{soft_delete_admin_user}
use template_golang_web.Db.Tx.Verdict.{stmt-fine}
use template_golang_web.Env.{Env, World, AuthUser, IsLawful, fine, stmt}
use template_golang_web.Cache.Keys.{session_key, admin_session_key}
use template_golang_web.Errcode.{Code}
use template_golang_web.Api.Response.{Response, fail}
use template_golang_web.Api.Handler.{next, answer}
use template_golang_web.Api.Page.{is_valid_id}
use template_golang_web.Api.Auth.{kick_admin_session}
use template_golang_web.Api.Auth.Revocation.{
  IsGone, auth_middleware-IsGone, kick-cache, get_del-first,
}
use template_golang_web.Api.Middleware.{auth_middleware}
use template_golang_web.Api.AdminUsers.{delete_admin_user}

module _ {R : Type 0} (env : Env R) where
  -- A deletion that succeeds has marked the row and then kicked the account.
  delete_admin_user-kick :
      (operator : AuthUser) (id : ℕ) (w : World R) (r : Response)
      → (delete_admin_user env operator (some id) w).0 ≡ next r
      → (delete_admin_user env operator (some id) w).1
        ≡ (kick_admin_session env id (stmt env (soft_delete_admin_user id) w).1).1
  unfolding delete_admin_user
  delete_admin_user-kick operator id w r h =
      let q = soft_delete_admin_user id in
      elim (Bool-cases (is_valid_id id)) [
        | inr invalid ↦ absurd (ground arith)
        | inl valid ↦ elim (Bool-cases (id == operator.user_id)) [
          | inl self ↦ absurd (ground arith)
          | inr distinct ↦ elim (Result-cases (stmt env q w).0) [
            | inr (e, failed) ↦ absurd (ground arith)
            | inl (rows, done) ↦ elim (Bool-cases (rows == 0)) [
              | inl nothing ↦ absurd (ground arith)
              | inr found ↦ ground arith
            ]
          ]
        ]
      ]

  soft_delete_same :
      (healthy : (n : ℕ) → env.fault n ≡ fine) (id : ℕ) (w : World R)
      → ((stmt env (soft_delete_admin_user id) w).1.cache ≡ w.cache)
        × ((stmt env (soft_delete_admin_user id) w).1.now ≡ w.now)
  soft_delete_same healthy id w = (
    ground (arith, stmt-fine env healthy (soft_delete_admin_user id) w),
    ground (arith, stmt-fine env healthy (soft_delete_admin_user id) w),
  )

  -- Where no call fails and the index of the sessions names a token for an account, a deletion of
  -- the account that succeeds ends the session: every later request that carries the token and finds
  -- the cache as the deletion left it is answered with 401.
  pub delete_admin_user-IsGone :
      (healthy : (n : ℕ) → env.fault n ≡ fine) (lawful : IsLawful env.redis) (operator : AuthUser)
      (id : ℕ) (token : String) (w v : World R) (r : Response)
      → (delete_admin_user env operator (some id) w).0 ≡ next r
      → env.redis.get w.now (admin_session_key id) w.cache ≡ some token
      → v.cache ≡ (delete_admin_user env operator (some id) w).1.cache
      → w.now ≤ v.now
      → (auth_middleware env token v).0 ≡ answer (fail 401 Code.unauthorized)
  delete_admin_user-IsGone healthy lawful operator id token w v r h indexed same from =
      let k = admin_session_key id in
      let w1 = (stmt env (soft_delete_admin_user id) w).1 in
      let final = delete_admin_user-kick operator id w r h in
      let (cache, now) = soft_delete_same healthy id w in
      let (ended, _) = kick-cache env healthy id token w1 (ground arith) in
      let gone : IsGone env token v = ground (
        arith,
        final,
        ended,
        get_del-first env lawful w.now v.now (session_key token) (k ∷ []) w.cache from,
      ) in
      auth_middleware-IsGone env token v gone (healthy v.tick)
