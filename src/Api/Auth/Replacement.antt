-- ===== src/Api/Auth/Replacement.antt =====
-- api/auth.go: an account has one session, since a login ends the one before.
use template_golang_web.Base.{ℕ, ◌≤◌, String, ◌≡◌, ◌≢◌, arith, some, [], inl, inr, Option-cases}
use template_golang_web.Db.Model.{AdminUser}
use template_golang_web.Db.Error.{Result-cases}
use template_golang_web.Db.Roles.{list_permission_codes_by_admin_user_id}
use template_golang_web.Db.Tx.Verdict.{stmt-fine}
use template_golang_web.Env.{Env, World, IsLawful, fine, stmt}
use template_golang_web.Cache.Keys.{
  session_key, admin_session_key, session_key_ne, admin_session_key-ne-session_key,
}
use template_golang_web.Errcode.{Code}
use template_golang_web.Api.Response
use template_golang_web.Api.Response.{Response, fail, login_result, new_admin_user_response}
use template_golang_web.Api.Handler.{next, answer, Outcome-cases}
use template_golang_web.Api.Auth.{
  drop_previous, replace_session, encode_user, new_token, open_session, session_user,
}
use template_golang_web.Api.Auth.Written.{drop_previous_now, replace_session-eq-next}
use template_golang_web.Api.Auth.Revocation.{
  IsGone, auth_middleware-IsGone, drop_previous-cache, get_del-first,
}
use template_golang_web.Api.Middleware.{auth_middleware}

module _ {R : Type 0} (env : Env R) where
  -- A login that succeeds has replaced the session after the list of the permissions was read.
  open_session-replace :
      (user : AdminUser) (w : World R) (r : Response)
      → (open_session env user w).0 ≡ next r
      → let w1 = (stmt env (list_permission_codes_by_admin_user_id env.collate user.id) w).1 in
        (payload : String) × (r
          ≡ Response.ok (login_result (env.uuid w1.tick) (new_admin_user_response user)))
        × ((replace_session env user.id (env.uuid w1.tick) payload w1).0 ≡ next tt)
        × ((open_session env user w).1
            ≡ (replace_session env user.id (env.uuid w1.tick) payload w1).1)
  unfolding open_session new_token encode_user
  open_session-replace user w r h =
      let q = list_permission_codes_by_admin_user_id env.collate user.id in
      let w1 = (stmt env q w).1 in
      elim (Result-cases (stmt env q w).0) [
        | inr (e, failed) ↦ absurd (ground arith)
        | inl (codes, listed) ↦ elim (Option-cases (env.marshal (session_user user codes))) [
          | inl refused ↦ absurd (ground arith)
          | inr (payload, encoded) ↦
              elim (Outcome-cases (replace_session env user.id (env.uuid w1.tick) payload w1).0) [
                | inr (s, stopped) ↦ absurd (ground arith)
                | inl (_, replaced) ↦ (payload, ground arith, replaced, ground arith)
              ]
        ]
      ]

  -- Where no call fails and the index of the sessions names a token for an account, a login of the
  -- account that succeeds and answers with another token ends that session: every later request that carries
  -- the old token and finds the cache as the login left it is answered with 401.
  pub open_session-IsGone :
      (healthy : (n : ℕ) → env.fault n ≡ fine) (lawful : IsLawful env.redis) (user : AdminUser)
      (old : String) (w v : World R) (r : Response)
      → ((token : String)
          → r ≡ Response.ok (login_result token (new_admin_user_response user))
          → token ≢ old)
      → (open_session env user w).0 ≡ next r
      → env.redis.get w.now (admin_session_key user.id) w.cache ≡ some old
      → v.cache ≡ (open_session env user w).1.cache
      → w.now ≤ v.now
      → (auth_middleware env old v).0 ≡ answer (fail 401 Code.unauthorized)
  open_session-IsGone healthy lawful user old w v r unused h indexed same from =
      let q = list_permission_codes_by_admin_user_id env.collate user.id in
      let w1 = (stmt env q w).1 in
      let token = env.uuid w1.tick in
      let k = admin_session_key user.id in
      let ran = stmt-fine env healthy q w in
      let (payload, reply, replaced, final) = open_session-replace user w r h in
      let (cache, now) = replace_session-eq-next env user.id token payload w1 replaced in
      let (_, kept) = drop_previous_now env user.id w1 in
      let w2 = (drop_previous env user.id w1).1 in
      let read : w1.cache ≡ w.cache = ground (arith, ran) in
      let time : w1.now ≡ w.now = ground (arith, ran) in
      let dropped = drop_previous-cache env healthy user.id old w1 (ground arith) in
      let later : w2.now ≤ v.now = ground arith in
      let c = env.redis.set w2.now (session_key token) payload env.token_duration w2.cache in
      let gone : IsGone env old v = ground (
        arith,
        cache,
        dropped,
        lawful.get_set w2.now v.now (session_key old) k token env.token_duration c later,
        lawful.get_set w2.now v.now (session_key old) (session_key token) payload env.token_duration
            w2.cache later,
        get_del-first env lawful w.now v.now (session_key old) [] w.cache from,
        admin_session_key-ne-session_key user.id old,
        session_key_ne token old (unused token reply),
      ) in
      auth_middleware-IsGone env old v gone (healthy v.tick)
