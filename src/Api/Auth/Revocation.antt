-- ===== src/Api/Auth/Revocation.antt =====
-- api/auth.go: the ends of a session: logout, the login that replaces it, and the end from outside
-- (kickAdminSession) that a deletion of the account brings about.
use template_golang_web.Base.{
  ℕ, ◌+◌, ◌≤◌, String, eq_refl, ◌≡◌, ◌≢◌, arith, some, none, List, [], ◌∷◌,
}
use template_golang_web.Env.{Env, World, AuthUser, IsLawful, fine}
use template_golang_web.Cache.{get, del}
use template_golang_web.Cache.Keys.{
  session_key, admin_session_key, admin_session_key-ne-session_key, session_key_ne,
}
use template_golang_web.Errcode.{Code}
use template_golang_web.Api.Response.{Response, fail}
use template_golang_web.Api.Handler.{next, answer}
use template_golang_web.Api.Auth.{logout, drop_previous, kick_admin_session}
use template_golang_web.Api.Middleware.{auth_middleware, find_session}

module _ {R : Type 0} (env : Env R) where
  -- The token has no session at the time of the world.
  abbrev pub IsGone : String → World R → Type 0
  IsGone token w = env.redis.get w.now (session_key token) w.cache ≡ none

  pub auth_middleware-IsGone :
      (token : String) (w : World R)
      → IsGone token w
      → env.fault w.tick ≡ fine
      → (auth_middleware env token w).0 ≡ answer (fail 401 Code.unauthorized)
  unfolding auth_middleware find_session get
  auth_middleware-IsGone token w gone reached = ground arith

  logout-eq-next :
      (token : String) (user : AuthUser) (w : World R) (r : Response)
      → (logout env token user w).0 ≡ next r
      → (logout env token user w).1 ≡ record w {
        cache =
            env.redis.del w.now (session_key token ∷ admin_session_key user.user_id ∷ []) w.cache;
        tick = w.tick + 1;
      }
  unfolding logout del
  logout-eq-next token user w r h = ground arith

  -- Where no call fails, the end from outside has deleted the two keys of the session of the index.
  pub kick-cache :
      (healthy : (n : ℕ) → env.fault n ≡ fine) (id : ℕ) (token : String) (w : World R)
      → env.redis.get w.now (admin_session_key id) w.cache ≡ some token
      → ((kick_admin_session env id w).1.cache
          ≡ env.redis.del w.now (session_key token ∷ admin_session_key id ∷ []) w.cache)
        × ((kick_admin_session env id w).1.now ≡ w.now)
  unfolding kick_admin_session get del
  kick-cache healthy id token w h = (
    ground (arith, healthy w.tick, healthy (w.tick + 1)),
    ground (arith, healthy w.tick, healthy (w.tick + 1)),
  )

  -- Where no call fails, the login has deleted the session of the index.
  pub drop_previous-cache :
      (healthy : (n : ℕ) → env.fault n ≡ fine) (id : ℕ) (token : String) (w : World R)
      → env.redis.get w.now (admin_session_key id) w.cache ≡ some token
      → (drop_previous env id w).1.cache ≡ env.redis.del w.now (session_key token ∷ []) w.cache
  unfolding drop_previous get del
  drop_previous-cache healthy id token w h = ground (arith, healthy w.tick, healthy (w.tick + 1))

  module _ (lawful : IsLawful env.redis) where
    pub get_del-first :
        (t t' : ℕ) (key : String) (keys : List String) (s : R)
        → t ≤ t'
        → env.redis.get t' key (env.redis.del t (key ∷ keys) s) ≡ none
    get_del-first t t' key keys s h =
        ground (arith, lawful.get_del t t' key (key ∷ keys) s h, eq_refl key)

    -- After a logout that succeeds, the token is answered with 401 by every request that finds the
    -- cache as the logout left it, where the call that reads the session does not fail; the sessions
    -- under other tokens read as before.
    pub logout-IsGone :
        (token other : String) (user : AuthUser) (w v : World R) (r : Response)
        → (logout env token user w).0 ≡ next r
        → v.cache ≡ (logout env token user w).1.cache
        → w.now ≤ v.now
        → env.fault v.tick ≡ fine
        → token ≢ other
        → ((auth_middleware env token v).0 ≡ answer (fail 401 Code.unauthorized))
          × (env.redis.get v.now (session_key other) v.cache
              ≡ env.redis.get v.now (session_key other) w.cache)
    logout-IsGone token other user w v r h same from reached apart =
        let k = admin_session_key user.user_id in
        let done = logout-eq-next token user w r h in
        let gone : IsGone token v = ground (
          arith,
          same,
          done,
          get_del-first w.now v.now (session_key token) (k ∷ []) w.cache from,
        ) in
        (
          auth_middleware-IsGone token v gone reached,
          ground (
            arith,
            same,
            done,
            lawful.get_del w.now v.now (session_key other) (session_key token ∷ k ∷ []) w.cache
                from,
            session_key_ne token other apart,
            admin_session_key-ne-session_key user.user_id other,
          ),
        )
