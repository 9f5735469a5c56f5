-- ===== src/Api/Auth/Written.antt =====
-- api/auth.go: what a login that succeeds writes to the cache.
use template_golang_web.Base.{ℕ, ◌+◌, String, ◌≡◌, refl, arith, some, List, inl, inr, Option-cases}
use template_golang_web.Db.Model.{AdminUser, Database}
use template_golang_web.Db.Error.{Result-cases}
use template_golang_web.Env.{Env, World, stmt}
use template_golang_web.Db.Roles.{list_permission_codes_by_admin_user_id}
use template_golang_web.Cache.{get, set, del}
use template_golang_web.Cache.Keys.{session_key, admin_session_key}
use template_golang_web.Api.Response
use template_golang_web.Api.Response.{Response, login_result, new_admin_user_response}
use template_golang_web.Api.Handler.{next, Outcome-cases}
use template_golang_web.Api.Auth.{
  drop_previous, put_session, put_index, replace_session, encode_user, new_token, open_session,
  session_user,
}
use template_golang_web.Db.Tx.Atomic.{stmt-eq-ok}
use template_golang_web.Api.Middleware.Rights.{IsExact, has_permission-is_granted}

module _ {R : Type 0} (env : Env R) where
  put_session-eq-next :
      (token payload : String) (w : World R)
      → (put_session env token payload w).0 ≡ next tt
      → (put_session env token payload w).1 ≡ record w {
        cache = env.redis.set w.now (session_key token) payload env.token_duration w.cache;
        tick = w.tick + 1;
      }
  unfolding put_session set
  put_session-eq-next token payload w h = ground arith

  put_index-eq-next :
      (id : ℕ) (token : String) (w : World R)
      → (put_index env id token w).0 ≡ next tt
      → (put_index env id token w).1 ≡ record w {
        cache = env.redis.set w.now (admin_session_key id) token env.token_duration w.cache;
        tick = w.tick + 1;
      }
  unfolding put_index set
  put_index-eq-next id token w h = ground arith

  pub drop_previous_now :
      (id : ℕ) (w : World R)
      → ((drop_previous env id w).0 ≡ next tt) × ((drop_previous env id w).1.now ≡ w.now)
  unfolding drop_previous get del
  drop_previous_now id w = ground arith

  -- The cache after the old session has been dropped, then written.
  abbrev pub written : ℕ → String → String → World R → R
  written id token payload v =
      env.redis.set v.now (admin_session_key id) token env.token_duration
        (env.redis.set v.now (session_key token) payload env.token_duration v.cache)

  pub replace_session-eq-next :
      (id : ℕ) (token payload : String) (w : World R)
      → (replace_session env id token payload w).0 ≡ next tt
      → ((replace_session env id token payload w).1.cache
          ≡ written id token payload (drop_previous env id w).1)
        × ((replace_session env id token payload w).1.now ≡ w.now)
  unfolding replace_session
  replace_session-eq-next id token payload w h =
      let (on, same) = drop_previous_now id w in
      let w1 = (drop_previous env id w).1 in
      elim (Outcome-cases (put_session env token payload w1).0) [
        | inr (r, refused) ↦ absurd (ground arith)
        | inl (_, put) ↦
            let w2 = (put_session env token payload w1).1 in
            let first = put_session-eq-next token payload w1 in
            let second = put_index-eq-next id token w2 in
            (ground (arith, first, second), ground (arith, first, second))
      ]

  -- The answer of a login, its permissions against the database before, and what it has written.
  pub record IsWritten (user : AdminUser) (r : Response) (before : Database) (w : World R)
      : Type 0 where
    pub token : String
    pub permissions : List String
    pub payload : String
    pub tick : ℕ
    -- The world without the session that the login replaces.
    pub bare : World R
    pub drawn : token ≡ env.uuid tick
    pub reply : r ≡ Response.ok (login_result token (new_admin_user_response user))
    pub exact : IsExact before.tables user.id permissions
    pub encoded : env.marshal (session_user user permissions) ≡ some payload
    pub cache : w.cache ≡ written user.id token payload bare
    pub now : w.now ≡ bare.now

  pub open_session-IsWritten :
      (user : AdminUser) (w : World R) (r : Response)
      → (open_session env user w).0 ≡ next r
      → IsWritten user r w.db (open_session env user w).1
  unfolding open_session new_token encode_user
  open_session-IsWritten user w r h =
      let q = list_permission_codes_by_admin_user_id env.collate user.id in
      let w1 = (stmt env q w).1 in
      elim (Result-cases (stmt env q w).0) [
        | inr (e, failed) ↦ absurd (ground arith)
        | inl (codes, listed) ↦ elim (Option-cases (env.marshal (session_user user codes))) [
          | inl refused ↦ absurd (ground arith)
          | inr (payload, encoded) ↦
              let token = env.uuid w1.tick in
              let (ran, _) = stmt-eq-ok env q w codes listed in
              elim (Outcome-cases (replace_session env user.id token payload w1).0) [
                | inr (s, stopped) ↦ absurd (ground arith)
                | inl (_, replaced) ↦
                    let w2 = (replace_session env user.id token payload w1).1 in
                    let final : (open_session env user w).1 ≡ w2 = ground arith in
                    let (cache, now) = replace_session-eq-next user.id token payload w1 replaced in
                    let (_, same) = drop_previous_now user.id w1 in
                    record {
                      token = token;
                      permissions = codes;
                      payload = payload;
                      tick = w1.tick;
                      bare = (drop_previous env user.id w1).1;
                      drawn = refl;
                      reply = ground arith;
                      exact = λ code.
                          has_permission-is_granted env.collate user.id w.now w.db codes code ran;
                      encoded = encoded;
                      cache = ground arith;
                      now = ground arith;
                    }
              ]
        ]
      ]
