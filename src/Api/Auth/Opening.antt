-- ===== src/Api/Auth/Opening.antt =====
-- api/auth.go: a login that succeeds leaves a session under its token and names it in the index,
-- the authentication layer admits the token for the user who logged in, until its time is over.
use template_golang_web.Base.{
  sym, ℕ, ◌+◌, ◌≤◌, ◌<◌, String, str_eq, eq_refl, ◌≡◌, arith, false, some, List,
}
use template_golang_web.Db.Model.{AdminUser, Database}
use template_golang_web.Env.{Env, World, IsLawful, IsCodec, fine}
use template_golang_web.Cache.Keys.{
  session_key, admin_session_key, admin_session_key-ne-session_key,
}
use template_golang_web.Api.Response
use template_golang_web.Api.Response.{Response, login_result, new_admin_user_response}
use template_golang_web.Api.Handler.{next}
use template_golang_web.Api.Auth.{open_session, session_user}
use template_golang_web.Api.Middleware.{auth_middleware}
use template_golang_web.Api.Middleware.Rights.{IsExact}
use template_golang_web.Api.Middleware.Session.{auth_middleware-IsSession}
use template_golang_web.Api.Auth.Written.{written, open_session-IsWritten}
use template_golang_web.Api.Auth.Revocation.{auth_middleware-IsGone}
use template_golang_web.Api.Handler.{answer}
use template_golang_web.Api.Response.{fail}
use template_golang_web.Errcode.{Code}
use template_golang_web.Base.{none}

module _ {R : Type 0} (env : Env R) where
  -- The answer of a login, its permissions against the database before, and the two keys of its
  -- session as they read at the time `t`.
  pub record IsOpened (user : AdminUser) (r : Response) (before : Database) (w : World R) (t : ℕ)
      : Type 0 where
    pub token : String
    pub permissions : List String
    pub payload : String
    pub tick : ℕ
    pub drawn : token ≡ env.uuid tick
    pub reply : r ≡ Response.ok (login_result token (new_admin_user_response user))
    pub exact : IsExact before.tables user.id permissions
    pub encoded : env.marshal (session_user user permissions) ≡ some payload
    pub session : env.redis.get t (session_key token) w.cache ≡ some payload
    pub index : env.redis.get t (admin_session_key user.id) w.cache ≡ some token

  module _ (lawful : IsLawful env.redis) where
    written_reads :
        (id : ℕ) (token payload : String) (v : World R) (t : ℕ)
        → v.now ≤ t
        → t < v.now + env.token_duration
        → (env.redis.get t (session_key token) (written env id token payload v) ≡ some payload)
          × (env.redis.get t (admin_session_key id) (written env id token payload v) ≡ some token)
    written_reads id token payload v t from until =
        let s = session_key token in
        let k = admin_session_key id in
        let c = env.redis.set v.now s payload env.token_duration v.cache in
        ground (
          arith,
          lawful.get_set v.now t s k token env.token_duration c from,
          lawful.get_set v.now t k k token env.token_duration c from,
          lawful.get_set v.now t s s payload env.token_duration v.cache from,
          eq_refl s,
          eq_refl k,
          admin_session_key-ne-session_key id token,
        )

    -- A login that succeeds answers with a token under which, as long as its time to live lasts, the
    -- cache holds the encoded user with permissions that open exactly what the tables of the roles
    -- grant to the account, and to which the index of the user points.
    pub open_session-IsOpened :
        (user : AdminUser) (w : World R) (r : Response) (t : ℕ)
        → (open_session env user w).0 ≡ next r
        → (open_session env user w).1.now ≤ t
        → t < (open_session env user w).1.now + env.token_duration
        → IsOpened user r w.db (open_session env user w).1 t
    open_session-IsOpened user w r t h from until =
        let o = open_session-IsWritten env user w r h in
        let started : o.bare.now ≤ t = rw (sym o.now) from in
        let lasting : t < o.bare.now + env.token_duration = rw (sym o.now) until in
        let (session, index) = written_reads user.id o.token o.payload o.bare t started lasting in
        record {
          token = o.token;
          permissions = o.permissions;
          payload = o.payload;
          tick = o.tick;
          drawn = o.drawn;
          reply = o.reply;
          exact = o.exact;
          encoded = o.encoded;
          session = rw o.cache session;
          index = rw o.cache index;
        }

    -- The token of a login that succeeded is admitted, for the user who logged in and with permissions
    -- that open exactly what the tables of the roles granted to the account at the login, by every
    -- request that finds the cache as the login left it before the time to live has passed, where the
    -- call that reads the session does not fail.
    pub open_session-admitted :
        (codec : IsCodec env) (user : AdminUser) (w v : World R) (r : Response)
        → (open_session env user w).0 ≡ next r
        → v.cache ≡ (open_session env user w).1.cache
        → (open_session env user w).1.now ≤ v.now
        → v.now < (open_session env user w).1.now + env.token_duration
        → env.fault v.tick ≡ fine
        → (token : String) × (permissions : List String) × (r
            ≡ Response.ok (login_result token (new_admin_user_response user)))
          × IsExact w.db.tables user.id permissions
          × ((auth_middleware env token v).0 ≡ next (session_user user permissions))
    open_session-admitted codec user w v r h same from until reached =
        let o = open_session-IsOpened user w r v.now h from until in
        let u = session_user user o.permissions in
        let found : env.redis.get v.now (session_key o.token) v.cache ≡ some o.payload =
          rw same o.session in
        let genuine : str_eq o.token "" ≡ false = rw o.drawn (codec.token o.tick) in
        (
          o.token,
          o.permissions,
          o.reply,
          o.exact,
          auth_middleware-IsSession env o.token u v genuine
              (record {
                val = o.payload;
                stored = found;
                decoded = codec.unmarshal-marshal u o.payload o.encoded;
              })
              reached,
        )

    written-IsGone :
        (id : ℕ) (token payload : String) (v : World R) (t : ℕ)
        → 0 < env.token_duration
        → v.now + env.token_duration ≤ t
        → env.redis.get t (session_key token) (written env id token payload v) ≡ none
    written-IsGone id token payload v t positive over =
        let s = session_key token in
        let c = env.redis.set v.now s payload env.token_duration v.cache in
        let from : v.now ≤ t = omega (arith, over) in
        ground (
          arith,
          lawful.get_set v.now t s (admin_session_key id) token env.token_duration c from,
          lawful.get_set v.now t s s payload env.token_duration v.cache from,
          eq_refl s,
          admin_session_key-ne-session_key id token,
        )

    -- Where the time to live of a session is not 0, which go-redis takes as none, the token of a login
    -- that succeeded is answered with 401 by every request that finds the cache as the login left it
    -- and comes when the time to live has passed, where the call that reads the session does not fail.
    pub open_session-expires :
        (user : AdminUser) (w v : World R) (r : Response)
        → 0 < env.token_duration
        → (open_session env user w).0 ≡ next r
        → v.cache ≡ (open_session env user w).1.cache
        → (open_session env user w).1.now + env.token_duration ≤ v.now
        → env.fault v.tick ≡ fine
        → (token : String) × (r ≡ Response.ok (login_result token (new_admin_user_response user)))
          × ((auth_middleware env token v).0 ≡ answer (fail 401 Code.unauthorized))
    open_session-expires user w v r positive h same over reached =
        let o = open_session-IsWritten env user w r h in
        let late : o.bare.now + env.token_duration ≤ v.now = rw (sym o.now) over in
        let gone = written-IsGone user.id o.token o.payload o.bare v.now positive late in
        (o.token, o.reply, auth_middleware-IsGone env o.token v (rw (same, o.cache) gone) reached)
