-- ===== src/Api/Pipeline/Uniform.antt =====
-- api/server.go and api/middleware.go: the form of every exchange, whatever fails or panics.
use template_golang_web.Base.{
  ℕ, ◌≤◌, ◌≡◌, refl, arith, String, str_eq, eq_iff, ◌<◌, ◌⊎◌, true, false, Bool-cases, inl, inr,
  Option, Option-cases, some, none,
}
use template_golang_web.Env.{Env, World, AuthUser, IsCodec}
use template_golang_web.Errcode.{Code, number, msg}
use template_golang_web.Errcode.Table.{IsCoded, msg-IsCoded}
use template_golang_web.Api.Response.{Response}
use template_golang_web.Api.Handler.{Outcome-cases}
use template_golang_web.Api.Middleware.{
  find_session, decode_user, refresh, auth_middleware, perm_middleware,
}
use template_golang_web.Api.Audit.{audit_log_middleware, is_write_method}
use template_golang_web.Api.Server
use template_golang_web.Api.Server.{
  Route, Access, Request, public, logged_in, needs, access, method, handler, guarded, admitted,
  anonymous,
}
use template_golang_web.Api.Server.Answers.{
  is_envelope, fail-is_envelope, IsEnveloping, IsWell, answer_rules,
}
use template_golang_web.Api.Server.Answers.Reads
use template_golang_web.Api.Server.Answers.Accounts
use template_golang_web.Api.Pipeline.{
  info, error, Exchange, sent, bare, reply_status, inside, recovery, audited, routed,
}

module _ {R : Type 0} (env : Env R) where
  handler-IsEnveloping :
      (route : Route) (token : String) (user : AuthUser)
      → IsEnveloping (handler env route token user)
  unfolding handler
  handler-IsEnveloping Server.healthz token user = Reads.health_check-IsEnveloping env
  handler-IsEnveloping Server.readyz token user = Reads.ready_check-IsEnveloping env
  handler-IsEnveloping (Server.create_user body) token user =
      Reads.create_user-IsEnveloping env body
  handler-IsEnveloping (Server.login body) token user = Accounts.login-IsEnveloping env body
  handler-IsEnveloping Server.logout token user = Accounts.logout-IsEnveloping env token user
  handler-IsEnveloping Server.me token user = Accounts.me-IsEnveloping env user
  handler-IsEnveloping (Server.change_password body) token user =
      Accounts.change_password-IsEnveloping env token user body
  handler-IsEnveloping Server.dashboard_stats token user =
      Reads.dashboard_stats-IsEnveloping env user
  handler-IsEnveloping (Server.list_wallets query) token user =
      Reads.list_wallets-IsEnveloping env query
  handler-IsEnveloping (Server.get_wallet id) token user = Reads.get_wallet-IsEnveloping env id
  handler-IsEnveloping (Server.list_wallet_entries id query) token user =
      Reads.list_wallet_entries-IsEnveloping env id query
  handler-IsEnveloping (Server.adjust_wallet id body) token user =
      Reads.adjust_wallet-IsEnveloping env user id body
  handler-IsEnveloping (Server.get_user id) token user = Reads.get_user-IsEnveloping env id
  handler-IsEnveloping (Server.list_users query) token user =
      Reads.list_users-IsEnveloping env query
  handler-IsEnveloping (Server.delete_user id) token user = Reads.delete_user-IsEnveloping env id
  handler-IsEnveloping (Server.restore_user id) token user = Reads.restore_user-IsEnveloping env id
  handler-IsEnveloping (Server.list_admin_users query) token user =
      Reads.list_admin_users-IsEnveloping env query
  handler-IsEnveloping (Server.create_admin_user body) token user =
      Accounts.create_admin_user-IsEnveloping env body
  handler-IsEnveloping (Server.update_admin_user_roles id body) token user =
      Accounts.update_admin_user_roles-IsEnveloping env id body
  handler-IsEnveloping (Server.delete_admin_user id) token user =
      Accounts.delete_admin_user-IsEnveloping env user id
  handler-IsEnveloping (Server.restore_admin_user id) token user =
      Accounts.restore_admin_user-IsEnveloping env id
  handler-IsEnveloping Server.list_roles token user = Reads.list_roles-IsEnveloping env
  handler-IsEnveloping (Server.list_operation_logs query) token user =
      Reads.list_operation_logs-IsEnveloping env query

  perm_middleware-IsWell :
      (code : String) (user : AuthUser) → IsWell (perm_middleware env code user)
  unfolding perm_middleware
  perm_middleware-IsWell code user = search answer_rules

  guarded-IsEnveloping :
      (a : Access) (route : Route) (token : String) (user : AuthUser)
      → IsEnveloping (guarded env a route token user)
  unfolding guarded
  guarded-IsEnveloping public route token user = handler-IsEnveloping route token user
  guarded-IsEnveloping logged_in route token user = handler-IsEnveloping route token user
  guarded-IsEnveloping (needs code) route token user =
      search (answer_rules, perm_middleware-IsWell, handler-IsEnveloping)

  find_session-IsWell : (token : String) → IsWell (find_session env token)
  unfolding find_session
  find_session-IsWell token = search answer_rules

  decode_user-IsWell : (val : String) → IsWell (decode_user env val)
  unfolding decode_user
  decode_user-IsWell val = record {
    refusals = λ w. elim (Option-cases (env.unmarshal val)) [
      | inl failed ↦ rw (failed, decode_user) (fail-is_envelope 500 Code.internal refl)
      | inr (user, decoded) ↦ rw (decoded, decode_user) refl
    ];
  }

  auth_middleware-IsWell : (token : String) → IsWell (auth_middleware env token)
  unfolding auth_middleware refresh
  auth_middleware-IsWell token =
      search (answer_rules, find_session-IsWell, decode_user-IsWell) depth 9

  admitted-is_envelope :
      (a : Access) (route : Route) (token : String) (w : World R)
      → is_envelope (admitted env a route token w).0.0 ≡ true
  unfolding admitted
  admitted-is_envelope public route token w = (handler-IsEnveloping route token anonymous).answers w
  admitted-is_envelope logged_in route token w =
      elim (Outcome-cases (auth_middleware env token w).0) [
        | inr (r, refused) ↦ let e = (auth_middleware-IsWell token).refusals w in ground arith
        | inl (user, went) ↦
            let e =
              (guarded-IsEnveloping logged_in route token user).answers
                (auth_middleware env token w).1 in
            rw (went, admitted) e
      ]
  admitted-is_envelope (needs code) route token w =
      elim (Outcome-cases (auth_middleware env token w).0) [
        | inr (r, refused) ↦ let e = (auth_middleware-IsWell token).refusals w in ground arith
        | inl (user, went) ↦
            let e =
              (guarded-IsEnveloping (needs code) route token user).answers
                (auth_middleware env token w).1 in
            rw (went, admitted) e
      ]

-- The response is an envelope: its number reads back as its code, and its message is that of the number.
pub record IsAnswer (r : Response) : Type 0 where
  pub envelope : is_envelope r ≡ true
  pub coded : IsCoded r.code r.msg

IsAnswer-of_envelope : (r : Response) → is_envelope r ≡ true → IsAnswer r
IsAnswer-of_envelope r h =
    let worded : r.msg ≡ msg (number r.code) =
      (eq_iff r.msg (msg (number r.code))).0 (ground arith) in
    record { envelope = h; coded = rw worded (msg-IsCoded r.code) }

-- The reply is such a response, or the bare status of the CORS layer. It goes out under a request id
-- that is not empty, the client's own where it sent one, and its log line has the same id and status,
-- and the level of an error exactly from 500 on.
pub record IsUniform (refusal : Option ℕ) (header : String) (x : Exchange) : Type 0 where
  pub formed :
      ((r : Response) × (refusal ≡ none) × (x.reply ≡ sent r) × IsAnswer r)
      ⊎ ((status : ℕ) × (refusal ≡ some status) × (x.reply ≡ bare status))
  pub named : str_eq x.request_id "" ≡ false
  pub kept : (header ≡ "") ⊎ (x.request_id ≡ header)
  pub traced : x.entry.request_id ≡ x.request_id
  pub status_code : x.entry.status_code ≡ reply_status x.reply
  pub level :
      ((x.entry.level ≡ error) × (500 ≤ reply_status x.reply))
      ⊎ ((x.entry.level ≡ info) × (reply_status x.reply < 500))

module _ {R : Type 0} (env : Env R) (codec : IsCodec env) where
  audited-is_envelope :
      (panics : World R → Option (World R)) (id : String) (req : Request) (w : World R)
      → is_envelope (recovery (audited env id req (routed env panics req)) w).0 ≡ true
  unfolding recovery audited routed audit_log_middleware
  audited-is_envelope panics id req w =
      let formed = admitted-is_envelope env (access req.route) req.route req.token w in
      elim (Option-cases (panics w)) [
        | inr (v, panic) ↦ rw (panic, recovery, audited) (fail-is_envelope 500 Code.internal refl)
        | inl quiet ↦ elim (Bool-cases (is_write_method (method req.route))) [
          | inl writing ↦ rw (quiet, writing, recovery, audited) formed
          | inr reading ↦ rw (quiet, reading, recovery, audited) formed
        ]
      ]

  formed :
      (panics : World R → Option (World R)) (id header : String) (req : Request) (w : World R)
      (refusal : Option ℕ)
      → let (reply, _) = inside refusal (recovery (audited env id req (routed env panics req))) w in
        ((r : Response) × (refusal ≡ none) × (reply ≡ sent r) × IsAnswer r)
        ⊎ ((status : ℕ) × (refusal ≡ some status) × (reply ≡ bare status))
  unfolding inside
  formed panics id header req w none =
      let r = (recovery (audited env id req (routed env panics req)) w).0 in
      inl (r, refl, refl, IsAnswer-of_envelope r (audited-is_envelope panics id req w))
  formed panics id header req w (some status) = inr (status, refl, refl)
