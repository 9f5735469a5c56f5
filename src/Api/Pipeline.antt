-- ===== src/Api/Pipeline.antt =====
-- api/middleware.go and the `Use` of api/server.go: the layers around every request, from the id of the
-- request to the recovery from a panic.
pub mod Uniform
pub mod Cors
use template_golang_web.Base.{
  ℕ, ◌+◌, ◌-◌, ◌≤◌, arith, ltb, min, leb, String, str_eq, Option, none, some, if◌then◌else◌,
}
use template_golang_web.Env.{Env, World, AuthUser}
use template_golang_web.Errcode.{Code}
use template_golang_web.Api.Audit.{Bytes, audit_log_middleware}
use template_golang_web.Api.Response.{Response, fail}
use template_golang_web.Api.Server.{Route, Request, readyz, access, method, admitted}

-- What a layer comes to: an answer, or a panic that passes through it.
pub data Ended (A : Type 0) : Type 0 where
  finished : A → Ended A
  panicked : Ended A

pub data Level : Type 0 where
  info : Level
  warn : Level
  error : Level

-- The line of `httpLogger`, without its duration.
pub record AccessLog : Type 0 where
  pub level : Level
  pub request_id : String
  pub method : String
  pub path : String
  pub status_code : ℕ

-- What is sent: a response of this program, or a bare status of gin-contrib's CORS layer.
pub data Reply : Type 0 where
  sent : Response → Reply
  bare : ℕ → Reply

abbrev pub reply_status : Reply → ℕ
reply_status (sent r) = r.status
reply_status (bare status) = status

-- The reply with its header X-Request-Id, and the line of the log.
pub record Exchange : Type 0 where
  pub reply : Reply
  pub request_id : String
  pub entry : AccessLog

unfoldable pub http_logger : String → String → String → ℕ → AccessLog
http_logger request_id method path status_code = record {
  level = if leb 500 status_code then error else info;
  request_id = request_id;
  method = method;
  path = path;
  status_code = status_code;
}

-- The line about a request that started and ended at these times, if it was slow.
unfoldable pub slow_log_middleware : ℕ → ℕ → ℕ → Option Level
slow_log_middleware threshold start end = if ltb threshold (end - start) then some warn else none

-- context.WithTimeout: the deadline of the parent stays where it is earlier.
unfoldable pub timeout_middleware : ℕ → ℕ → Option ℕ → ℕ
timeout_middleware d now none = now + d
timeout_middleware d now (some parent) = min parent (now + d)

-- The deadline of a request: the global one, and a shorter one for the probe.
unfoldable pub deadline : ℕ → Route → ℕ → ℕ
unfolding timeout_middleware
deadline api_timeout readyz now =
    timeout_middleware 2 now (some (timeout_middleware api_timeout now none))
deadline api_timeout route now = timeout_middleware api_timeout now none

module _ {R : Type 0} where
  -- The recovery with `recoveryHandler`.
  unfoldable pub recovery : (World R → Ended Response × World R) → World R → Response × World R
  recovery run w =
      let (e, v) = run w in elim e [ finished r ↦ (r, v) | panicked ↦ (fail 500 Code.internal, v) ]

  -- The layer of CORS and what it is around. `refusal` is the status with which gin-contrib's layer
  -- ends a request: of a foreign origin, or a preflight.
  unfoldable pub inside : Option ℕ → (World R → Response × World R) → World R → Reply × World R
  inside none run w = let (r, v) = run w in (sent r, v)
  inside (some refusal) run w = (bare refusal, w)

module _ {R : Type 0} (env : Env R) where
  unfoldable pub request_id_middleware : String → World R → String
  request_id_middleware header w = if str_eq header "" then env.uuid w.tick else header

  -- The audit layer around a run that may panic: what follows ctx.Next() is then not reached.
  unfoldable pub audited :
      String
      → Request
      → (World R → Ended (Response × Option AuthUser) × World R)
      → World R
      → Ended Response × World R
  audited request_id req run w =
      let (e, v) = run w in
      elim e [
        | panicked ↦ (panicked, v)
        | finished x ↦
            let (r, u) =
              audit_log_middleware env (method req.route) req.path req.body request_id (λ t. (x, t))
                v in
            (finished r, u)
      ]

  -- The route with its own layers; `panics` tells whether it panics, and in which world.
  unfoldable pub routed :
      (World R → Option (World R))
      → Request
      → World R
      → Ended (Response × Option AuthUser) × World R
  routed panics req w = elim (panics w) [
    | some v ↦ (panicked, v)
    | none ↦ let (x, v) = admitted env (access req.route) req.route req.token w in (finished x, v)
  ]

  unfoldable pub respond :
      (World R → Option (World R)) → Option ℕ → String → Request → World R → Exchange × World R
  respond panics refusal header req w =
      let id = request_id_middleware header w in
      let (r, v) = inside refusal (recovery (audited id req (routed panics req))) w in
      (
        record {
          reply = r;
          request_id = id;
          entry = http_logger id (method req.route) req.path (reply_status r);
        },
        v,
      )

-- A timeout around another one shortens it and never prolongs it.
deadline_le :
    (api_timeout : ℕ) (route : Route) (now : ℕ) → deadline api_timeout route now ≤ now + api_timeout
unfolding deadline timeout_middleware
deadline_le api_timeout route now = ground arith
