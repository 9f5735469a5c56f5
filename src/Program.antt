-- ===== src/Program.antt =====
-- main.go: the process. `boot` is `main` up to `listenSignal`.
pub mod Run
pub mod Sound
pub mod Keeps
pub mod Stops
use template_golang_web.Base.{ℕ, String, Bool, true, false, Option, none, some, List, []}
use template_golang_web.Config.{Config, Viper, load_config}
use template_golang_web.Db.Error.{ok, err}
use template_golang_web.Db.Tx
use template_golang_web.Cache
use template_golang_web.Env.{Env, World, Call}
use template_golang_web.Api.Server.{Request}
use template_golang_web.Scheduler
use template_golang_web.Scheduler.{Asynq, Scheduler, periodic_tasks, start}

-- Where the main goroutine is: before `listenSignal`, waiting for a signal, with one but before the
-- shutdown of the HTTP server, in it, before and after the shutdown of the cron, returned, or ended by log.Fatal.
pub data Phase : Type 0 where
  booting : Phase
  waiting : Phase
  signalled : Phase
  draining : Phase
  drained : Phase
  cron_stopped : Phase
  returned : Phase
  killed : Phase

-- The settings of the pool of connections.
pub record Pool : Type 0 where
  pub max_open_conns : ℕ
  pub max_idle_conns : ℕ
  pub conn_max_lifetime : ℕ

pub record Process (R : Type 0) : Type 0 where
  pub phase : Phase
  -- What the packages api and scheduler work with, the settings included.
  pub env : Env R
  pub pool : Option Pool
  pub db_connected : Bool
  pub redis_connected : Bool
  pub scheduler : Scheduler R
  -- The HTTP server takes connections.
  pub listening : Bool
  -- The requests that are in progress, and the tasks in the queue.
  pub requests : List Request
  pub queue : List String
  pub world : World R

-- sql.Open of a driver and a source, the settings, and asynq.
pub record Outside : Type 0 where
  pub viper : Viper
  pub sql_open : String → String → Bool
  pub asynq : Asynq

unfoldable pub open_pool : Config → Pool
open_pool config = record {
  max_open_conns = config.db_max_open_conns;
  max_idle_conns = config.db_max_idle_conns;
  conn_max_lifetime = config.db_conn_max_lifetime;
}

module _ {R : Type 0} where
  unfoldable pub off : Env R → World R → Process R
  off env w = record {
    phase = booting;
    env = env;
    pool = none;
    db_connected = false;
    redis_connected = false;
    scheduler = Scheduler.new R;
    listening = false;
    requests = [];
    queue = [];
    world = w;
  }

  -- What the settings give the packages.
  unfoldable pub configure : Config → Env R → Env R
  configure config env = record env {
    token_duration = config.token_duration;
    retention_months = config.operation_log_retention_months;
  }

  -- `log.Fatal`: the process ends without its deferred calls.
  unfoldable pub fatal : Process R → Process R
  fatal p = record p { phase = killed }

  -- A call whose error is fatal.
  abbrev pub call_or_fatal :
      {A : Type 0} → Call R A → (Process R → Process R) → Process R → Process R
  call_or_fatal m next p =
      let (r, w) = m p.world in
      let q = record p { world = w } in elim r [ err _ ↦ fatal q | ok _ ↦ next q ]

  module _ (outside : Outside) where
    -- From `scheduler.New` on. NewServer has no error.
    unfoldable pub boot_scheduler : Config → Process R → Process R
    boot_scheduler config p =
        let (started, s) = start outside.asynq (periodic_tasks p.env config) (Scheduler.new R) in
        let q = record p { scheduler = s } in
        elim started [ false ↦ fatal q | true ↦ record q { phase = waiting } ]

    unfoldable pub boot_redis : Config → Process R → Process R
    boot_redis config p =
        call_or_fatal (Cache.ping p.env)
          (λ q. boot_scheduler config (record q { redis_connected = true })) p

    unfoldable pub boot_db : Config → Process R → Process R
    boot_db config p =
        call_or_fatal (Tx.ping p.env) (λ q. boot_redis config (record q { db_connected = true })) p

    unfoldable pub boot_config : Config → Process R → Process R
    boot_config config p =
        let q = record p { env = configure config p.env } in
        elim (outside.sql_open config.db_driver config.db_source) [
          | false ↦ fatal q
          | true ↦ boot_db config (record q { pool = some (open_pool config) })
        ]

    unfoldable pub boot : Process R → Process R
    boot p = elim (load_config outside.viper ".") [
      | none ↦ fatal p
      | some config ↦ boot_config config p
    ]
