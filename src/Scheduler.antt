-- ===== src/Scheduler.antt =====
-- scheduler/scheduler.go and scheduler/task_cleanup_operation_logs.go: the periodic tasks, the two
-- halves of asynq that run them, and the task that deletes the operation logs past their retention.
-- asynq is a parameter: whether it accepts an entry, and whether each half starts.
pub mod Start
pub mod Cleanup
use template_golang_web.Base.{
  ℕ, String, Bool, true, false, Option, none, some, List, [], ◌∷◌, ◌++◌, if◌then◌else◌,
}
use template_golang_web.Config.{Config}
use template_golang_web.Db.OperationLogs.{delete_operation_logs_before}
use template_golang_web.Env.{Env, World, Call, stmt}

-- asynq.Option: the time that a task of its kind is kept from the queue after it.
pub data Opt : Type 0 where
  unique : ℕ → Opt

-- The handlers by the name of the task, asynq.ServeMux.
abbrev pub Mux : Type 0 → Type 0
Mux R = List (String × Call R ℕ)

pub record PeriodicTask (R : Type 0) : Type 0 where
  pub cron_spec : String
  pub task : String
  pub opts : List Opt
  pub handler : Call R ℕ

pub record Asynq : Type 0 where
  -- Register of a cron specification and a task.
  pub register : String → String → Bool
  pub start_server : Bool
  pub start_scheduler : Bool

-- The entries of the cron, whether it runs, and the worker with its handlers.
pub record Scheduler (R : Type 0) : Type 0 where
  pub entries : List (String × String)
  pub mux : Mux R
  pub cron : Bool
  pub worker : Bool

unfoldable pub new : (R : Type 0) → Scheduler R
new R = record { entries = []; mux = []; cron = false; worker = false }

abbrev pub task_cleanup_operation_logs : String
task_cleanup_operation_logs = "operation_log:cleanup"

module _ {R : Type 0} (env : Env R) where
  -- time.Now().AddDate(0, -months, 0)
  abbrev pub cutoff : World R → ℕ
  cutoff w = env.months_before env.retention_months w.now

  -- An error is handed back, and asynq runs the task again.
  unfoldable pub handle_cleanup_operation_logs : Call R ℕ
  handle_cleanup_operation_logs w = stmt env (delete_operation_logs_before (cutoff w)) w

  unfoldable pub cleanup_operation_logs_task : Config → PeriodicTask R
  cleanup_operation_logs_task config = record {
    cron_spec = config.operation_log_cleanup_cron;
    task = task_cleanup_operation_logs;
    opts = unique 60 ∷ [];
    handler = handle_cleanup_operation_logs;
  }

  unfoldable pub periodic_tasks : Config → List (PeriodicTask R)
  periodic_tasks config = cleanup_operation_logs_task config ∷ []

module _ {R : Type 0} (asynq : Asynq) where
  -- The loop of `Start` over the tasks.
  unfoldable pub register_all :
      List (PeriodicTask R) → Mux R → Scheduler R → Option (Mux R) × Scheduler R
  register_all [] mux s = (some mux, s)
  register_all (pt ∷ pts) mux s = elim (asynq.register pt.cron_spec pt.task) [
    | false ↦ (none, s)
    | true ↦
        register_all pts (mux ++ (pt.task, pt.handler) ∷ [])
          (record s { entries = s.entries ++ (pt.cron_spec, pt.task) ∷ [] })
  ]

  -- The worker is started with its handlers, then the cron; if the cron does not start, the worker
  -- is stopped again.
  unfoldable pub start_halves : Mux R → Scheduler R → Bool × Scheduler R
  start_halves mux s =
      if asynq.start_server
      then if asynq.start_scheduler
        then (true, record s { mux = mux; worker = true; cron = true })
        else (false, record s { mux = mux; worker = false })
      else (false, s)

  unfoldable pub start : List (PeriodicTask R) → Scheduler R → Bool × Scheduler R
  start pts s =
      let (m, s') = register_all pts [] s in
      elim m [ none ↦ (false, s') | some mux ↦ start_halves mux s' ]

-- The two statements of `Shutdown`.
module _ {R : Type 0} where
  unfoldable pub stop_cron : Scheduler R → Scheduler R
  stop_cron s = record s { cron = false }

  unfoldable pub stop_worker : Scheduler R → Scheduler R
  stop_worker s = record s { worker = false }
