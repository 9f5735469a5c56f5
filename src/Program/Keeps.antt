-- ===== src/Program/Keeps.antt =====
-- main.go with the packages that it starts: the database under the requests and the tasks.
use template_golang_web.Base.{
  refl, ℕ, ◌≡◌, sym, arith, String, str_eq, true, Bool-cases, inl, inr, Option-cases, some, List,
  [], ◌∷◌, All,
}
use template_golang_web.Config.{Config, load_config}
use template_golang_web.Db.Error.{Result, Result-cases, ok, err}
use template_golang_web.Db.Model.{Tables}
use template_golang_web.Db.Store.{StoreCall, run_call}
use template_golang_web.Db.Ledger.{IsReconciled}
use template_golang_web.Db.Ledger.Keeps.{run_call-IsReconciled}
use template_golang_web.Db.Ledger.Book.{IsRecorded, IsRecorded-refl}
use template_golang_web.Db.Ledger.Refines.{run_call-IsRecorded}
use template_golang_web.Db.Registry.{IsRegistered}
use template_golang_web.Db.Registry.Calls.{run_call-IsRegistered}
use template_golang_web.Db.Tx
use template_golang_web.Cache
use template_golang_web.Env.{Env, World, Call, attempt}
use template_golang_web.Api.Server.Sequence.{IsKept, serve_keeps}
use template_golang_web.Scheduler
use template_golang_web.Scheduler.{
  Mux, PeriodicTask, Scheduler, periodic_tasks, cutoff, handle_cleanup_operation_logs,
  task_cleanup_operation_logs, cleanup_operation_logs_task, register_all, start_halves, start,
}
use template_golang_web.Scheduler.Start.{start-All}
use template_golang_web.Program.{
  Process, Outside, off, boot, boot_config, boot_db, boot_redis, boot_scheduler, call_or_fatal,
  configure, open_pool, fatal,
}
use template_golang_web.Program.Run.{
  Step, Steps, listen, listen_fails, accept, answer, enqueue, work, give_up, elapse, signal,
  close_listener, http_closed, http_forced, cron_closed, worker_closed, here, next, find_handler,
  settle, drain, stop_cron, stop_worker, IsReachable,
}

module _ {R : Type 0} (P : Tables → Type 0) where
  -- A call under which the tables keep `P`.
  abbrev IsKeeping : {A : Type 0} → Call R A → Type 0
  IsKeeping m = (w : World R) → P w.db.tables → P (m w).1.db.tables

  -- The tables have `P`, and every handler of the worker keeps it.
  record IsKeptBy (p : Process R) : Type 0 where
    tables : P p.world.db.tables
    handlers : All (λ (h : String × Call R ℕ). IsKeeping h.1) p.scheduler.mux

  -- Neither the tables nor the handlers are touched.
  moved-IsKeptBy :
      {p : Process R} (q : Process R)
      → q.world.db.tables ≡ p.world.db.tables
      → q.scheduler.mux ≡ p.scheduler.mux
      → IsKeptBy p
      → IsKeptBy q
  moved-IsKeptBy q same handlers k = record {
    tables = rw same k.tables;
    handlers = rw handlers k.handlers;
  }

  cleanup-IsKeeping : (env : Env R) → IsKept env P → IsKeeping (handle_cleanup_operation_logs env)
  unfolding handle_cleanup_operation_logs run_call
  cleanup-IsKeeping env kept w h = kept (StoreCall.delete_operation_logs_before (cutoff env w)) w h

  find_handler-IsKeeping :
      (name : String) (mux : Mux R) (handler : Call R ℕ)
      → All (λ (h : String × Call R ℕ). IsKeeping h.1) mux
      → find_handler name mux ≡ some handler
      → IsKeeping handler
  unfolding find_handler
  find_handler-IsKeeping name [] handler a h = absurd cc
  find_handler-IsKeeping name ((task, first) ∷ mux) handler (k, a) h =
      elim (Bool-cases (str_eq task name)) [
        | inl same ↦ let e : first ≡ handler = ground arith in rw (sym e) k
        | inr other ↦ find_handler-IsKeeping name mux handler a (ground arith)
      ]

  settle-IsKeptBy :
      (before : List String) (name : String) (after : List String) (r : Result ℕ) (w : World R)
      (p : Process R)
      → P w.db.tables
      → IsKeptBy p
      → IsKeptBy (settle before name after (r, w) p)
  settle-IsKeptBy before name after (ok n) w p h k = record { tables = h; handlers = k.handlers }
  settle-IsKeptBy before name after (err e) w p h k = record { tables = h; handlers = k.handlers }

  module _ (kept : (env : Env R) → IsKept env P) where
    Step-IsKeptBy : {p q : Process R} → IsKeptBy p → Step p q → IsKeptBy q
    unfolding fatal drain stop_cron stop_worker Scheduler.stop_cron Scheduler.stop_worker
    Step-IsKeptBy {p} k (answer before req after a r) = record {
      tables = serve_keeps p.env P req p.world (kept p.env) k.tables;
      handlers = k.handlers;
    }
    Step-IsKeptBy {p} k (work before name after handler a w q h) =
        settle-IsKeptBy before name after (handler p.world).0 (handler p.world).1 p
          (find_handler-IsKeeping name p.scheduler.mux handler k.handlers h p.world k.tables) k
    Step-IsKeptBy {p} k (listen w) = moved-IsKeptBy _ refl refl k
    Step-IsKeptBy {p} k (listen_fails w) = moved-IsKeptBy _ refl refl k
    Step-IsKeptBy {p} k (accept req a l) = moved-IsKeptBy _ refl refl k
    Step-IsKeptBy {p} k (enqueue before spec name after a c e) = record {
      tables = k.tables;
      handlers = k.handlers;
    }
    Step-IsKeptBy {p} k (give_up before name after a w q) = record {
      tables = k.tables;
      handlers = k.handlers;
    }
    Step-IsKeptBy {p} k (elapse t h) = moved-IsKeptBy _ refl refl k
    Step-IsKeptBy {p} k (signal w) = moved-IsKeptBy _ refl refl k
    Step-IsKeptBy {p} k (close_listener w) = moved-IsKeptBy _ refl refl k
    Step-IsKeptBy {p} k (http_closed d r) = moved-IsKeptBy _ refl refl k
    Step-IsKeptBy {p} k (http_forced d) = moved-IsKeptBy _ refl refl k
    Step-IsKeptBy {p} k (cron_closed d) = moved-IsKeptBy _ refl refl k
    Step-IsKeptBy {p} k (worker_closed d) = moved-IsKeptBy _ refl refl k

    Steps-IsKeptBy : {p q : Process R} → IsKeptBy p → Steps p q → IsKeptBy q
    Steps-IsKeptBy k here = k
    Steps-IsKeptBy k (next r st) = Step-IsKeptBy (Steps-IsKeptBy k r) st

    fatal-IsKeptBy : (p : Process R) → IsKeptBy p → IsKeptBy (fatal p)
    unfolding fatal
    fatal-IsKeptBy p k = record { tables = k.tables; handlers = k.handlers }

    call_or_fatal-IsKeptBy :
        {A : Type 0} (m : Call R A) (f : Process R → Process R) (p : Process R)
        → IsKeeping m
        → IsKeptBy p
        → ((w : World R) → P w.db.tables → IsKeptBy (f (record p { world = w })))
        → IsKeptBy (call_or_fatal m f p)
    call_or_fatal-IsKeptBy m f p h k go =
        let w = (m p.world).1 in
        let after : P w.db.tables = h p.world k.tables in
        let failed_here : IsKeptBy (record p { world = w }) = record {
          tables = after;
          handlers = k.handlers;
        } in
        elim (Result-cases (m p.world).0) [
          | inl (a, fine) ↦ rw (fine, call_or_fatal) (go w after)
          | inr (e, failed) ↦ rw (failed, call_or_fatal) (fatal-IsKeptBy _ failed_here)
        ]

    module _ (outside : Outside) where
      boot_scheduler-IsKeptBy :
          (config : Config) (p : Process R)
          → P p.world.db.tables
          → IsKeptBy (boot_scheduler outside config p)
      unfolding boot_scheduler Scheduler.new fatal periodic_tasks cleanup_operation_logs_task
      boot_scheduler-IsKeptBy config p h =
          let tasks = periodic_tasks p.env config in
          let handlers =
            start-All outside.asynq (λ m. IsKeeping m) tasks (Scheduler.new R)
              (cleanup-IsKeeping p.env (kept p.env), tt) tt in
          elim (Bool-cases (start outside.asynq tasks (Scheduler.new R)).0) [
            | inr failed ↦ rw (failed, boot_scheduler) (record { tables = h; handlers = handlers })
            | inl started ↦
                rw (started, boot_scheduler) (record { tables = h; handlers = handlers })
          ]

      boot_redis-IsKeptBy :
          (config : Config) (p : Process R) → IsKeptBy p → IsKeptBy (boot_redis outside config p)
      unfolding boot_redis Cache.ping attempt
      boot_redis-IsKeptBy config p k =
          call_or_fatal-IsKeptBy (Cache.ping p.env)
            (λ q. boot_scheduler outside config (record q { redis_connected = true })) p
            (λ w h. ground arith) k λ w h. boot_scheduler-IsKeptBy config _ h

      boot_db-IsKeptBy :
          (config : Config) (p : Process R) → IsKeptBy p → IsKeptBy (boot_db outside config p)
      unfolding boot_db Tx.ping attempt
      boot_db-IsKeptBy config p k =
          call_or_fatal-IsKeptBy (Tx.ping p.env)
            (λ q. boot_redis outside config (record q { db_connected = true })) p
            (λ w h. ground arith) k
            λ w h. boot_redis-IsKeptBy config _ (record { tables = h; handlers = k.handlers })

      boot-IsKeptBy : (p : Process R) → IsKeptBy p → IsKeptBy (boot outside p)
      unfolding boot boot_config
      boot-IsKeptBy p k = elim (Option-cases (load_config outside.viper ".")) [
        | inl unread ↦ rw (unread, boot) (fatal-IsKeptBy p k)
        | inr (config, read) ↦
            let env = configure config p.env in
            elim (Bool-cases (outside.sql_open config.db_driver config.db_source)) [
              | inr failed ↦
                  rw (read, boot, failed, boot_config)
                    (fatal-IsKeptBy (record p { env = env })
                      (record { tables = k.tables; handlers = k.handlers }))
              | inl opened ↦
                  rw (read, boot, opened, boot_config)
                    (boot_db-IsKeptBy config
                      (record p { env = env; pool = some (open_pool config) })
                      (record { tables = k.tables; handlers = k.handlers }))
            ]
      ]

      reachable-keeps :
          (env : Env R) (w : World R) (p : Process R)
          → P w.db.tables
          → IsReachable outside env w p
          → P p.world.db.tables
      unfolding off Scheduler.new
      reachable-keeps env w p h r =
          let started : IsKeptBy (off env w) = record { tables = h; handlers = tt } in
          let k = Steps-IsKeptBy (boot-IsKeptBy (off env w) started) r in k.tables

-- From a database that is reconciled and registered, in every state that a process can come to, from
-- its start to its end, by requests, tasks of the worker, signals and the passing of time in any
-- order, whichever calls fail, the database is reconciled and registered, and its ledger entries are
-- those of before, followed by the moves of a history of the book of the wallets.
pub reachable_keeps :
    {R : Type 0} (outside : Outside) (env : Env R) (w : World R) (p : Process R)
    → IsReconciled w.db.tables
    → IsRegistered w.db.tables
    → IsReachable outside env w p
    → IsReconciled p.world.db.tables
      × IsRegistered p.world.db.tables
      × IsRecorded w.db.tables p.world.db.tables
reachable_keeps outside env w p i j r = (
  reachable-keeps IsReconciled (λ e. run_call-IsReconciled e) outside env w p i r,
  reachable-keeps IsRegistered (λ e. run_call-IsRegistered e) outside env w p j r,
  reachable-keeps (IsRecorded w.db.tables) (λ e. run_call-IsRecorded e w.db.tables) outside env w p
      (IsRecorded-refl w.db.tables) r,
)
