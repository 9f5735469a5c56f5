-- ===== src/Program/Run.antt =====
-- main.go: what a process does once it is up, as steps in any order: the HTTP server takes and answers
-- requests, the cron enqueues, the worker runs tasks, and the main goroutine goes through
-- `listenSignal` and `Scheduler.Shutdown`.
use template_golang_web.Base.{
  ℕ, ◌≤◌, ◌≡◌, String, str_eq, Bool, true, false, Option, none, some, List, [], ◌∷◌, ◌++◌,
  if◌then◌else◌,
}
use template_golang_web.Db.Error.{Result, ok, err}
use template_golang_web.Env.{Env, World, Call}
use template_golang_web.Api.Server.{Request, serve}
use template_golang_web.Scheduler
use template_golang_web.Scheduler.{Mux, Scheduler}
use template_golang_web.Program.{
  Phase, waiting, signalled, draining, drained, cron_stopped, returned, killed, Process, Outside,
  off, boot, fatal,
}

-- The process has not ended.
unfoldable pub is_alive : Phase → Bool
is_alive returned = false
is_alive killed = false
is_alive _ = true

-- The HTTP server is not shut down yet.
abbrev pub is_serving : Phase → Bool
is_serving waiting = true
is_serving signalled = true
is_serving _ = false

module _ {R : Type 0} where
  -- The handler of a task in the worker.
  unfoldable pub find_handler : String → Mux R → Option (Call R ℕ)
  find_handler name [] = none
  find_handler name ((task, handler) ∷ mux) =
      let rest = find_handler name mux in if str_eq task name then some handler else rest

  -- `server.Shutdown(ctx)` begins: no new requests.
  unfoldable pub drain : Process R → Process R
  drain p = record p { phase = draining; listening = false }

  unfoldable pub stop_cron : Process R → Process R
  stop_cron p = record p { phase = cron_stopped; scheduler = Scheduler.stop_cron p.scheduler }

  -- The last call of `Shutdown`; then `main` returns, with its deferred Close of the pool.
  unfoldable pub stop_worker : Process R → Process R
  stop_worker p = record p {
    phase = returned;
    scheduler = Scheduler.stop_worker p.scheduler;
    pool = none;
  }

  -- The worker has run a task that stood between the others: it is done, or stays in the queue.
  abbrev pub settle :
      List String → String → List String → Result ℕ × World R → Process R → Process R
  settle before name after (r, w) p = elim r [
    | ok _ ↦ record p { queue = before ++ after; world = w }
    | err _ ↦ record p { queue = before ++ name ∷ after; world = w }
  ]

  pub data Step (p : Process R) : Process R → Type 0 where
    -- The goroutine of the HTTP server listens; or ListenAndServe fails, with another error than
    -- that of a server that is shut down, even after the signal where it was on its way by then.
    listen : is_serving p.phase ≡ true → Step p (record p { listening = true })
    listen_fails : is_alive p.phase ≡ true → Step p (fatal p)
    accept :
        (req : Request)
        → is_alive p.phase ≡ true
        → p.listening ≡ true
        → Step p (record p { requests = req ∷ p.requests })
    answer :
        (before : List Request) (req : Request) (after : List Request)
        → is_alive p.phase ≡ true
        → p.requests ≡ before ++ req ∷ after
        → Step p (record p { requests = before ++ after; world = (serve p.env req p.world).1 })
    enqueue :
        (before : List (String × String)) (spec name : String) (after : List (String × String))
        → is_alive p.phase ≡ true
        → p.scheduler.cron ≡ true
        → p.scheduler.entries ≡ before ++ (spec, name) ∷ after
        → Step p (record p { queue = p.queue ++ name ∷ [] })
    work :
        (before : List String) (name : String) (after : List String) (handler : Call R ℕ)
        → is_alive p.phase ≡ true
        → p.scheduler.worker ≡ true
        → p.queue ≡ before ++ name ∷ after
        → find_handler name p.scheduler.mux ≡ some handler
        → Step p (settle before name after (handler p.world) p)
    -- After its last retry a task is given up.
    give_up :
        (before : List String) (name : String) (after : List String)
        → is_alive p.phase ≡ true
        → p.scheduler.worker ≡ true
        → p.queue ≡ before ++ name ∷ after
        → Step p (record p { queue = before ++ after })
    elapse : (t : ℕ) → p.world.now ≤ t → Step p (record p { world = record (p.world) { now = t } })
    -- SIGINT or SIGTERM.
    signal : p.phase ≡ waiting → Step p (record p { phase = signalled })
    -- `server.Shutdown(ctx)` begins.
    close_listener : p.phase ≡ signalled → Step p (drain p)
    -- `server.Shutdown(ctx)` returns: all requests are answered, or the time is over.
    http_closed : p.phase ≡ draining → p.requests ≡ [] → Step p (record p { phase = drained })
    http_forced : p.phase ≡ draining → Step p (fatal p)
    cron_closed : p.phase ≡ drained → Step p (stop_cron p)
    worker_closed : p.phase ≡ cron_stopped → Step p (stop_worker p)

  pub data Steps (p : Process R) : Process R → Type 0 where
    here : Steps p p
    next : {q r : Process R} → Steps p q → Step q r → Steps p r

-- What a process that starts at a world comes to.
module _ {R : Type 0} (outside : Outside) (env : Env R) (w : World R) where
  abbrev pub IsReachable : Process R → Type 0
  IsReachable p = Steps (boot outside (off env w)) p
