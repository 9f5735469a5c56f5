-- ===== src/Program/Sound.antt =====
-- main.go: what holds of the process from its start to its end.
use template_golang_web.Base.{
  ℕ, ◌≡◌, ◌≢◌, refl, sym, ◌∙◌, arith, String, List, ◌∷◌, ◌++◌, Bool, true, false, not, Bool-cases,
  inl, inr, Option-cases, none, some, [],
}
use template_golang_web.Config.{Config, load_config}
use template_golang_web.Db.Error.{Result, Result-cases, ok, err}
use template_golang_web.Env.{Env, World, Call}
use template_golang_web.Api.Server.{Request}
use template_golang_web.Db.Tx
use template_golang_web.Cache
use template_golang_web.Scheduler
use template_golang_web.Scheduler.{periodic_tasks}
use template_golang_web.Scheduler.Start.{IsHandled, start_lem}
use template_golang_web.Program.{
  Phase, booting, killed, waiting, signalled, draining, drained, cron_stopped, returned, Process,
  Outside, off, boot, boot_config, boot_db, boot_redis, boot_scheduler, call_or_fatal, configure,
  open_pool, fatal,
}
use template_golang_web.Program.Run.{
  Step, Steps, listen, listen_fails, accept, answer, enqueue, work, give_up, elapse, signal,
  close_listener, http_closed, http_forced, cron_closed, worker_closed, here, next, is_alive,
  is_serving, settle, drain, stop_cron, stop_worker, IsReachable,
}

-- From the end of the start to the return of `main`.
abbrev pub is_up : Phase → Bool
is_up waiting = true
is_up signalled = true
is_up draining = true
is_up drained = true
is_up cron_stopped = true
is_up _ = false

-- The HTTP server is shut down.
abbrev pub is_closed : Phase → Bool
is_closed drained = true
is_closed cron_stopped = true
is_closed returned = true
is_closed _ = false

-- The cron is shut down.
abbrev pub is_untimed : Phase → Bool
is_untimed cron_stopped = true
is_untimed returned = true
is_untimed _ = false

pub serving-ne-closed : (phase : Phase) → is_serving phase ≡ true → is_closed phase ≡ true → ⊥
serving-ne-closed waiting s c = absurd cc
serving-ne-closed signalled s c = absurd cc
serving-ne-closed booting s c = absurd cc
serving-ne-closed draining s c = absurd cc
serving-ne-closed drained s c = absurd cc
serving-ne-closed cron_stopped s c = absurd cc
serving-ne-closed returned s c = absurd cc
serving-ne-closed killed s c = absurd cc

pub append-ne-nil :
    (before : List Request) (req : Request) (after : List Request) → before ++ req ∷ after ≢ []
append-ne-nil [] req after e = cc
append-ne-nil (r ∷ before) req after e = cc

module _ {R : Type 0} where
  pub record IsSound (p : Process R) : Type 0 where
    pub connected : is_up p.phase ≡ true → (p.db_connected ≡ true) × (p.redis_connected ≡ true)
    pub worker : is_up p.phase ≡ true → p.scheduler.worker ≡ true
    pub cron : is_up p.phase ≡ true → p.scheduler.cron ≡ not (is_untimed p.phase)
    pub handled : is_up p.phase ≡ true → IsHandled p.scheduler p.scheduler.mux
    pub listening : p.listening ≡ true → is_alive p.phase ≡ true → is_serving p.phase ≡ true
    pub answered : is_closed p.phase ≡ true → p.requests ≡ []
    pub stopped :
        p.phase ≡ returned
        → (p.scheduler.worker ≡ false) × (p.scheduler.cron ≡ false) × (p.pool ≡ none)

  fatal-IsSound : (p : Process R) → IsSound (fatal p)
  unfolding fatal is_alive
  fatal-IsSound p = ground arith

  -- The queue and the world play no part in it.
  requeued-IsSound :
      (p : Process R) (queue : List String) (w : World R)
      → IsSound p
      → IsSound (record p { queue = queue; world = w })
  requeued-IsSound p queue w s = record {
    connected = s.connected;
    worker = s.worker;
    cron = s.cron;
    handled = s.handled;
    listening = s.listening;
    answered = s.answered;
    stopped = s.stopped;
  }

  settle-IsSound :
      (before : List String) (name : String) (after : List String) (r : Result ℕ) (w : World R)
      (p : Process R)
      → IsSound p
      → IsSound (settle before name after (r, w) p)
  settle-IsSound before name after (ok n) w p s = requeued-IsSound p _ _ s
  settle-IsSound before name after (err e) w p s = requeued-IsSound p _ _ s

  Step-IsSound : {p q : Process R} → IsSound p → Step p q → IsSound q
  unfolding is_alive drain stop_cron stop_worker Scheduler.stop_cron Scheduler.stop_worker
  Step-IsSound {p} s (listen w) = ground (arith, w)
  Step-IsSound {p} s (listen_fails w) = fatal-IsSound p
  Step-IsSound {p} s (accept req a l) = record {
    connected = s.connected;
    worker = s.worker;
    cron = s.cron;
    handled = s.handled;
    listening = s.listening;
    answered = λ closed. absurd (serving-ne-closed p.phase (s.listening l a) closed);
    stopped = s.stopped;
  }
  Step-IsSound {p} s (answer before req after a r) = record {
    connected = s.connected;
    worker = s.worker;
    cron = s.cron;
    handled = s.handled;
    listening = s.listening;
    answered = λ closed. absurd (append-ne-nil before req after (sym r ∙ s.answered closed));
    stopped = s.stopped;
  }
  Step-IsSound {p} s (enqueue before spec name after a c e) = requeued-IsSound p _ _ s
  Step-IsSound {p} s (work before name after handler a w q h) =
      settle-IsSound before name after (handler p.world).0 (handler p.world).1 p s
  Step-IsSound {p} s (give_up before name after a w q) = requeued-IsSound p _ _ s
  Step-IsSound {p} s (elapse t h) = requeued-IsSound p _ _ s
  Step-IsSound {p} s (signal w) = ground (arith, w)
  Step-IsSound {p} s (close_listener w) = ground (arith, w)
  Step-IsSound {p} s (http_closed d r) = ground (arith, d, r)
  Step-IsSound {p} s (http_forced d) = fatal-IsSound p
  Step-IsSound {p} s (cron_closed d) = ground (arith, d)
  Step-IsSound {p} s (worker_closed d) = ground (arith, d)

  -- From a state that is sound.
  Steps-IsSound : {p q : Process R} → IsSound p → Steps p q → IsSound q
  Steps-IsSound s here = s
  Steps-IsSound s (next r st) = Step-IsSound (Steps-IsSound s r) st

  call_or_fatal-IsSound :
      {A : Type 0} (m : Call R A) (k : Process R → Process R) (p : Process R)
      → ((w : World R) → IsSound (k (record p { world = w })))
      → IsSound (call_or_fatal m k p)
  call_or_fatal-IsSound m k p sound =
      let w = (m p.world).1 in
      elim (Result-cases (m p.world).0) [
        | inl (a, fine) ↦ rw (fine, call_or_fatal) (sound w)
        | inr (e, failed) ↦ rw (failed, call_or_fatal) (fatal-IsSound (record p { world = w }))
      ]

  module _ (outside : Outside) where
    boot_scheduler-IsSound :
        (config : Config) (p : Process R)
        → p.db_connected ≡ true
        → p.redis_connected ≡ true
        → p.listening ≡ false
        → IsSound (boot_scheduler outside config p)
    unfolding boot_scheduler fatal is_alive Scheduler.new
    boot_scheduler-IsSound config p d r l =
        let started =
          start_lem outside.asynq (periodic_tasks p.env config) (Scheduler.new R) refl refl refl in
        let a = started.worker in
        let b = started.cron in
        let c = started.handled in
        elim (Bool-cases
          (Scheduler.start outside.asynq (periodic_tasks p.env config) (Scheduler.new R)).0) [
            | inl up ↦ ground arith
            | inr not_up ↦ ground arith
          ]

    boot_redis-IsSound :
        (config : Config) (p : Process R)
        → p.db_connected ≡ true
        → p.listening ≡ false
        → IsSound (boot_redis outside config p)
    unfolding boot_redis
    boot_redis-IsSound config p d l =
        call_or_fatal-IsSound (Cache.ping p.env)
          (λ q. boot_scheduler outside config (record q { redis_connected = true })) p
          λ w. boot_scheduler-IsSound config _ d refl l

    boot_db-IsSound :
        (config : Config) (p : Process R) → p.listening ≡ false → IsSound (boot_db outside config p)
    unfolding boot_db
    boot_db-IsSound config p l =
        call_or_fatal-IsSound (Tx.ping p.env)
          (λ q. boot_redis outside config (record q { db_connected = true })) p
          λ w. boot_redis-IsSound config _ refl l

    boot_config-IsSound :
        (config : Config) (p : Process R)
        → p.listening ≡ false
        → IsSound (boot_config outside config p)
    unfolding boot_config
    boot_config-IsSound config p l =
        let q = record p { env = configure config p.env } in
        elim (Bool-cases (outside.sql_open config.db_driver config.db_source)) [
          | inr failed ↦ rw (failed, boot_config) (fatal-IsSound q)
          | inl opened ↦
              rw (opened, boot_config)
                (boot_db-IsSound config (record q { pool = some (open_pool config) }) l)
        ]

    boot-IsSound : (p : Process R) → p.listening ≡ false → IsSound (boot outside p)
    unfolding boot
    boot-IsSound p l = elim (Option-cases (load_config outside.viper ".")) [
      | inl unread ↦ rw (unread, boot) (fatal-IsSound p)
      | inr (config, read) ↦ rw (read, boot) (boot_config-IsSound config p l)
    ]

    -- In every state that a process can come to, whatever fails at its start and in whichever order
    -- its goroutines take their steps: the HTTP server listens only between the start and its own
    -- shutdown, which follows a signal, and from the start to the return of `main` the database and
    -- Redis have answered, the worker runs with a handler for every task of the cron, and the cron runs
    -- until its shutdown. The cron and the worker are shut down only when no request is in progress,
    -- and a `main` that returns leaves no request, no worker, no cron and no pool behind.
    pub reachable-IsSound :
        (env : Env R) (w : World R) (p : Process R) → IsReachable outside env w p → IsSound p
    unfolding off
    reachable-IsSound env w p r = Steps-IsSound (boot-IsSound (off env w) refl) r
