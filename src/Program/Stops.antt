-- ===== src/Program/Stops.antt =====
-- main.go: the shutdown comes to its end.
use template_golang_web.Base.{ℕ, ◌+◌, ◌≤◌, ◌<◌, ◌≡◌, Bool, true, false, [], length, none}
use template_golang_web.Scheduler
use template_golang_web.Program.{
  Phase, waiting, signalled, draining, drained, cron_stopped, returned, booting, Process,
}
use template_golang_web.Program.Run.{Step}
use template_golang_web.Program.Sound.{is_closed, is_untimed}

-- The steps of the main goroutine that are left.
abbrev pub to_go : Phase → ℕ
to_go draining = 3
to_go drained = 2
to_go cron_stopped = 1
to_go _ = 0

abbrev pub is_leaving : Phase → Bool
is_leaving booting = false
is_leaving waiting = false
is_leaving signalled = false
is_leaving _ = true

module _ {R : Type 0} where
  -- What a shutdown has before it: its own steps, and the requests that are in progress.
  abbrev pub left : Process R → ℕ
  left p = to_go p.phase + length p.requests

  -- The shutdown is on its way or over, with no more than `n` before it.
  record IsLeaving (n : ℕ) (p : Process R) : Type 0 where
    closed : p.listening ≡ false
    phase : is_leaving p.phase ≡ true
    answered : is_closed p.phase ≡ true → p.requests ≡ []
    untimed : is_untimed p.phase ≡ true → p.scheduler.cron ≡ false
    stopped : p.phase ≡ returned → (p.scheduler.worker ≡ false) × (p.pool ≡ none)
    bound : left p ≤ n

  -- A step that leaves less before the shutdown.
  pub record IsNearer (p : Process R) : Type 0 where
    pub to : Process R
    pub step : Step p to
    pub less : left to < left p

  -- Nothing of the process is left, and `main` has returned.
  pub record IsOver (p : Process R) : Type 0 where
    pub returns : p.phase ≡ returned
    pub requests : p.requests ≡ []
    pub worker : p.scheduler.worker ≡ false
    pub cron : p.scheduler.cron ≡ false
    pub pool : p.pool ≡ none
