-- ===== src/Scheduler/Start.antt =====
-- scheduler/scheduler.go: what `Start` leaves running.
use template_golang_web.Base.{
  ℕ, ◌≡◌, refl, sym, arith, String, Bool, true, false, Bool-cases, inl, inr, Option-cases, some,
  List, [], ◌∷◌, ◌++◌, map, All, All-concat,
}
use template_golang_web.Env.{Call}
use template_golang_web.Scheduler.{
  Mux, PeriodicTask, Asynq, Scheduler, register_all, start_halves, start,
}

module _ {R : Type 0} where
  -- The tasks that the cron enqueues are those that the worker has handlers for, in their order.
  abbrev pub IsHandled : Scheduler R → Mux R → Type 0
  IsHandled s mux = map (λ (e : String × String). e.1) s.entries ≡ map (λ h. h.0) mux

  -- The two halves run, or neither does.
  pub record IsStarted (b : Bool) (s : Scheduler R) : Type 0 where
    pub worker : s.worker ≡ b
    pub cron : s.cron ≡ b
    pub handled : b ≡ true → IsHandled s s.mux

module _ {ℓ κ} {A : Type ℓ} {B : Type κ} (f : A → B) where
  map-append_one : (xs : List A) (x : A) → map f (xs ++ x ∷ []) ≡ map f xs ++ f x ∷ []
  map-append_one [] x = refl
  map-append_one (y ∷ xs) x = rw (map-append_one xs x) refl

module _ {R : Type 0} (asynq : Asynq) where
  register_all-IsHandled :
      (pts : List (PeriodicTask R)) (mux mux' : Mux R) (s : Scheduler R)
      → IsHandled s mux
      → (register_all asynq pts mux s).0 ≡ some mux'
      → IsHandled (register_all asynq pts mux s).1 mux'
  unfolding register_all
  register_all-IsHandled [] mux mux' s i h = let e : mux ≡ mux' = cc in rw (sym e) i
  register_all-IsHandled (pt ∷ pts) mux mux' s i h =
      let mux_one = mux ++ (pt.task, pt.handler) ∷ [] in
      let s_one = record s { entries = s.entries ++ (pt.cron_spec, pt.task) ∷ [] } in
      elim (Bool-cases (asynq.register pt.cron_spec pt.task)) [
        | inr refused ↦ absurd (ground arith)
        | inl registered ↦
            let i_one : IsHandled s_one mux_one = ground (
              arith,
              map-append_one (λ (e : String × String). e.1) s.entries (pt.cron_spec, pt.task),
              map-append_one (λ (h : String × Call R ℕ). h.0) mux (pt.task, pt.handler),
            ) in
            let rest = register_all-IsHandled pts mux_one mux' s_one i_one in ground arith
      ]

  register_all-stopped :
      (pts : List (PeriodicTask R)) (mux : Mux R) (s : Scheduler R)
      → ((register_all asynq pts mux s).1.worker ≡ s.worker)
        × ((register_all asynq pts mux s).1.cron ≡ s.cron)
  unfolding register_all
  register_all-stopped [] mux s = (refl, refl)
  register_all-stopped (pt ∷ pts) mux s =
      let mux_one = mux ++ (pt.task, pt.handler) ∷ [] in
      let s_one = record s { entries = s.entries ++ (pt.cron_spec, pt.task) ∷ [] } in
      elim (Bool-cases (asynq.register pt.cron_spec pt.task)) [
        | inr refused ↦ ground arith
        | inl registered ↦ ground (arith, register_all-stopped pts mux_one s_one)
      ]

  -- `Start` starts both halves, with a handler for every task of the cron, or reports an error and
  -- leaves neither of them running.
  pub start_lem :
      (pts : List (PeriodicTask R)) (s : Scheduler R)
      → s.worker ≡ false
      → s.cron ≡ false
      → s.entries ≡ []
      → IsStarted (start asynq pts s).0 (start asynq pts s).1
  unfolding start start_halves
  start_lem pts s h c e =
      let empty : IsHandled s [] = ground arith in
      let (worker, cron) = register_all-stopped pts [] s in
      elim (Option-cases (register_all asynq pts [] s).0) [
        | inl none_ ↦ record { worker = ground arith; cron = ground arith; handled = ground arith }
        | inr (mux, registered) ↦
            let handled = register_all-IsHandled pts [] mux s empty registered in
            record { worker = ground arith; cron = ground arith; handled = ground arith }
      ]

  -- A predicate of the handlers.
  module _ (Q : Call R ℕ → Type 0) where
    register_all-All :
        (pts : List (PeriodicTask R)) (mux : Mux R) (s : Scheduler R)
        → All (λ pt. Q (pt.handler)) pts
        → All (λ (h : String × Call R ℕ). Q h.1) mux
        → All (λ (h : String × Call R ℕ). Q h.1) s.mux
        → ((mux' : Mux R)
            → (register_all asynq pts mux s).0 ≡ some mux'
            → All (λ (h : String × Call R ℕ). Q h.1) mux')
          × All (λ (h : String × Call R ℕ). Q h.1) (register_all asynq pts mux s).1.mux
    unfolding register_all
    register_all-All [] mux s a b c = (λ mux' h. let e : mux ≡ mux' = cc in rw (sym e) b, c)
    register_all-All (pt ∷ pts) mux s (q, a) b c =
        let mux_one = mux ++ (pt.task, pt.handler) ∷ [] in
        let s_one = record s { entries = s.entries ++ (pt.cron_spec, pt.task) ∷ [] } in
        elim (Bool-cases (asynq.register pt.cron_spec pt.task)) [
          | inr refused ↦ rw (refused, register_all) (λ mux' h. absurd cc, c)
          | inl registered ↦
              rw (registered, register_all)
                (register_all-All pts mux_one s_one a
                  (All-concat (λ (h : String × Call R ℕ). Q h.1) mux b q) c)
        ]

    -- The worker has no other handlers than those of the tasks.
    pub start-All :
        (pts : List (PeriodicTask R)) (s : Scheduler R)
        → All (λ pt. Q (pt.handler)) pts
        → All (λ (h : String × Call R ℕ). Q h.1) s.mux
        → All (λ (h : String × Call R ℕ). Q h.1) (start asynq pts s).1.mux
    unfolding start start_halves register_all
    start-All pts s a c =
        let (given, kept) = register_all-All pts [] s a tt c in
        elim (Option-cases (register_all asynq pts [] s).0) [
          | inl refused ↦ rw (refused, start) kept
          | inr (mux, registered) ↦ elim (Bool-cases asynq.start_server) [
            | inr failed ↦ rw (registered, failed, start, start_halves) kept
            | inl served ↦ elim (Bool-cases asynq.start_scheduler) [
              | inr failed ↦
                  rw (registered, served, failed, start, start_halves) (given mux registered)
              | inl started ↦
                  rw (registered, served, started, start, start_halves) (given mux registered)
            ]
          ]
        ]
