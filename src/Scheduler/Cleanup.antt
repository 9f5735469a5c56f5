-- ===== src/Scheduler/Cleanup.antt =====
-- scheduler/task_cleanup_operation_logs.go: the clean-up under retries.
use template_golang_web.Base.{
  ℕ, ◌≡◌, refl, ◌∙◌, arith, Bool, true, false, not, ltb, map, All, List, [], ◌∷◌, select, any, ◌==◌,
  inl, inr, ◌⊎◌,
}
use template_golang_web.Db.Error.{Result}
use template_golang_web.Db.Tx.Withdrawals.{is_ok}
use template_golang_web.Db.Model.{OperationLog, Database}
use template_golang_web.Db.OperationLogs.{with_logs, delete_operation_logs_before}
use template_golang_web.Env.{Env, World, stmt}
use template_golang_web.Scheduler.{handle_cleanup_operation_logs}

-- The log was made before the cutoff.
abbrev pub is_older : ℕ → OperationLog → Bool
is_older cutoff l = ltb l.created_at cutoff

abbrev pub is_expired : List ℕ → OperationLog → Bool
is_expired cuts l = any (λ c. is_older c l) cuts

-- The cutoff is one of these.
abbrev pub holds : List ℕ → ℕ → Bool
holds cuts c = any (λ e. e == c) cuts

-- What is left once these cutoffs have taken effect.
abbrev pub remaining : List ℕ → Database → Database
remaining cuts d = with_logs (select (λ l. not (is_expired cuts l)) d.tables.operation_logs) d

select-remaining :
    (c : ℕ) (cuts : List ℕ) (ls : List OperationLog)
    → select (λ l. not (is_older c l)) (select (λ l. not (is_expired cuts l)) ls)
      ≡ select (λ l. not (is_expired (c ∷ cuts) l)) ls
select-remaining c cuts [] = refl
select-remaining c cuts (l ∷ ls) = ground (arith, select-remaining c cuts ls)

select-all : (ls : List OperationLog) → select (λ l. not (is_expired [] l)) ls ≡ ls
select-all [] = refl
select-all (l ∷ ls) = rw (select-all ls) refl

holds_cons : (c e : ℕ) (cuts : List ℕ) → holds cuts e ≡ true → holds (c ∷ cuts) e ≡ true
holds_cons c e cuts h = ground arith

module _ {R : Type 0} (env : Env R) where
  -- One attempt at a time.
  abbrev attempt_at : ℕ → World R → Result ℕ × World R
  attempt_at t w = handle_cleanup_operation_logs env (record w { now = t })

  -- The clean-up at each of the times, whatever it reports.
  unfoldable pub attempts : List ℕ → World R → World R
  attempts [] w = w
  attempts (t ∷ ts) w = (attempt_at t (attempts ts w)).1

  -- The cutoff at a time.
  abbrev pub cut : ℕ → ℕ
  cut t = env.months_before env.retention_months t

  -- Each attempt that reports success has its cutoff among these.
  abbrev pub AreReported : List ℕ → World R → List ℕ → Type 0
  AreReported [] w cuts = Unit
  AreReported (t ∷ ts) w cuts =
      ((is_ok (attempt_at t (attempts ts w)).0 ≡ false) ⊎ (holds cuts (cut t) ≡ true))
      × AreReported ts w cuts

  -- The cutoffs that have taken effect: each is that of one of the attempts, and that of every attempt
  -- that reports success is among them.
  pub record IsCleaned (ts : List ℕ) (w after : World R) : Type 0 where
    pub effective : List ℕ
    pub among : All (λ c. holds (map cut ts) c ≡ true) effective
    pub reported : AreReported ts w effective
    pub left : after.db ≡ remaining effective w.db

  -- An attempt takes effect or does not, and one that reports success has.
  attempt-cases :
      (t : ℕ) (w : World R)
      → ((attempt_at t w).1.db ≡ w.db)
        ⊎ ((attempt_at t w).1.db
            ≡ with_logs (select (λ l. not (is_older (cut t) l)) w.db.tables.operation_logs) w.db)
  unfolding handle_cleanup_operation_logs delete_operation_logs_before stmt
  attempt-cases t w = ground arith

  attempt-failure :
      (t : ℕ) (w : World R)
      → (is_ok (attempt_at t w).0 ≡ false)
        ⊎ ((attempt_at t w).1.db
            ≡ with_logs (select (λ l. not (is_older (cut t) l)) w.db.tables.operation_logs) w.db)
  unfolding handle_cleanup_operation_logs delete_operation_logs_before stmt
  attempt-failure t w = ground arith

  among_cons :
      (t : ℕ) (ts cuts : List ℕ)
      → All (λ c. holds (map cut ts) c ≡ true) cuts
      → All (λ c. holds (map cut (t ∷ ts)) c ≡ true) cuts
  among_cons t ts [] h = tt
  among_cons t ts (c ∷ cuts) (one, h) =
      (holds_cons (cut t) c (map cut ts) one, among_cons t ts cuts h)

  reported_cons :
      (c : ℕ) (ts : List ℕ) (w : World R) (cuts : List ℕ)
      → AreReported ts w cuts
      → AreReported ts w (c ∷ cuts)
  reported_cons c [] w cuts h = tt
  reported_cons c (t ∷ ts) w cuts (inl failed, h) = (inl failed, reported_cons c ts w cuts h)
  reported_cons c (t ∷ ts) w cuts (inr held, h) =
      (inr (holds_cons c (cut t) cuts held), reported_cons c ts w cuts h)

  kept-IsCleaned :
      (t : ℕ) (ts : List ℕ) (w v : World R)
      → IsCleaned ts w (attempts ts w)
      → is_ok (attempt_at t (attempts ts w)).0 ≡ false
      → v.db ≡ (attempts ts w).db
      → IsCleaned (t ∷ ts) w v
  kept-IsCleaned t ts w v i failed same = record {
    effective = i.effective;
    among = among_cons t ts i.effective i.among;
    reported = (inl failed, i.reported);
    left = same ∙ i.left;
  }

  deleted-IsCleaned :
      (t : ℕ) (ts : List ℕ) (w v : World R)
      → IsCleaned ts w (attempts ts w)
      → v.db
        ≡ with_logs
            (select (λ l. not (is_older (cut t) l)) (attempts ts w).db.tables.operation_logs)
            (attempts ts w).db
      → IsCleaned (t ∷ ts) w v
  deleted-IsCleaned t ts w v i done = record {
    effective = cut t ∷ i.effective;
    among = (ground arith, among_cons t ts i.effective i.among);
    reported = (inr (ground arith), reported_cons (cut t) ts w i.effective i.reported);
    left =
        ground
          (arith, done, i.left, select-remaining (cut t) i.effective w.db.tables.operation_logs);
  }

  -- The clean-up may be tried at any times, whatever befalls its calls: what is left are exactly the
  -- logs that were made before none of the cutoffs that took effect, in their order, and nothing else
  -- has changed. Each of these cutoffs is that of one of the attempts, and that of every attempt that
  -- reports success is among them.
  pub attempts_lem : (ts : List ℕ) (w : World R) → IsCleaned ts w (attempts ts w)
  unfolding attempts
  attempts_lem [] w = record {
    effective = [];
    among = tt;
    reported = tt;
    left = ground (arith, select-all w.db.tables.operation_logs);
  }
  attempts_lem (t ∷ ts) w =
      let i = attempts_lem ts w in
      let v = (attempt_at t (attempts ts w)).1 in
      elim (attempt-failure t (attempts ts w)) [
        | inr done ↦ deleted-IsCleaned t ts w v i done
        | inl failed ↦ elim (attempt-cases t (attempts ts w)) [
          | inl same ↦ kept-IsCleaned t ts w v i failed same
          | inr done ↦ deleted-IsCleaned t ts w v i done
        ]
      ]
