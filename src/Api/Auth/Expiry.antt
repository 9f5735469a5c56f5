-- ===== src/Api/Auth/Expiry.antt =====
-- api/auth.go: the end of the lock, 15 minutes after the first wrong attempt, and the count that has no
-- end where its time to live is lost.
use template_golang_web.Base.{
  ℕ, ◌+◌, ◌≤◌, ◌≡◌, refl, arith, String, true, some, none, length, min, List, ◌∷◌,
}
use template_golang_web.Env.{Env, World, IsLawful, Fault, Failure, fine, refused, ticked}
use template_golang_web.Cache.{incr, count_up, expire}
use template_golang_web.Cache.Keys.{login_fail_key}
use template_golang_web.Errcode.{Code}
use template_golang_web.Api.Response.{fail}
use template_golang_web.Api.Handler.{next, answer}
use template_golang_web.Api.Auth.{
  LoginRequest, is_valid_login, login, check_lock, record_login_fail,
}
use template_golang_web.Api.Auth.Counter.{IsCounted, check_lock-open}
use template_golang_web.Api.Auth.Lock.{login-locked}
use template_golang_web.Api.Auth.Timed.{at, IsTimed}
use template_golang_web.Api.Auth.Attempts.{
  AreWrong, after_logins, after_logins-later, after_logins_lem,
}

module _ {R : Type 0} (env : Env R) where
  module _ (healthy : (n : ℕ) → env.fault n ≡ fine) (lawful : IsLawful env.redis) where
    -- Where no call fails and no wrong attempt is counted yet, valid attempts for a username that are
    -- wrong, whatever their passwords, within 15 minutes of the first, however many, lock it for no
    -- longer than these 15 minutes, which count from the first attempt and not from the fifth: after
    -- them, as long as nothing else writes the cache, the lock is open and the next request is looked
    -- at.
    pub check_lock-reopens :
        (username : String) (t : ℕ) (password : String) (ts : List (ℕ × String)) (t' : ℕ)
        (w : World R)
        → IsCounted env username 0 w
        → AreWrong env username w.db w.now (some (t + 900)) ((t, password) ∷ ts)
        → (after_logins env ((t, password) ∷ ts) username w).now ≤ t'
        → t + 900 ≤ t'
        → let v = at t' (after_logins env ((t, password) ∷ ts) username w) in
          check_lock env username v ≡ (next tt, ticked v)
    check_lock-reopens username t password ts t' w fresh wrong after late =
        let r = after_logins_lem env healthy lawful username t password ts w fresh wrong in
        let v = at t' (after_logins env ((t, password) ∷ ts) username w) in
        let timed = r.timed t' after in
        let counted : IsCounted env username 0 v = ground (arith, timed) in
        check_lock-open env healthy lawful username 0 v (omega arith) counted

  -- The count of an attempt whose time to live is refused has no end.
  record_login_fail-endless :
      IsLawful env.redis
      → (username : String) (failure : Failure) (w : World R) → env.fault w.tick ≡ fine
      → env.fault (w.tick + 1) ≡ refused failure
      → IsCounted env username 0 w
      → ((record_login_fail env username w).0 ≡ next tt)
        × IsTimed env username none w.now 0 (record_login_fail env username w).1
        × ((record_login_fail env username w).1.db ≡ w.db)
        × ((record_login_fail env username w).1.now ≡ w.now)
  unfolding record_login_fail incr count_up expire
  record_login_fail-endless lawful username failure w counts fails counted =
      let k = login_fail_key username in
      let one = lawful.incr_new w.now k w.cache counted in
      (
        refl,
        λ t later.
            let stays = lawful.get_incr_later w.now t 1 k w.cache later counted one in
            ground (arith, counts, fails, one, stays),
        ground (arith, counts, fails, one),
        ground (arith, counts, fails, one),
      )

-- Where the first wrong attempt of a username is counted and the call that sets its time to live is
-- refused, four more valid attempts that are wrong, whatever their passwords and however far apart in
-- time, lock the username for good, as long as nothing else writes the cache: where no other call
-- fails, every valid login request for it at any later time is answered with 429, even one with the
-- right password.
pub record_login_fail_locks :
    {R : Type 0} (env : Env R) (fault : ℕ → Fault) (failure : Failure)
    → ((n : ℕ) → env.fault n ≡ fine)
    → IsLawful env.redis
    → (username : String) (other : LoginRequest) (ts : List (ℕ × String)) (t : ℕ) (w : World R)
    → fault w.tick ≡ fine
    → fault (w.tick + 1) ≡ refused failure
    → IsCounted env username 0 w
    → AreWrong env username w.db w.now none ts
    → 4 ≤ length ts
    → is_valid_login env other ≡ true
    → other.username ≡ username
    → (after_logins env ts username
        (record_login_fail (record env { fault = fault }) username w).1).now
      ≤ t
    → let first = (record_login_fail (record env { fault = fault }) username w).1 in
      let v = at t (after_logins env ts username first) in
      login env (some other) v ≡ (answer (fail 429 Code.too_many_login_fails), ticked v)
record_login_fail_locks env fault failure healthy lawful username other ts t w counts fails fresh
      wrong many good same after =
    let lossy = record env { fault = fault } in
    let (_, timed, db, now) =
      record_login_fail-endless lossy lawful username failure w counts fails fresh in
    let first = (record_login_fail lossy username w).1 in
    let r =
      after_logins-later env healthy lawful username ts none 0 first (omega arith)
        (rw (db, now) wrong) (rw now timed) in
    let v = at t (after_logins env ts username first) in
    let full : min 4 (0 + length ts) ≡ 4 = omega arith in
    let five = r.timed t after in
    let counted : IsCounted env other.username 5 v = ground (arith, full, five, same) in
    login-locked env healthy lawful other 5 v good (omega arith) (omega arith) counted
