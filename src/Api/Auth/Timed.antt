-- ===== src/Api/Auth/Timed.antt =====
-- api/auth.go: the count of the wrong attempts in the course of time, where no call fails: it ends
-- 15 minutes after the first of them.
use template_golang_web.Base.{
  ℕ, suc, ◌+◌, ◌≤◌, ◌<◌, ◌≡◌, refl, arith, String, eq_refl, pos, min, ltb, true, none, some, find,
  ◌&&◌, str_eq, inl, inr, Option-cases, Bool-cases, if◌then◌else◌, Option, Bool,
}
use template_golang_web.Strconv.{format_int}
use template_golang_web.Db.AdminUsers.{is_live, get_admin_user_by_username}
use template_golang_web.Db.Tx.Verdict.{stmt-fine}
use template_golang_web.Env.{Env, World, IsLawful, fine, ticked}
use template_golang_web.Cache.{incr, count_up, expire}
use template_golang_web.Cache.Keys.{login_fail_key}
use template_golang_web.Api.Auth.{
  LoginRequest, is_valid_login, login, authenticate, find_admin, verify, wrong_credentials,
  record_login_fail, login_fail_ttl,
}
use template_golang_web.Api.Auth.Counter.{IsCounted, check_lock-open}
use template_golang_web.Api.Auth.Lock.{IsWrong, login-IsTurnedAway, login-locked}

-- The world at another time.
abbrev pub at : {R : Type 0} → ℕ → World R → World R
at t w = record w { now = t }

-- The time is before the end, if there is one.
abbrev pub lasts : Option ℕ → ℕ → Bool
lasts none t = true
lasts (some end) t = ltb t end

module _ {R : Type 0} (env : Env R) where
  -- At every time after `from`, `n + 1` attempts are counted until the end, and none after it.
  abbrev pub IsTimed : String → Option ℕ → ℕ → ℕ → World R → Type 0
  IsTimed username end from n w =
      (t : ℕ)
      → from ≤ t
      → env.redis.get t (login_fail_key username) w.cache
        ≡ (if lasts end t then some (format_int (suc n)) else none)

  module _ (healthy : (n : ℕ) → env.fault n ≡ fine) (lawful : IsLawful env.redis) where
    record-first-IsTimed :
        (username : String) (w : World R)
        → IsCounted env username 0 w
        → IsTimed username
            (some (w.now + login_fail_ttl))
            w.now
            0
            (record_login_fail env username w).1
    unfolding record_login_fail incr count_up expire
    record-first-IsTimed username w counted t late =
        let k = login_fail_key username in
        let c = (env.redis.incr w.now k w.cache).1 in
        let one = lawful.incr_new w.now k w.cache counted in
        let there = lawful.get_incr w.now 1 k w.cache one in
        let kept = lawful.get_expire w.now t k k login_fail_ttl c late in
        ground (arith, healthy w.tick, healthy (w.tick + 1), one, there, kept, eq_refl k)

    record-later-IsTimed :
        (username : String) (end : Option ℕ) (n : ℕ) (w : World R)
        → suc n < 5
        → lasts end w.now ≡ true
        → IsTimed username end w.now n w
        → IsTimed username end w.now (suc n) (record_login_fail env username w).1
    unfolding record_login_fail incr count_up
    record-later-IsTimed username end n w few within timed t late =
        let k = login_fail_key username in
        let counted = timed w.now (omega arith) in
        let then_counted = timed t late in
        let one : IsCounted env username (suc n) w = ground arith in
        let more : (env.redis.incr w.now k w.cache).0 ≡ some (pos (suc (suc n))) =
          ground (arith, lawful.incr_old w.now (suc n) k w.cache one (omega arith)) in
        elim (Bool-cases (lasts end t)) [
          | inl inside ↦
              let there : env.redis.get t k w.cache ≡ some (format_int (suc n)) = ground arith in
              let still =
                lawful.get_incr_still w.now t (suc (suc n)) k _ _ w.cache late one there more in
              ground (arith, healthy w.tick)
          | inr outside ↦
              let gone : env.redis.get t k w.cache ≡ none = ground arith in
              let ended = lawful.get_incr_end w.now t k _ w.cache late one gone in
              ground (arith, healthy w.tick)
        ]

    -- A wrong attempt that is looked at only counts, after a read of the count and one of the account.
    login_records :
        (req : LoginRequest) (n : ℕ) (w : World R)
        → is_valid_login env req ≡ true
        → n < 5
        → IsCounted env req.username n w
        → IsWrong env req w.db
        → (login env (some req) w).1 ≡ (record_login_fail env req.username (ticked (ticked w))).1
    unfolding login authenticate find_admin verify wrong_credentials get_admin_user_by_username
    login_records req n w valid few counted wrong =
        let opened = check_lock-open env healthy lawful req.username n w few counted in
        let got = stmt-fine env healthy (get_admin_user_by_username req.username) (ticked w) in
        elim (Option-cases
          (find (λ u. str_eq u.username req.username && is_live u) w.db.tables.admin_users)) [
            | inl missing ↦ ground (arith, opened, got)
            | inr (user, found) ↦ let no = wrong user found in ground (arith, opened, got, no)
          ]

    -- What an attempt leaves: the count, the database and the time.
    pub record IsLeft (username : String) (end : Option ℕ) (n : ℕ) (w v : World R) : Type 0 where
      pub timed : IsTimed username end w.now n v
      pub db : v.db ≡ w.db
      pub now : v.now ≡ w.now

    pub login-first :
        (req : LoginRequest) (w : World R)
        → is_valid_login env req ≡ true
        → IsWrong env req w.db
        → IsCounted env req.username 0 w
        → IsLeft req.username (some (w.now + login_fail_ttl)) 0 w (login env (some req) w).1
    login-first req w valid wrong counted =
        let one = login_records req 0 w valid (omega arith) counted wrong in
        let (_, _, db, now) =
          login-IsTurnedAway env healthy lawful req 0 w valid (omega arith) counted wrong in
        record {
          timed = rw one (record-first-IsTimed req.username (ticked (ticked w)) counted);
          db = db;
          now = now;
        }

    -- The count goes up to five, where the lock stops it.
    pub login-later :
        (req : LoginRequest) (end : Option ℕ) (n : ℕ) (w : World R)
        → is_valid_login env req ≡ true
        → IsWrong env req w.db
        → n < 5
        → lasts end w.now ≡ true
        → IsTimed req.username end w.now n w
        → IsLeft req.username end (min 4 (suc n)) w (login env (some req) w).1
    login-later req end n w valid wrong small within timed =
        let counted : IsCounted env req.username (suc n) w = ground (arith, timed w.now) in
        elim (Bool-cases (ltb n 4)) [
          | inl few ↦
              let one = login_records req (suc n) w valid (ground arith) counted wrong in
              let (_, _, db, now) =
                login-IsTurnedAway env healthy lawful req (suc n) w valid (ground arith) counted
                  wrong in
              let up : min 4 (suc n) ≡ suc n = ground arith in
              record {
                timed =
                    rw (one, up)
                      (record-later-IsTimed req.username end n (ticked (ticked w)) (ground arith)
                        within timed);
                db = db;
                now = now;
              }
          | inr many ↦
              let locked =
                login-locked env healthy lawful req (suc n) w valid (ground arith) (ground arith)
                  counted in
              let up : min 4 (suc n) ≡ n = ground arith in
              record { timed = rw (locked, up) timed; db = rw locked refl; now = rw locked refl }
        ]
