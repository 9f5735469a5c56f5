-- ===== src/Api/Auth/Counter.antt =====
-- api/auth.go: the counter of the wrong attempts of a username, where no call fails.
use template_golang_web.Base.{
  ℕ, zero, suc, ◌+◌, ◌≤◌, ◌<◌, ◌≡◌, refl, arith, String, eq_refl, Option, none, some, pos,
  max_int64,
}
use template_golang_web.Strconv.{format_int, parse_int-format_int}
use template_golang_web.Db.Error.{ok}
use template_golang_web.Env.{Env, World, IsLawful, fine, ticked}
use template_golang_web.Cache.{get, incr, count_up, expire}
use template_golang_web.Cache.Keys.{login_fail_key}
use template_golang_web.Errcode.{Code}
use template_golang_web.Api.Response.{fail}
use template_golang_web.Api.Handler.{next, answer}
use template_golang_web.Api.Auth.{
  get_login_fail_count, record_login_fail, wrong_credentials, check_lock, login_fail_ttl,
}

-- How the count of wrong attempts stands in the cache.
abbrev pub count_text : ℕ → Option String
count_text zero = none
count_text (suc n) = some (format_int (suc n))

module _ {R : Type 0} (env : Env R) where
  abbrev pub IsCounted : String → ℕ → World R → Type 0
  IsCounted username n w = env.redis.get w.now (login_fail_key username) w.cache ≡ count_text n

  module _ (healthy : (n : ℕ) → env.fault n ≡ fine) (lawful : IsLawful env.redis) where
    pub get_login_fail_count-IsCounted :
        (username : String) (n : ℕ) (w : World R)
        → n ≤ max_int64
        → IsCounted username n w
        → get_login_fail_count env username w ≡ (ok (pos n), ticked w)
    unfolding get_login_fail_count get
    get_login_fail_count-IsCounted username zero w small counted = ground (arith, healthy w.tick)
    get_login_fail_count-IsCounted username (suc n) w small counted =
        ground (arith, healthy w.tick, parse_int-format_int (suc n))

    count_up-IsCounted :
        (username : String) (n : ℕ) (w : World R)
        → n < max_int64
        → IsCounted username n w
        → count_up env (login_fail_key username) w ≡ (
          ok (pos (suc n)),
          record w {
            cache = (env.redis.incr w.now (login_fail_key username) w.cache).1;
            tick = w.tick + 1;
          },
        )
    unfolding count_up
    count_up-IsCounted username zero w small counted =
        ground
          (arith, healthy w.tick, lawful.incr_new w.now (login_fail_key username) w.cache counted)
    count_up-IsCounted username (suc n) w small counted = ground (
      arith,
      healthy w.tick,
      lawful.incr_old w.now (suc n) (login_fail_key username) w.cache counted small,
    )

    -- The first count sets the time to live; it is there at once.
    record-first :
        (username : String) (w : World R)
        → IsCounted username 0 w
        → let ran = record_login_fail env username w in
          (ran.0 ≡ next tt) × IsCounted username 1 ran.1 × (ran.1.db ≡ w.db) × (ran.1.now ≡ w.now)
    unfolding record_login_fail incr expire
    record-first username w counted =
        let k = login_fail_key username in
        let c = (env.redis.incr w.now k w.cache).1 in
        let kept = lawful.get_expire w.now w.now k k login_fail_ttl c in
        let one = lawful.get_incr w.now 1 k w.cache (lawful.incr_new w.now k w.cache counted) in
        let up = count_up-IsCounted username 0 w in
        (
          refl,
          ground (arith, up, healthy (w.tick + 1), kept, one, eq_refl k),
          ground (arith, up, healthy (w.tick + 1)),
          ground (arith, up, healthy (w.tick + 1)),
        )

    record-later :
        (username : String) (n : ℕ) (w : World R)
        → suc n < max_int64
        → IsCounted username (suc n) w
        → let ran = record_login_fail env username w in
          (ran.0 ≡ next tt)
          × IsCounted username (suc (suc n)) ran.1
          × (ran.1.db ≡ w.db)
          × (ran.1.now ≡ w.now)
    unfolding record_login_fail incr
    record-later username n w small counted =
        let k = login_fail_key username in
        let old = lawful.incr_old w.now (suc n) k w.cache counted small in
        let more = lawful.get_incr w.now (suc (suc n)) k w.cache in
        let up = count_up-IsCounted username (suc n) w small counted in
        (refl, ground (arith, up, old, more), ground (arith, up), ground (arith, up))

    pub record_login_fail-IsCounted :
        (username : String) (n : ℕ) (w : World R)
        → n < max_int64
        → IsCounted username n w
        → let ran = record_login_fail env username w in
          (ran.0 ≡ next tt)
          × IsCounted username (suc n) ran.1
          × (ran.1.db ≡ w.db)
          × (ran.1.now ≡ w.now)
    record_login_fail-IsCounted username zero w small counted = record-first username w counted
    record_login_fail-IsCounted username (suc n) w small counted =
        record-later username n w small counted

    pub wrong_credentials-IsCounted :
        {A : Type 0} (username : String) (n : ℕ) (w : World R)
        → n < max_int64
        → IsCounted username n w
        → let ran = wrong_credentials env {A = A} username w in
          (ran.0 ≡ answer (fail 401 Code.wrong_credentials))
          × IsCounted username (suc n) ran.1
          × (ran.1.db ≡ w.db)
          × (ran.1.now ≡ w.now)
    unfolding wrong_credentials
    wrong_credentials-IsCounted username n w small counted =
        let (on, more, db, now) = record_login_fail-IsCounted username n w small counted in
        (refl, more, db, now)

    pub check_lock-open :
        (username : String) (n : ℕ) (w : World R)
        → n < 5
        → IsCounted username n w
        → check_lock env username w ≡ (next tt, ticked w)
    unfolding check_lock
    check_lock-open username n w few counted =
        ground (arith, get_login_fail_count-IsCounted username n w (omega arith) counted)
