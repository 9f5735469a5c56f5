-- ===== src/Api/Auth/Attempts.antt =====
-- api/auth.go: login requests one after another in the course of time, where no call fails and the
-- wrong ones are within 15 minutes of the first.
use template_golang_web.Base.{
  ℕ, suc, ◌+◌, ◌≤◌, ◌<◌, ◌≡◌, ◌∙◌, refl, arith, String, true, Option, some, min, List, [], ◌∷◌,
  length, All,
}
use template_golang_web.Db.Model.{Database}
use template_golang_web.Env.{Env, World, IsLawful, fine, ticked}
use template_golang_web.Cache.Keys.{login_fail_key}
use template_golang_web.Errcode.{Code}
use template_golang_web.Api.Response.{Response, fail}
use template_golang_web.Api.Handler.{Outcome, answer}
use template_golang_web.Api.Auth.{LoginRequest, is_valid_login, login, login_fail_ttl}
use template_golang_web.Api.Auth.Counter.{IsCounted}
use template_golang_web.Api.Auth.Lock.{IsWrong, login-IsTurnedAway, login-locked}
use template_golang_web.Api.Auth.Timed.{at, lasts, IsTimed, IsLeft, login-first, login-later}

abbrev pub login_with : String → String → LoginRequest
login_with username password = record { username = username; password = password }

module _ {R : Type 0} (env : Env R) where
  -- Attempts for the username, each a time and a password: valid requests that are wrong, one after
  -- another from `from` on and before the end.
  abbrev pub AreWrong : String → Database → ℕ → Option ℕ → List (ℕ × String) → Type 0
  AreWrong username d from end [] = Unit
  AreWrong username d from end ((t, password) ∷ rest) =
      (is_valid_login env (login_with username password) ≡ true)
      × IsWrong env (login_with username password) d
      × (from ≤ t)
      × (lasts end t ≡ true)
      × AreWrong username d t end rest

  -- The world after the attempts, and the answers that they had.
  unfoldable pub after_logins : List (ℕ × String) → String → World R → World R
  after_logins [] username w = w
  after_logins ((t, password) ∷ rest) username w =
      after_logins rest username (login env (some (login_with username password)) (at t w)).1

  unfoldable pub answers : List (ℕ × String) → String → World R → List (Outcome Response)
  answers [] username w = []
  answers ((t, password) ∷ rest) username w =
      let (o, v) = login env (some (login_with username password)) (at t w) in
      o ∷ answers rest username v

  -- What wrong attempts leave: the count, and the database.
  pub record IsRepeated (username : String) (end : Option ℕ) (n : ℕ) (w v : World R) : Type 0 where
    pub timed : IsTimed env username end v.now n v
    pub db : v.db ≡ w.db

  module _ (healthy : (n : ℕ) → env.fault n ≡ fine) (lawful : IsLawful env.redis) where
    -- One attempt more at a later time.
    attempt_later :
        (req : LoginRequest) (end : Option ℕ) (n t : ℕ) (w : World R)
        → is_valid_login env req ≡ true
        → IsWrong env req w.db
        → n < 5
        → w.now ≤ t
        → lasts end t ≡ true
        → IsTimed env req.username end w.now n w
        → IsLeft env healthy lawful req.username end
            (min 4 (suc n))
            (at t w)
            (login env (some req) (at t w)).1
    attempt_later req end n t w valid wrong small later within timed =
        login-later env healthy lawful req end n (at t w) valid wrong small within
          λ t' after. timed t' (omega (arith, later, after))

    pub after_logins-later :
        (username : String) (ts : List (ℕ × String)) (end : Option ℕ) (n : ℕ) (w : World R)
        → n < 5
        → AreWrong username w.db w.now end ts
        → IsTimed env username end w.now n w
        → IsRepeated username end (min 4 (n + length ts)) w (after_logins ts username w)
    unfolding after_logins
    after_logins-later username [] end n w small wrong timed =
        let same : min 4 (n + 0) ≡ n = omega arith in record { timed = rw same timed; db = refl }
    after_logins-later username ((t, password) ∷ ts) end n w small
          (valid, wrong, later, within, others) timed =
        let req = login_with username password in
        let one = attempt_later req end n t w valid wrong small later within timed in
        let v = (login env (some req) (at t w)).1 in
        let rest =
          after_logins-later username ts end (min 4 (suc n)) v (omega arith)
            (rw (one.db, one.now) others) (rw one.now one.timed) in
        let count : min 4 (n + suc (length ts)) ≡ min 4 (min 4 (suc n) + length ts) = omega arith in
        record { timed = rw count rest.timed; db = rest.db ∙ one.db }

    -- The first attempt of all, and those after it.
    fresh_at :
        (username : String) (t : ℕ) (w : World R)
        → w.now ≤ t
        → IsCounted env username 0 w
        → IsCounted env username 0 (at t w)
    fresh_at username t w later fresh =
        lawful.get_later w.now t (login_fail_key username) w.cache later fresh

    pub after_logins_lem :
        (username : String) (t : ℕ) (password : String) (ts : List (ℕ × String)) (w : World R)
        → IsCounted env username 0 w
        → AreWrong username w.db w.now (some (t + login_fail_ttl)) ((t, password) ∷ ts)
        → IsRepeated username
            (some (t + login_fail_ttl))
            (min 4 (length ts))
            w
            (after_logins ((t, password) ∷ ts) username w)
    unfolding after_logins
    after_logins_lem username t password ts w fresh (valid, wrong, later, within, others) =
        let req = login_with username password in
        let one =
          login-first env healthy lawful req (at t w) valid wrong
            (fresh_at username t w later fresh) in
        let v = (login env (some req) (at t w)).1 in
        let rest =
          after_logins-later username ts (some (t + login_fail_ttl)) 0 v (omega arith)
            (rw (one.db, one.now) others) (rw one.now one.timed) in
        let count : min 4 (length ts) ≡ min 4 (0 + length ts) = omega arith in
        record { timed = rw count rest.timed; db = rest.db ∙ one.db }

    answers-few :
        (username : String) (ts : List (ℕ × String)) (end : Option ℕ) (n : ℕ) (w : World R)
        → n + length ts < 5
        → AreWrong username w.db w.now end ts
        → IsTimed env username end w.now n w
        → All (λ o. o ≡ answer (fail 401 Code.wrong_credentials)) (answers ts username w)
    unfolding answers
    answers-few username [] end n w few wrong timed = tt
    answers-few username ((t, password) ∷ ts) end n w few (valid, wrong, later, within, others)
          timed =
        let req = login_with username password in
        let one = attempt_later req end n t w valid wrong (omega arith) later within timed in
        let v = (login env (some req) (at t w)).1 in
        let counted : IsCounted env username (suc n) (at t w) = ground (arith, timed t later) in
        let (refused, _, _, _) =
          login-IsTurnedAway env healthy lawful req (suc n) (at t w) valid (omega arith) counted
            wrong in
        let more : min 4 (suc n) ≡ suc n = omega arith in
        let one_timed : IsTimed env username end v.now (suc n) v =
          rw⁻¹ more (rw one.now one.timed) in
        (
          refused,
          answers-few username ts end (suc n) v (omega arith) (rw (one.db, one.now) others)
              one_timed,
        )

    -- Where no call fails and no wrong attempt is counted yet, up to five valid attempts for a
    -- username that are wrong, whatever their passwords, within 15 minutes of the first, are all
    -- answered with 401, whether the username or the password was wrong.
    pub login-few_wrong :
        (username : String) (t : ℕ) (password : String) (ts : List (ℕ × String)) (w : World R)
        → IsCounted env username 0 w
        → AreWrong username w.db w.now (some (t + 900)) ((t, password) ∷ ts)
        → length ts < 5
        → All
            (λ o. o ≡ answer (fail 401 Code.wrong_credentials))
            (answers ((t, password) ∷ ts) username w)
    unfolding answers
    login-few_wrong username t password ts w fresh (valid, wrong, later, within, others) few =
        let req = login_with username password in
        let counted = fresh_at username t w later fresh in
        let one = login-first env healthy lawful req (at t w) valid wrong counted in
        let v = (login env (some req) (at t w)).1 in
        let (refused, _, _, _) =
          login-IsTurnedAway env healthy lawful req 0 (at t w) valid (omega arith) counted wrong in
        (
          refused,
          answers-few username ts (some (t + login_fail_ttl)) 0 v (omega arith)
              (rw (one.db, one.now) others) (rw one.now one.timed),
        )

    -- Where no call fails and no wrong attempt is counted yet, after five valid attempts or more for
    -- a username that are wrong, whatever their passwords, within 15 minutes of the first, every valid
    -- login request for the username until these 15 minutes are over is answered with 429, even one
    -- with the right password, and neither the database nor the cache is written.
    pub login-many_wrong :
        (username : String) (other : LoginRequest) (t : ℕ) (password : String)
        (ts : List (ℕ × String)) (t' : ℕ) (w : World R)
        → IsCounted env username 0 w
        → AreWrong username w.db w.now (some (t + 900)) ((t, password) ∷ ts)
        → 4 ≤ length ts
        → is_valid_login env other ≡ true
        → other.username ≡ username
        → (after_logins ((t, password) ∷ ts) username w).now ≤ t'
        → t' < t + 900
        → let v = at t' (after_logins ((t, password) ∷ ts) username w) in
          login env (some other) v ≡ (answer (fail 429 Code.too_many_login_fails), ticked v)
    login-many_wrong username other t password ts t' w fresh wrong many good same after within =
        let r = after_logins_lem username t password ts w fresh wrong in
        let v = at t' (after_logins ((t, password) ∷ ts) username w) in
        let full : min 4 (length ts) ≡ 4 = omega arith in
        let timed = r.timed t' after in
        let counted : IsCounted env other.username 5 v = ground (arith, full, timed, same) in
        login-locked env healthy lawful other 5 v good (omega arith) (omega arith) counted
