-- ===== src/Api/Auth/Lock.antt =====
-- api/auth.go: the lock of the login. The wrong attempts of a username are counted, and from the
-- fifth on every attempt is turned away before the password is looked at.
use template_golang_web.Base.{
  ℕ, suc, ◌≤◌, ◌<◌, ◌≡◌, arith, String, str_eq, true, false, none, some, find, ◌&&◌, max_int64,
  Option-cases, inl, inr,
}
use template_golang_web.Db.Model.{Database, AdminUser}
use template_golang_web.Db.AdminUsers.{is_live, get_admin_user_by_username}
use template_golang_web.Db.Tx.Verdict.{stmt-fine}
use template_golang_web.Env.{Env, World, IsLawful, fine, ticked}
use template_golang_web.Errcode.{Code}
use template_golang_web.Api.Response.{fail}
use template_golang_web.Api.Handler.{Outcome, next, answer}
use template_golang_web.Api.Auth.{
  LoginRequest, is_valid_login, check_password, find_admin, verify, check_lock, authenticate, login,
}
use template_golang_web.Api.Auth.Counter.{
  IsCounted, get_login_fail_count-IsCounted, wrong_credentials-IsCounted, check_lock-open,
}

module _ {R : Type 0} (env : Env R) where
  -- No account with this username has this password.
  abbrev pub IsWrong : LoginRequest → Database → Type 0
  IsWrong req d =
      (user : AdminUser)
      → find (λ u. str_eq u.username req.username && is_live u) d.tables.admin_users ≡ some user
      → check_password env req.password user.hashed_password ≡ false

  module _ (healthy : (n : ℕ) → env.fault n ≡ fine) (lawful : IsLawful env.redis) where
    -- An account is turned away once five wrong attempts are counted; nothing but the count is read.
    pub login-locked :
        (req : LoginRequest) (n : ℕ) (w : World R)
        → is_valid_login env req ≡ true
        → 5 ≤ n
        → n ≤ max_int64
        → IsCounted env req.username n w
        → login env (some req) w ≡ (answer (fail 429 Code.too_many_login_fails), ticked w)
    unfolding login authenticate check_lock
    login-locked req n w valid many small counted =
        ground
          (arith, get_login_fail_count-IsCounted env healthy lawful req.username n w small counted)

    -- What a wrong attempt leaves: the same answer whichever part was wrong, and one more count.
    abbrev pub IsTurnedAway : {A : Type 0} → String → ℕ → World R → Outcome A × World R → Type 0
    IsTurnedAway username n w (o, w') =
        (o ≡ answer (fail 401 Code.wrong_credentials))
        × IsCounted env username (suc n) w'
        × (w'.db ≡ w.db)
        × (w'.now ≡ w.now)

    find_admin-missing :
        (username : String) (n : ℕ) (w : World R)
        → n < 5
        → IsCounted env username n w
        → find (λ u. str_eq u.username username && is_live u) w.db.tables.admin_users ≡ none
        → IsTurnedAway username n w (find_admin env username w)
    unfolding find_admin get_admin_user_by_username
    find_admin-missing username n w few counted missing =
        let ran = stmt-fine env healthy (get_admin_user_by_username username) w in
        let (a, b, c, d) =
          wrong_credentials-IsCounted env healthy lawful {A = AdminUser} username n (ticked w)
            (omega arith) counted in
        (
          ground (arith, ran, a),
          ground (arith, ran, b),
          ground (arith, ran, c),
          ground (arith, ran, d),
        )

    find_admin-found :
        (username : String) (user : AdminUser) (w : World R)
        → find (λ u. str_eq u.username username && is_live u) w.db.tables.admin_users ≡ some user
        → find_admin env username w ≡ (next user, ticked w)
    unfolding find_admin get_admin_user_by_username
    find_admin-found username user w found =
        ground (arith, stmt-fine env healthy (get_admin_user_by_username username) w)

    verify-wrong :
        (req : LoginRequest) (user : AdminUser) (n : ℕ) (w : World R)
        → n < 5
        → IsCounted env req.username n w
        → check_password env req.password user.hashed_password ≡ false
        → IsTurnedAway req.username n w (verify env req user w)
    unfolding verify
    verify-wrong req user n w few counted wrong =
        let (a, b, c, d) =
          wrong_credentials-IsCounted env healthy lawful {A = Unit {0}} req.username n w
            (omega arith) counted in
        (ground (arith, a), ground (arith, b), ground (arith, c), ground (arith, d))

    -- A wrong attempt is answered in the same way whether the username or the password is wrong, and
    -- is counted.
    pub login-IsTurnedAway :
        (req : LoginRequest) (n : ℕ) (w : World R)
        → is_valid_login env req ≡ true
        → n < 5
        → IsCounted env req.username n w
        → IsWrong req w.db
        → IsTurnedAway req.username n w (login env (some req) w)
    unfolding login authenticate
    login-IsTurnedAway req n w valid few counted wrong =
        let opened = check_lock-open env healthy lawful req.username n w few counted in
        let w1 = ticked w in
        elim (Option-cases
          (find (λ u. str_eq u.username req.username && is_live u) w.db.tables.admin_users)) [
            | inl missing ↦
                let (a, b, c, d) = find_admin-missing req.username n w1 few counted missing in
                (
                  ground (arith, opened, a),
                  ground (arith, opened, b),
                  ground (arith, opened, c),
                  ground (arith, opened, d),
                )
            | inr (user, found) ↦
                let got = find_admin-found req.username user w1 found in
                let (a, b, c, d) =
                  verify-wrong req user n (ticked w1) few counted (wrong user found) in
                (
                  ground (arith, opened, got, a),
                  ground (arith, opened, got, b),
                  ground (arith, opened, got, c),
                  ground (arith, opened, got, d),
                )
          ]
