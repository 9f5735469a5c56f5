-- ===== src/Tests/Passwords.antt =====
-- The theorems on passwords, on the lock, and on the form of an exchange at a small installation.
use template_golang_web.Base.{
  ℕ, String, List, [], ◌∷◌, ◌≡◌, refl, sym, ◌&&◌, arith, eq_refl, Option, some, none, find, ◌==◌,
  if◌then◌else◌,
}
use template_golang_web.Db.AdminUsers.{
  is_live, get_admin_user, get_admin_user_by_username, update_admin_user_password,
}
use template_golang_web.Env.{World, Fault, IsHashing, attempt, stmt, fine, refused, broken, ticked}
use template_golang_web.Cache.{get, del, incr, count_up, expire}
use template_golang_web.Cache.Keys.{login_fail_key}
use template_golang_web.Strconv.{format_int, parse_int}
use template_golang_web.Errcode.{Code}
use template_golang_web.Api.Response
use template_golang_web.Api.Response.{Response, fail}
use template_golang_web.Api.Handler.{next, answer}
use template_golang_web.Api.Auth.{
  ChangePasswordRequest, change_password, hash_password, verify_old, check_password, check_lock,
  record_login_fail, wrong_credentials, login, authenticate, get_login_fail_count, find_admin,
  verify,
}
use template_golang_web.Api.Auth.Timed.{at}
use template_golang_web.Api.Auth.Attempts.{AreWrong, after_logins}
use template_golang_web.Api.Auth.Password.{IsChanged, change_password-IsChanged}
use template_golang_web.Api.Auth.Expiry.{check_lock-reopens, record_login_fail_locks}
use template_golang_web.Api.Middleware.{auth_middleware}
use template_golang_web.Tests.Redis.{Store, redis-IsLawful}
use template_golang_web.Tests.Fixture.{env, healthy, tables, world, ada, with_session, database}
use template_golang_web.Tests.Web.{
  right, IsWrong-of_ne, guesses, guesses-AreWrong, guessed, guessed_now,
}

env-IsHashing : IsHashing env
env-IsHashing = record {
  accepts = λ n password hashed h. let e : password ≡ hashed = cc in rw (sym e) (eq_refl password);
}

abbrev change : ChangePasswordRequest
change = record { old_password = "adaspass"; new_password = "newspass" }

abbrev logged_in : World Store
logged_in = with_session 1 "tok"

abbrev changed : World Store
changed = (change_password env "tok" ada (some change) logged_in).1

change_runs :
    (change_password env "tok" ada (some change) logged_in).0 ≡ next (Response.ok Response.null)
unfolding change_password verify_old check_password hash_password get_admin_user
    update_admin_user_password del stmt attempt
change_runs = refl

changed_now : changed.now ≡ 1000
unfolding change_password verify_old check_password hash_password get_admin_user
    update_admin_user_password del stmt attempt
changed_now = refl

change_password-IsChanged_example :
    IsChanged env 1 change tables.admin_users changed.db.tables.admin_users
    × (find (λ u. u.id == 2 && is_live u) changed.db.tables.admin_users
        ≡ find (λ u. u.id == 2 && is_live u) tables.admin_users)
    × ((auth_middleware env "tok" changed).0 ≡ answer (fail 401 Code.unauthorized))
change_password-IsChanged_example =
    change_password-IsChanged env healthy redis-IsLawful env-IsHashing "tok" ada change 2 logged_in
      changed _ change_runs refl (omega (arith, changed_now)) (λ e. omega (arith, e))

check_lock-reopens_example :
    check_lock env "ada" (at 1900 guessed) ≡ (next tt, ticked (at 1900 guessed))
check_lock-reopens_example =
    check_lock-reopens env healthy redis-IsLawful "ada" 1000 "guess12" guesses 1900 world refl
      guesses-AreWrong (omega (arith, guessed_now)) (omega arith)

-- The second call is refused; the other attempts are a day apart.
abbrev lossy : ℕ → Fault
lossy n = if n == 1 then refused broken else fine

abbrev days : List (ℕ × String)
days = (87400, "guess12") ∷ (173800, "guess13") ∷ (260200, "hunter2") ∷ (346600, "guess12") ∷ []

days-AreWrong : AreWrong env "ada" database 1000 none days
days-AreWrong =
    let a = IsWrong-of_ne "guess12" refl in
    let b = IsWrong-of_ne "guess13" refl in
    let c = IsWrong-of_ne "hunter2" refl in
    let four : AreWrong env "ada" database 260200 none ((346600, "guess12") ∷ []) =
      (refl, a, omega arith, refl, tt) in
    let three : AreWrong env "ada" database 173800 none
        ((260200, "hunter2") ∷ (346600, "guess12") ∷ []) =
      (refl, c, omega arith, refl, four) in
    let two : AreWrong env "ada" database 87400 none
        ((173800, "guess13") ∷ (260200, "hunter2") ∷ (346600, "guess12") ∷ []) =
      (refl, b, omega arith, refl, three) in
    (refl, a, omega arith, refl, two)

abbrev forever : World Store
forever =
    after_logins env days "ada" (record_login_fail (record env { fault = lossy }) "ada" world).1

forever_now : forever.now ≡ 346600
unfolding after_logins login authenticate check_lock get_login_fail_count find_admin verify
    wrong_credentials record_login_fail incr count_up expire check_password
    get_admin_user_by_username get stmt attempt format_int parse_int login_fail_key
forever_now = refl

record_login_fail_locks_example :
    login env (some right) (at 999999 forever)
    ≡ (answer (fail 429 Code.too_many_login_fails), ticked (at 999999 forever))
record_login_fail_locks_example =
    record_login_fail_locks env lossy broken healthy redis-IsLawful "ada" right days 999999 world
      refl refl refl days-AreWrong (omega arith) refl refl (omega (arith, forever_now))

-- The handlers panic.
abbrev panics : World Store → Option (World Store)
panics w = some w
