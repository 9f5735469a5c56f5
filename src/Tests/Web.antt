-- ===== src/Tests/Web.antt =====
-- The theorems on the handlers and the layers at a small installation.
use template_golang_web.Base.{
  ℕ, ◌+◌, ◌≤◌, ◌≡◌, ◌≢◌, refl, sym, ap, ◌∙◌, ◌&&◌, arith, String, str_eq, false, some, none, List,
  [], ◌∷◌, All, find, ◌==◌,
}
use template_golang_web.Db.Model.{AdminUser}
use template_golang_web.Db.Roles.{list_permission_codes_by_admin_user_id}
use template_golang_web.Db.AdminUsers.{is_live, soft_delete_admin_user}
use template_golang_web.Env.{World, attempt, stmt, ticked}
use template_golang_web.Cache.{get, set, del, incr, count_up, expire}
use template_golang_web.Cache.Keys.{login_fail_key, session_key, admin_session_key}
use template_golang_web.Cache.Keys.{first}
use template_golang_web.Strconv.{format_int, parse_int}
use template_golang_web.Errcode.{Code}
use template_golang_web.Api.Response
use template_golang_web.Api.Response.{Response, fail, login_result, new_admin_user_response}
use template_golang_web.Api.Handler.{next, answer}
use template_golang_web.Api.Auth.{
  LoginRequest, login, logout, open_session, session_user, check_password, encode_user, new_token,
  replace_session, drop_previous, put_session, put_index, kick_admin_session,
}
use template_golang_web.Api.Auth.Lock.{IsWrong}
use template_golang_web.Api.Auth.Timed.{at}
use template_golang_web.Api.Auth.Attempts.{
  AreWrong, login_with, after_logins, answers, login-few_wrong, login-many_wrong,
}
use template_golang_web.Api.Auth.Opening.{
  IsOpened, open_session-IsOpened, open_session-admitted, open_session-expires,
}
use template_golang_web.Api.Auth.Replacement.{open_session-IsGone}
use template_golang_web.Api.Auth.Revocation.{logout-IsGone}
use template_golang_web.Api.Auth.Credentials.{IsOwner, login-IsOwner}
use template_golang_web.Db.AdminUsers.{get_admin_user_by_username}
use template_golang_web.Api.Auth.{
  authenticate, check_lock, get_login_fail_count, find_admin, verify, wrong_credentials,
  record_login_fail,
}
use template_golang_web.Api.Middleware.Rights.{IsExact}
use template_golang_web.Api.Middleware.{auth_middleware}
use template_golang_web.Api.AdminUsers.{delete_admin_user}
use template_golang_web.Api.AdminUsers.Deletion.{delete_admin_user-eq-next}
use template_golang_web.Api.AdminUsers.Eviction.{delete_admin_user-IsGone}
use template_golang_web.Tests.Redis.{Store, redis-IsLawful}
use template_golang_web.Tests.Fixture.{
  env, healthy, env-IsCodec, tables, world, ada, with_session, database,
}

abbrev ada_row : AdminUser
ada_row = record {
  id = 1;
  username = "ada";
  hashed_password = "adaspass";
  created_at = 900;
  deleted_at = none;
}

abbrev pub right : LoginRequest
right = record { username = "ada"; password = "adaspass" }

-- A password that is not that of the account.
pub IsWrong-of_ne :
    (password : String)
    → str_eq "adaspass" password ≡ false
    → IsWrong env (login_with "ada" password) database
unfolding check_password
IsWrong-of_ne password other user h =
    let same : ada_row ≡ user = ground arith in rw (sym same) (ground (arith, other))

-- Four attempts after the first, at three times and with three passwords.
abbrev pub guesses : List (ℕ × String)
guesses = (1000, "guess12") ∷ (1100, "guess13") ∷ (1100, "hunter2") ∷ (1899, "guess12") ∷ []

pub guesses-AreWrong : AreWrong env "ada" database 1000 (some 1900) ((1000, "guess12") ∷ guesses)
guesses-AreWrong =
    let a = IsWrong-of_ne "guess12" refl in
    let b = IsWrong-of_ne "guess13" refl in
    let c = IsWrong-of_ne "hunter2" refl in
    let o : 1000 ≤ 1000 = omega arith in
    let four : AreWrong env "ada" database 1100 (some 1900) ((1899, "guess12") ∷ []) =
      (refl, a, omega arith, refl, tt) in
    let three : AreWrong env "ada" database 1100 (some 1900)
        ((1100, "hunter2") ∷ (1899, "guess12") ∷ []) =
      (refl, c, omega arith, refl, four) in
    let two : AreWrong env "ada" database 1000 (some 1900)
        ((1100, "guess13") ∷ (1100, "hunter2") ∷ (1899, "guess12") ∷ []) =
      (refl, b, omega arith, refl, three) in
    (refl, a, o, refl, (refl, a, o, refl, two))

login-few_wrong_example :
    All
      (λ o. o ≡ answer (fail 401 Code.wrong_credentials))
      (answers env ((1000, "guess12") ∷ guesses) "ada" world)
login-few_wrong_example =
    login-few_wrong env healthy redis-IsLawful "ada" 1000 "guess12" guesses world refl
      guesses-AreWrong (omega arith)

abbrev pub guessed : World Store
guessed = after_logins env ((1000, "guess12") ∷ guesses) "ada" world

pub guessed_now : guessed.now ≡ 1899
unfolding after_logins login authenticate check_lock get_login_fail_count find_admin verify
    wrong_credentials record_login_fail incr count_up expire check_password
    get_admin_user_by_username get stmt attempt format_int parse_int login_fail_key
guessed_now = refl

login-many_wrong_example :
    login env (some right) (at 1899 guessed)
    ≡ (answer (fail 429 Code.too_many_login_fails), ticked (at 1899 guessed))
login-many_wrong_example =
    login-many_wrong env healthy redis-IsLawful "ada" right 1000 "guess12" guesses 1899 world refl
      guesses-AreWrong (omega arith) refl refl (omega (arith, guessed_now)) (omega arith)

abbrev welcome : Response
welcome = Response.ok (login_result "t1" (new_admin_user_response ada_row))

open_runs : (open_session env ada_row world).0 ≡ next welcome
unfolding open_session encode_user new_token replace_session drop_previous put_session put_index
    list_permission_codes_by_admin_user_id get set del stmt attempt format_int
open_runs = refl

abbrev welcome_again : Response
welcome_again = Response.ok (login_result "t1" (new_admin_user_response ada_row))

abbrev token_of : Response → String
token_of r = elim r.payload [ login_result token _ ↦ token | _ ↦ "" ]

token-ne-old :
    (token : String)
    → welcome_again ≡ Response.ok (login_result token (new_admin_user_response ada_row))
    → token ≢ "old"
unfolding new_admin_user_response Response.ok
token-ne-old token reply e =
    let same : "t1" ≡ token = ap token_of reply in omega (arith, ap first (same ∙ e))

abbrev opened : World Store
opened = (open_session env ada_row world).1

open_session-IsOpened_example : IsOpened env ada_row welcome database opened opened.now
open_session-IsOpened_example =
    open_session-IsOpened env redis-IsLawful ada_row world welcome opened.now open_runs
      (omega arith) (omega arith)

open_session-admitted_example :
    (token : String) × (permissions : List String) × (welcome
      ≡ Response.ok (login_result token (new_admin_user_response ada_row)))
    × IsExact tables 1 permissions
    × ((auth_middleware env token opened).0 ≡ next (session_user ada_row permissions))
open_session-admitted_example =
    open_session-admitted env redis-IsLawful env-IsCodec ada_row world opened welcome open_runs refl
      (omega arith) (omega arith) refl

abbrev expired : World Store
expired = record opened { now = 4600 }

opened_now : opened.now ≡ 1000
unfolding open_session encode_user new_token replace_session drop_previous put_session put_index
    list_permission_codes_by_admin_user_id get set del stmt attempt format_int admin_session_key
opened_now = refl

open_session-expires_example :
    (token : String) × (welcome
      ≡ Response.ok (login_result token (new_admin_user_response ada_row)))
    × ((auth_middleware env token expired).0 ≡ answer (fail 401 Code.unauthorized))
open_session-expires_example =
    open_session-expires env redis-IsLawful ada_row world expired welcome (omega arith) open_runs
      refl (omega (arith, opened_now)) refl

abbrev logged_in : World Store
logged_in = with_session 1 "old"

again_runs : (open_session env ada_row logged_in).0 ≡ next welcome_again
unfolding open_session encode_user new_token replace_session drop_previous put_session put_index
    list_permission_codes_by_admin_user_id get set del stmt attempt format_int admin_session_key
again_runs = refl

abbrev again : World Store
again = (open_session env ada_row logged_in).1

again_now : again.now ≡ 1000
unfolding open_session encode_user new_token replace_session drop_previous put_session put_index
    list_permission_codes_by_admin_user_id get set del stmt attempt format_int admin_session_key
again_now = refl

open_session-IsGone_example :
    (auth_middleware env "old" again).0 ≡ answer (fail 401 Code.unauthorized)
unfolding session_key admin_session_key format_int
open_session-IsGone_example =
    open_session-IsGone env healthy redis-IsLawful ada_row "old" logged_in again welcome_again
      token-ne-old again_runs refl refl (omega (arith, again_now))

abbrev done : Response
done = Response.ok Response.null

logout_runs : (logout env "old" ada logged_in).0 ≡ next done
unfolding logout del attempt
logout_runs = refl

abbrev logged_out : World Store
logged_out = (logout env "old" ada logged_in).1

logged_out_now : logged_out.now ≡ 1000
unfolding logout del attempt
logged_out_now = refl

logout-IsGone_example :
    ((auth_middleware env "old" logged_out).0 ≡ answer (fail 401 Code.unauthorized))
    × (env.redis.get logged_out.now (session_key "new") logged_out.cache
        ≡ env.redis.get logged_out.now (session_key "new") logged_in.cache)
logout-IsGone_example =
    logout-IsGone env redis-IsLawful "old" "new" ada logged_in logged_out done logout_runs refl
      (omega (arith, logged_out_now)) refl (λ e. omega (arith, ap first e))

abbrev bob_in : World Store
bob_in = with_session 2 "tok"

deletion_runs : (delete_admin_user env ada (some 2) bob_in).0 ≡ next done
unfolding delete_admin_user kick_admin_session get del soft_delete_admin_user stmt attempt
    admin_session_key format_int
deletion_runs = refl

abbrev deleted : World Store
deleted = (delete_admin_user env ada (some 2) bob_in).1

deleted_now : deleted.now ≡ 1000
unfolding delete_admin_user kick_admin_session get del soft_delete_admin_user stmt attempt
    admin_session_key format_int
deleted_now = refl

delete_admin_user-eq-next_example :
    (ada.user_id + 1 ≢ ada.user_id)
    × (find (λ u. u.id == 2 && is_live u) tables.admin_users ≢ none)
    × (find (λ u. u.id == 2 && is_live u) deleted.db.tables.admin_users ≡ none)
    × (find (λ u. u.id == 1 && is_live u) deleted.db.tables.admin_users
        ≡ find (λ u. u.id == 1 && is_live u) tables.admin_users)
delete_admin_user-eq-next_example =
    delete_admin_user-eq-next env ada 2 1 bob_in done deletion_runs (λ e. omega (arith, e))

delete_admin_user-IsGone_example :
    (auth_middleware env "tok" deleted).0 ≡ answer (fail 401 Code.unauthorized)
unfolding admin_session_key format_int
delete_admin_user-IsGone_example =
    delete_admin_user-IsGone env healthy redis-IsLawful ada 2 "tok" bob_in deleted done
      deletion_runs refl refl (omega (arith, deleted_now))

login_runs :
    (login env (some right) world).0
    ≡ next (Response.ok (login_result "t4" (new_admin_user_response ada_row)))
unfolding login authenticate check_lock get_login_fail_count find_admin verify check_password
    get_admin_user_by_username open_session encode_user new_token replace_session drop_previous
    put_session put_index list_permission_codes_by_admin_user_id get set del stmt attempt format_int
    login_fail_key admin_session_key Response.ok new_admin_user_response
login_runs = refl

login-IsOwner_example : (user : AdminUser) × IsOwner env right user world
login-IsOwner_example = login-IsOwner env right world _ login_runs
