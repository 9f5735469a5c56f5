-- ===== src/Tests/Requests.antt =====
-- The theorems on the layers of a request and on its log at a small installation.
use template_golang_web.Base.{
  pos, ◌+ℤ◌, List, [], ◌∷◌, none, ◌≡◌, ◌≢◌, refl, ◌⊎◌, true, Option, some, negsuc,
}
use template_golang_web.Env.{World, AuthUser, stmt, attempt}
use template_golang_web.Utf8.{is_text}
use template_golang_web.Db.OperationLogs.{is_loggable}
use template_golang_web.Errcode
use template_golang_web.Api.Response
use template_golang_web.Api.Response.{Response, fail, DashboardStats, stats}
use template_golang_web.Api.System.{dashboard_stats, permitted}
use template_golang_web.Api.System.Figures.{IsShown, dashboard_stats-IsShown}
use template_golang_web.Api.Middleware.{has_permission}
use template_golang_web.Db.Users.{count_users}
use template_golang_web.Db.Wallets.{sum_wallet_balances}
use template_golang_web.Db.OperationLogs.{count_operation_logs_since}
use template_golang_web.Api.Handler.{answered, next}
use template_golang_web.Api.Audit.{
  mask_object, mask_sensitive_fields, is_sensitive, is_write_method, audit_body,
  audit_log_middleware, log_params,
}
use template_golang_web.Api.Audit.Logging.{
  IsLogged, audit_log_middleware-IsLogged, audit_log_middleware_writes,
}
use template_golang_web.Api.Wallets.{AdjustWalletRequest, adjust_wallet}
use template_golang_web.Api.Wallets.Statuses.{adjust_params, adjust_status, adjust_wallet-status}
use template_golang_web.Db.Tx.Verdict.{adjust_error}
use template_golang_web.Api.Server.{Route, Access, access, admitted, needs}
use template_golang_web.Api.Server
use template_golang_web.Api.Server.Admission.{IsRefused, IsAdmitted, admitted_sound}
use template_golang_web.Api.Server.{Request}
use template_golang_web.Api.Server.Sequence.{serve_all}
use template_golang_web.Api.Server.Bookkeeping.{serve_all-IsRecorded}
use template_golang_web.Db.Ledger.Book.{IsRecorded}
use template_golang_web.Db.Roles.{list_permission_codes_by_admin_user_id}
use template_golang_web.Db.Error
use template_golang_web.Api.Middleware.Rights.{is_granted, has_permission-is_granted}
use template_golang_web.Tests.Redis.{Store}
use template_golang_web.Tests.Fixture.{
  env, healthy, tables, database, world, with_session, ada, plain_body,
}

abbrev payout : AdjustWalletRequest
payout = record { amount = negsuc 499; note = "too much" }

adjust_wallet-status_example :
    (answered (adjust_wallet env ada (some 1) (some payout) world).0).status
    ≡ adjust_status (adjust_error (adjust_params ada 1 payout) tables)
adjust_wallet-status_example = adjust_wallet-status env healthy ada 1 payout world refl refl refl

abbrev route : Route
route = Server.adjust_wallet (some 1) (some payout)

needs-ne-public : needs "wallet:write" ≢ Server.public
needs-ne-public e = cc

admitted_sound_example :
    IsRefused env
      (with_session 1 "tok")
      (admitted env (needs "wallet:write") route "tok" (with_session 1 "tok"))
    ⊎ IsAdmitted env
        (needs "wallet:write")
        "tok"
        (with_session 1 "tok")
        (admitted env (needs "wallet:write") route "tok" (with_session 1 "tok")).0.1
admitted_sound_example =
    admitted_sound env (needs "wallet:write") route "tok" (with_session 1 "tok") needs-ne-public

-- Handlers that answer 404 to the operator and change nothing.
abbrev missing : World Store → (Response × Option AuthUser) × World Store
missing w = (
  (
    record { status = 404; code = Errcode.Code.not_found; msg = ""; payload = Response.null },
    some ada,
  ),
  w,
)

audit_log_middleware-IsLogged_example :
    ((audit_log_middleware env "POST" "/x" (some plain_body) "r1" missing world).0
      ≡ (missing world).0.0)
    × (((audit_log_middleware env "POST" "/x" (some plain_body) "r1" missing world).1.db.tables
          ≡ tables)
        ⊎ ((is_write_method "POST" ≡ true)
            × IsLogged env "POST" "/x"
                (some plain_body)
                "r1"
                (missing world)
                (audit_log_middleware env "POST" "/x" (some plain_body) "r1" missing world).1))
audit_log_middleware-IsLogged_example =
    audit_log_middleware-IsLogged env "POST" "/x" (some plain_body) "r1" missing world

readable :
    is_loggable (
      log_params env "POST" "/x"
        (some plain_body)
        "r1"
        (missing world).0.1
        (missing world).0.0.status)
    ≡ true
unfolding mask_sensitive_fields mask_object is_sensitive audit_body is_text log_params
readable = refl

writing : is_write_method "POST" ≡ true
unfolding is_write_method
writing = refl

audit_log_middleware_writes_example :
    IsLogged env "POST" "/x"
      (some plain_body)
      "r1"
      (missing world)
      (audit_log_middleware env "POST" "/x" (some plain_body) "r1" missing world).1
audit_log_middleware_writes_example =
    audit_log_middleware_writes env healthy "POST" "/x" (some plain_body) "r1" missing world writing
      readable refl

-- The payout by the operator who is logged in, and a request without a session.
abbrev pub payout_request : Request
payout_request = record {
  route = route;
  path = "/wallets/1/adjust";
  token = "tok";
  body = some plain_body;
  request_id = "r1";
}

abbrev requests : List Request
requests =
    payout_request
    ∷ record { route = Server.logout; path = "/logout"; token = ""; body = none; request_id = "r2" }
    ∷ []

serve_all-IsRecorded_example :
    IsRecorded tables (serve_all env requests (with_session 1 "tok")).db.tables
serve_all-IsRecorded_example = serve_all-IsRecorded env requests (with_session 1 "tok")

codes_run :
    (list_permission_codes_by_admin_user_id env.collate 1 1000 database).0 ≡ Error.ok ("*" ∷ [])
unfolding list_permission_codes_by_admin_user_id
codes_run = refl

has_permission-is_granted_example :
    has_permission ("*" ∷ []) "user:read" ≡ is_granted tables 1 "user:read"
has_permission-is_granted_example =
    has_permission-is_granted env.collate 1 1000 database ("*" ∷ []) "user:read" codes_run

figures_run :
    (dashboard_stats env ada world).0
    ≡ next (
        Response.ok (
          stats (record {
            user_count = some 1;
            wallet_balance_total = some (pos 100);
            today_operation_count = some 0;
          })))
unfolding dashboard_stats permitted has_permission count_users sum_wallet_balances
    count_operation_logs_since stmt attempt ◌+ℤ◌
figures_run = refl

dashboard_stats-IsShown_example :
    (s : DashboardStats) × (Response.ok (
        stats (record {
          user_count = some 1;
          wallet_balance_total = some (pos 100);
          today_operation_count = some 0;
        }))
      ≡ Response.ok (stats s))
    × IsShown ada "user:read" s.user_count
    × IsShown ada "wallet:read" s.wallet_balance_total
    × IsShown ada "operation_log:read" s.today_operation_count
dashboard_stats-IsShown_example = dashboard_stats-IsShown env ada world _ figures_run
