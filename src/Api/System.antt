-- ===== src/Api/System.antt =====
-- api/system.go and api/dashboard.go: the two probes and the figures of the start page.
pub mod Figures
use template_golang_web.Base.{ℕ, String, true, false, Option, none, some}
use template_golang_web.Db.Users
use template_golang_web.Db.Wallets
use template_golang_web.Db.OperationLogs
use template_golang_web.Db.Tx
use template_golang_web.Cache
use template_golang_web.Env.{Env, AuthUser, Call, stmt}
use template_golang_web.Errcode.{Code}
use template_golang_web.Api.Response
use template_golang_web.Api.Response.{Response, text, stats, fail}
use template_golang_web.Api.Handler.{next, Handler, ◌>>=◌, ◌>>◌, done, refuse, call_or, call}
use template_golang_web.Api.Middleware.{has_permission}

module _ {R : Type 0} (env : Env R) where
  unfoldable pub health_check : Handler R Response
  health_check = done (Response.ok (text "ok"))

  unfoldable pub ready_check : Handler R Response
  ready_check = do
    call_or (Tx.ping env) (λ _. refuse (fail 503 Code.not_ready))
    call_or (Cache.ping env) (λ _. refuse (fail 503 Code.not_ready))
    done (Response.ok (text "ready"))

  -- `if user.HasPermission(code) { ... }`: the call is made only with the permission.
  unfoldable pub permitted : {A : Type 0} → AuthUser → String → Call R A → Handler R (Option A)
  permitted user code m w = elim (has_permission user.permissions code) [
    | false ↦ (next none, w)
    | true ↦ (do a ← call m; done (some a)) w
  ]

  -- CountOperationLogsSince(ctx, startOfDay)
  abbrev pub count_today : Call R ℕ
  count_today w = stmt env (OperationLogs.count_operation_logs_since (env.start_of_day w.now)) w

  unfoldable pub dashboard_stats : AuthUser → Handler R Response
  dashboard_stats user = do
    user_count ← permitted user "user:read" (stmt env (Users.count_users false))
    total ← permitted user "wallet:read" (stmt env Wallets.sum_wallet_balances)
    today ← permitted user "operation_log:read" count_today
    done (
        Response.ok (
          stats (record {
            user_count = user_count;
            wallet_balance_total = total;
            today_operation_count = today;
          })))
