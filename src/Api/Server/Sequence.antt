-- ===== src/Api/Server/Sequence.antt =====
-- api/server.go: whole requests, one after another, and the invariants of the database under them.
use template_golang_web.Base.{◌≡◌, arith, ◌∙◌, String, inl, inr, Bool-cases, List, [], ◌∷◌}
use template_golang_web.Env.{Env, World, AuthUser, stmt}
use template_golang_web.Db.Model.{Tables}
use template_golang_web.Db.OperationLogs.{CreateOperationLogParams, create_operation_log}
use template_golang_web.Db.Store.{StoreCall, run_call}
use template_golang_web.Db.Ledger.{IsReconciled}
use template_golang_web.Db.Ledger.Keeps.{run_call-IsReconciled}
use template_golang_web.Db.Registry.{IsRegistered}
use template_golang_web.Db.Registry.Calls.{run_call-IsRegistered}
use template_golang_web.Api.Handler.{next, answer, Outcome-cases}
use template_golang_web.Api.Middleware.{auth_middleware, has_permission, perm_middleware}
use template_golang_web.Api.Middleware.Session.{auth_middleware_sound}
use template_golang_web.Api.Audit.{audit_log_middleware, is_write_method}
use template_golang_web.Api.Server
use template_golang_web.Api.Server.{
  Route, Access, Request, public, logged_in, needs, access, method, handler, guarded, admitted,
  serve,
}
use template_golang_web.Api.Server.Reading
use template_golang_web.Api.Server.Writing
use template_golang_web.Api.Server.Writing.{IsStep}
use template_golang_web.Api.Server.Accounts

module _ {R : Type 0} (env : Env R) where
  handler-IsStep :
      (route : Route) (token : String) (user : AuthUser) (w : World R)
      → IsStep env w (handler env route token user w).1
  unfolding handler
  handler-IsStep Server.healthz token user w = inl (Reading.health_check_db env w)
  handler-IsStep Server.readyz token user w = inl (Reading.ready_check_db env w)
  handler-IsStep (Server.create_user body) token user w = Writing.create_user-IsStep env w body
  handler-IsStep (Server.login body) token user w = inl (Accounts.login_db env body w)
  handler-IsStep Server.logout token user w = inl (Writing.logout_db env w token user)
  handler-IsStep Server.me token user w = inl (Writing.me_db env w user)
  handler-IsStep (Server.change_password body) token user w =
      Accounts.change_password-IsStep env w token user body
  handler-IsStep Server.dashboard_stats token user w = inl (Reading.dashboard_stats_db env w user)
  handler-IsStep (Server.list_wallets query) token user w =
      inl (Reading.list_wallets_db env w query)
  handler-IsStep (Server.get_wallet id) token user w = inl (Reading.get_wallet_db env w id)
  handler-IsStep (Server.list_wallet_entries id query) token user w =
      inl (Reading.list_wallet_entries_db env w id query)
  handler-IsStep (Server.adjust_wallet id body) token user w =
      Writing.adjust_wallet-IsStep env w user id body
  handler-IsStep (Server.get_user id) token user w = inl (Reading.get_user_db env w id)
  handler-IsStep (Server.list_users query) token user w = inl (Reading.list_users_db env w query)
  handler-IsStep (Server.delete_user id) token user w = Writing.delete_user-IsStep env w id
  handler-IsStep (Server.restore_user id) token user w = Writing.restore_user-IsStep env w id
  handler-IsStep (Server.list_admin_users query) token user w =
      inl (Reading.list_admin_users_db env w query)
  handler-IsStep (Server.create_admin_user body) token user w =
      Writing.create_admin_user-IsStep env w body
  handler-IsStep (Server.update_admin_user_roles id body) token user w =
      Accounts.update_admin_user_roles-IsStep env w id body
  handler-IsStep (Server.delete_admin_user id) token user w =
      Accounts.delete_admin_user-IsStep env w user id
  handler-IsStep (Server.restore_admin_user id) token user w =
      Writing.restore_admin_user-IsStep env w id
  handler-IsStep Server.list_roles token user w = inl (Reading.list_roles_db env w)
  handler-IsStep (Server.list_operation_logs query) token user w =
      inl (Reading.list_operation_logs_db env w query)

  -- A step after a call that leaves the database alone is a step.
  IsStep-after : (w v w' : World R) → v.db ≡ w.db → IsStep env v w' → IsStep env w w'
  IsStep-after w v w' same (inl kept) = inl (kept ∙ same)
  IsStep-after w v w' same (inr (c, u, from, made)) = inr (c, u, from ∙ same, made)

  guarded-IsStep :
      (a : Access) (route : Route) (token : String) (user : AuthUser) (w : World R)
      → IsStep env w (guarded env a route token user w).1
  unfolding guarded perm_middleware
  guarded-IsStep public route token user w = handler-IsStep route token user w
  guarded-IsStep logged_in route token user w = handler-IsStep route token user w
  guarded-IsStep (needs code) route token user w =
      elim (Bool-cases (has_permission user.permissions code)) [
        | inr forbidden ↦ inl (ground arith)
        | inl permitted ↦
            let same : (guarded env (needs code) route token user w).1
                ≡ (handler env route token user w).1 =
              ground arith in
            rw same (handler-IsStep route token user w)
      ]

  admitted-IsStep-auth :
      (a : Access) (route : Route) (token : String) (w : World R)
      → (admitted env a route token w).1 ≡ (elim (auth_middleware env token w).0 [
        | answer r ↦ (auth_middleware env token w).1
        | next user ↦ (guarded env a route token user (auth_middleware env token w).1).1
      ])
      → IsStep env w (admitted env a route token w).1
  admitted-IsStep-auth a route token w h =
      let w1 = (auth_middleware env token w).1 in
      let (same, _) = auth_middleware_sound env token w in
      elim (Outcome-cases (auth_middleware env token w).0) [
        | inr (r, refused) ↦ inl (ground arith)
        | inl (user, on) ↦
            let went : (admitted env a route token w).1 ≡ (guarded env a route token user w1).1 =
              ground arith in
            rw went (
              IsStep-after w w1 (guarded env a route token user w1).1 same
                (guarded-IsStep a route token user w1))
      ]

  admitted-IsStep :
      (a : Access) (route : Route) (token : String) (w : World R)
      → IsStep env w (admitted env a route token w).1
  unfolding admitted
  admitted-IsStep public route token w = handler-IsStep route token _ w
  admitted-IsStep logged_in route token w =
      admitted-IsStep-auth logged_in route token w (ground arith)
  admitted-IsStep (needs code) route token w =
      admitted-IsStep-auth (needs code) route token w (ground arith)

  -- What every call of the store keeps.
  abbrev pub IsKept : (Tables → Type 0) → Type 0
  IsKept P = (c : StoreCall) (w : World R) → P w.db.tables → P (run_call env c w).db.tables

  step_keeps :
      (P : Tables → Type 0) (w w' : World R)
      → IsKept P
      → IsStep env w w'
      → P w.db.tables
      → P w'.db.tables
  step_keeps P w w' kept (inl same) p = rw same p
  step_keeps P w w' kept (inr (c, v, from, made)) p = rw made (kept c v (rw from p))

  log_keeps :
      (P : Tables → Type 0) (arg : CreateOperationLogParams) (w : World R)
      → IsKept P
      → P w.db.tables
      → P (stmt env (create_operation_log arg) w).1.db.tables
  log_keeps P arg w kept p = unfold run_call in (kept (StoreCall.create_operation_log arg) w p)

  pub serve_keeps :
      (P : Tables → Type 0) (req : Request) (w : World R)
      → IsKept P
      → P w.db.tables
      → P (serve env req w).1.db.tables
  unfolding serve audit_log_middleware
  serve_keeps P req w kept p =
      let ran = admitted env (access req.route) req.route req.token w in
      let after : P ran.1.db.tables =
        step_keeps P w ran.1 kept (admitted-IsStep (access req.route) req.route req.token w) p in
      elim (Bool-cases (is_write_method (method req.route))) [
        | inr reading ↦ rw reading after
        | inl writing ↦ rw writing (log_keeps P _ ran.1 kept after)
      ]

  -- Requests one after another.
  unfoldable pub serve_all : List Request → World R → World R
  serve_all [] w = w
  serve_all (req ∷ reqs) w = serve_all reqs (serve env req w).1

  -- From tables that are reconciled and registered, every sequence of requests, to any routes and
  -- with any tokens, leads to such tables, whichever of their calls fail: each balance is the sum of
  -- the wallet's entries, is not negative and fits a bigint, and no two live rows share a unique name.
  serve_all_keeps :
      (reqs : List Request) (w : World R)
      → IsReconciled w.db.tables
      → IsRegistered w.db.tables
      → IsReconciled (serve_all reqs w).db.tables × IsRegistered (serve_all reqs w).db.tables
  unfolding serve_all
  serve_all_keeps [] w i j = (i, j)
  serve_all_keeps (req ∷ reqs) w i j =
      serve_all_keeps reqs (serve env req w).1
        (serve_keeps IsReconciled req w (run_call-IsReconciled env) i)
        (serve_keeps IsRegistered req w (run_call-IsRegistered env) j)
