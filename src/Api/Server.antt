-- ===== src/Api/Server.antt =====
-- api/server.go: the routes, each with the layers that guard it, and how a request goes through
-- them. gin's router matches the method and the path; here a request names its route, with the
-- decoded parameters and body, where `none` does not decode.
pub mod Admission
pub mod Reading
pub mod Writing
pub mod Accounts
pub mod Sequence
pub mod Bookkeeping
pub mod Answers
use template_golang_web.Base.{ℕ, String, Option, none, some, List, []}
use template_golang_web.Env.{Env, World, AuthUser}
use template_golang_web.Api.Response.{Response}
use template_golang_web.Api.Handler.{Outcome, next, answer, answered, Handler, ◌>>=◌, ◌>>◌, done}
use template_golang_web.Api.Page.{PageRequest}
use template_golang_web.Api.Auth.{LoginRequest, ChangePasswordRequest}
use template_golang_web.Api.Auth
use template_golang_web.Api.Middleware.{auth_middleware, perm_middleware}
use template_golang_web.Api.Users.{CreateUserRequest}
use template_golang_web.Api.Users
use template_golang_web.Api.Wallets.{AdjustWalletRequest}
use template_golang_web.Api.Wallets
use template_golang_web.Api.AdminUsers.{CreateAdminUserRequest}
use template_golang_web.Api.AdminUsers
use template_golang_web.Api.System
use template_golang_web.Api.Audit
use template_golang_web.Api.Audit.{Bytes, audit_log_middleware}

pub data Route : Type 0 where
  healthz : Route
  readyz : Route
  create_user : Option CreateUserRequest → Route
  login : Option LoginRequest → Route
  logout : Route
  me : Route
  change_password : Option ChangePasswordRequest → Route
  dashboard_stats : Route
  list_wallets : Option PageRequest → Route
  get_wallet : Option ℕ → Route
  list_wallet_entries : Option ℕ → Option PageRequest → Route
  adjust_wallet : Option ℕ → Option AdjustWalletRequest → Route
  get_user : Option ℕ → Route
  list_users : Option PageRequest → Route
  delete_user : Option ℕ → Route
  restore_user : Option ℕ → Route
  list_admin_users : Option PageRequest → Route
  create_admin_user : Option CreateAdminUserRequest → Route
  update_admin_user_roles : Option ℕ → Option (List ℕ) → Route
  delete_admin_user : Option ℕ → Route
  restore_admin_user : Option ℕ → Route
  list_roles : Route
  list_operation_logs : Option PageRequest → Route

-- Who may use a route: everybody, who is logged in, or who holds a permission too.
pub data Access : Type 0 where
  public : Access
  logged_in : Access
  needs : String → Access

unfoldable pub access : Route → Access
access healthz = public
access readyz = public
access (create_user _) = public
access (login _) = public
access logout = logged_in
access me = logged_in
access (change_password _) = logged_in
access dashboard_stats = logged_in
access (list_wallets _) = needs "wallet:read"
access (get_wallet _) = needs "wallet:read"
access (list_wallet_entries _ _) = needs "wallet:read"
access (adjust_wallet _ _) = needs "wallet:write"
access (get_user _) = needs "user:read"
access (list_users _) = needs "user:read"
access (delete_user _) = needs "user:write"
access (restore_user _) = needs "user:write"
access (list_admin_users _) = needs "admin_user:read"
access (create_admin_user _) = needs "admin_user:write"
access (update_admin_user_roles _ _) = needs "admin_user:write"
access (delete_admin_user _) = needs "admin_user:write"
access (restore_admin_user _) = needs "admin_user:write"
access list_roles = needs "admin_user:read"
access (list_operation_logs _) = needs "operation_log:read"

unfoldable pub method : Route → String
method healthz = "GET"
method readyz = "GET"
method (create_user _) = "POST"
method (login _) = "POST"
method logout = "POST"
method me = "GET"
method (change_password _) = "PUT"
method dashboard_stats = "GET"
method (list_wallets _) = "GET"
method (get_wallet _) = "GET"
method (list_wallet_entries _ _) = "GET"
method (adjust_wallet _ _) = "POST"
method (get_user _) = "GET"
method (list_users _) = "GET"
method (delete_user _) = "DELETE"
method (restore_user _) = "PUT"
method (list_admin_users _) = "GET"
method (create_admin_user _) = "POST"
method (update_admin_user_roles _ _) = "PUT"
method (delete_admin_user _) = "DELETE"
method (restore_admin_user _) = "PUT"
method list_roles = "GET"
method (list_operation_logs _) = "GET"

pub record Request : Type 0 where
  pub route : Route
  pub path : String
  pub token : String
  pub body : Option Bytes
  pub request_id : String

abbrev pub anonymous : AuthUser
anonymous = record { user_id = 0; username = ""; permissions = [] }

module _ {R : Type 0} (env : Env R) where
  -- The handler of a route, for the user that the layers above have admitted.
  unfoldable pub handler : Route → String → AuthUser → Handler R Response
  handler healthz token user = System.health_check env
  handler readyz token user = System.ready_check env
  handler (create_user body) token user = Users.create_user env body
  handler (login body) token user = Auth.login env body
  handler logout token user = Auth.logout env token user
  handler me token user = Auth.me env user
  handler (change_password body) token user = Auth.change_password env token user body
  handler dashboard_stats token user = System.dashboard_stats env user
  handler (list_wallets query) token user = Wallets.list_wallets env query
  handler (get_wallet id) token user = Wallets.get_wallet env id
  handler (list_wallet_entries id query) token user = Wallets.list_wallet_entries env id query
  handler (adjust_wallet id body) token user = Wallets.adjust_wallet env user id body
  handler (get_user id) token user = Users.get_user env id
  handler (list_users query) token user = Users.list_users env query
  handler (delete_user id) token user = Users.delete_user env id
  handler (restore_user id) token user = Users.restore_user env id
  handler (list_admin_users query) token user = AdminUsers.list_admin_users env query
  handler (create_admin_user body) token user = AdminUsers.create_admin_user env body
  handler (update_admin_user_roles id body) token user =
      AdminUsers.update_admin_user_roles env id body
  handler (delete_admin_user id) token user = AdminUsers.delete_admin_user env user id
  handler (restore_admin_user id) token user = AdminUsers.restore_admin_user env id
  handler list_roles token user = AdminUsers.list_roles env
  handler (list_operation_logs query) token user = Audit.list_operation_logs env query

  abbrev pub finish :
      Option AuthUser → Outcome Response × World R → (Response × Option AuthUser) × World R
  finish user (o, w) = ((answered o, user), w)

  -- The handler behind its permission.
  unfoldable pub guarded : Access → Route → String → AuthUser → Handler R Response
  guarded public route token user = handler route token user
  guarded logged_in route token user = handler route token user
  guarded (needs code) route token user = do perm_middleware env code user; handler route token user

  unfoldable pub admitted :
      Access → Route → String → World R → (Response × Option AuthUser) × World R
  admitted public route token w = finish none (handler route token anonymous w)
  admitted a route token w =
      let (o, w') = auth_middleware env token w in
      elim o [
        | answer r ↦ ((r, none), w')
        | next user ↦ finish (some user) (guarded a route token user w')
      ]

  -- One request, from the audit layer down.
  unfoldable pub serve : Request → World R → Response × World R
  serve req =
      audit_log_middleware env (method req.route) req.path req.body req.request_id
        (admitted (access req.route) req.route req.token)
