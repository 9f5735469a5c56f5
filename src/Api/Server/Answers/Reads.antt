-- ===== src/Api/Server/Answers/Reads.antt =====
-- The answers of the probes, of the lists, and of the handlers of users and wallets.
use template_golang_web.Base.{ℕ, Bool-cases, inl, inr, String, Option, some, refl}
use template_golang_web.Env.{Env, Call, AuthUser}
use template_golang_web.Api.Page.{PageRequest}
use template_golang_web.Api.Handler.{call, done, ◌>>=◌}
use template_golang_web.Api.Users
use template_golang_web.Api.Users.{CreateUserRequest}
use template_golang_web.Api.Wallets
use template_golang_web.Api.Wallets.{AdjustWalletRequest}
use template_golang_web.Api.AdminUsers
use template_golang_web.Api.System
use template_golang_web.Api.Audit
use template_golang_web.Api.Middleware.{has_permission}
use template_golang_web.Api.Server.Answers.{IsEnveloping, IsWell, answer_rules}

module _ {R : Type 0} (env : Env R) where
  pub health_check-IsEnveloping : IsEnveloping (System.health_check env)
  unfolding System.health_check
  health_check-IsEnveloping = search answer_rules

  pub ready_check-IsEnveloping : IsEnveloping (System.ready_check env)
  unfolding System.ready_check
  ready_check-IsEnveloping = search answer_rules

  permitted-IsWell :
      {A : Type 0} (user : AuthUser) (code : String) (m : Call R A)
      → IsWell (System.permitted env user code m)
  unfolding System.permitted
  permitted-IsWell user code m =
      let asks : IsWell (do a ← call m; done (some a)) = search answer_rules in
      record {
        refusals = λ w. elim (Bool-cases (has_permission user.permissions code)) [
          | inr denied ↦ rw (denied, System.permitted) refl
          | inl held ↦ rw (held, System.permitted) (asks.refusals w)
        ];
      }

  pub dashboard_stats-IsEnveloping :
      (user : AuthUser) → IsEnveloping (System.dashboard_stats env user)
  unfolding System.dashboard_stats
  dashboard_stats-IsEnveloping user = search (answer_rules, permitted-IsWell)

  pub create_user-IsEnveloping :
      (body : Option CreateUserRequest) → IsEnveloping (Users.create_user env body)
  unfolding Users.create_user
  create_user-IsEnveloping body = search answer_rules depth 9

  pub get_user-IsEnveloping : (id : Option ℕ) → IsEnveloping (Users.get_user env id)
  unfolding Users.get_user
  get_user-IsEnveloping id = search answer_rules

  pub list_users-IsEnveloping :
      (query : Option PageRequest) → IsEnveloping (Users.list_users env query)
  unfolding Users.list_users
  list_users-IsEnveloping query = search answer_rules

  pub delete_user-IsEnveloping : (id : Option ℕ) → IsEnveloping (Users.delete_user env id)
  unfolding Users.delete_user
  delete_user-IsEnveloping id = search answer_rules

  pub restore_user-IsEnveloping : (id : Option ℕ) → IsEnveloping (Users.restore_user env id)
  unfolding Users.restore_user
  restore_user-IsEnveloping id = search answer_rules

  pub list_wallets-IsEnveloping :
      (query : Option PageRequest) → IsEnveloping (Wallets.list_wallets env query)
  unfolding Wallets.list_wallets
  list_wallets-IsEnveloping query = search answer_rules

  pub get_wallet-IsEnveloping : (id : Option ℕ) → IsEnveloping (Wallets.get_wallet env id)
  unfolding Wallets.get_wallet
  get_wallet-IsEnveloping id = search answer_rules

  pub adjust_wallet-IsEnveloping :
      (user : AuthUser) (id : Option ℕ) (body : Option AdjustWalletRequest)
      → IsEnveloping (Wallets.adjust_wallet env user id body)
  unfolding Wallets.adjust_wallet
  adjust_wallet-IsEnveloping user id body = search answer_rules depth 9

  pub list_wallet_entries-IsEnveloping :
      (id : Option ℕ) (query : Option PageRequest)
      → IsEnveloping (Wallets.list_wallet_entries env id query)
  unfolding Wallets.list_wallet_entries
  list_wallet_entries-IsEnveloping id query = search answer_rules

  pub list_admin_users-IsEnveloping :
      (query : Option PageRequest) → IsEnveloping (AdminUsers.list_admin_users env query)
  unfolding AdminUsers.list_admin_users
  list_admin_users-IsEnveloping query = search answer_rules

  pub list_roles-IsEnveloping : IsEnveloping (AdminUsers.list_roles env)
  unfolding AdminUsers.list_roles
  list_roles-IsEnveloping = search answer_rules

  pub list_operation_logs-IsEnveloping :
      (query : Option PageRequest) → IsEnveloping (Audit.list_operation_logs env query)
  unfolding Audit.list_operation_logs
  list_operation_logs-IsEnveloping query = search answer_rules
