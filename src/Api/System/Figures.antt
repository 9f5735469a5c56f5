-- ===== src/Api/System/Figures.antt =====
-- api/dashboard.go: which figures an operator sees.
use template_golang_web.Base.{
  ◌≡◌, arith, true, false, String, Option, some, none, ◌⊎◌, inl, inr, Bool-cases,
}
use template_golang_web.Db.Error.{Result-cases}
use template_golang_web.Env.{Env, World, AuthUser, Call, stmt}
use template_golang_web.Db.Users
use template_golang_web.Db.Wallets
use template_golang_web.Api.Response
use template_golang_web.Api.Response.{Response, DashboardStats, stats}
use template_golang_web.Api.Handler.{next, Outcome-cases}
use template_golang_web.Api.Middleware.{has_permission}
use template_golang_web.Api.System.{permitted, count_today, dashboard_stats}

-- The figure is there exactly if the operator holds the permission.
abbrev pub IsShown : {A : Type 0} → AuthUser → String → Option A → Type 0
IsShown {A = A} user code figure =
    ((has_permission user.permissions code ≡ true) × ((a : A) × (figure ≡ some a)))
    ⊎ ((has_permission user.permissions code ≡ false) × (figure ≡ none))

module _ {R : Type 0} (env : Env R) where
  permitted-IsShown :
      {A : Type 0} (user : AuthUser) (code : String) (m : Call R A) (w : World R) (o : Option A)
      → (permitted env user code m w).0 ≡ next o
      → IsShown user code o
  unfolding permitted
  permitted-IsShown user code m w o h = elim (Bool-cases (has_permission user.permissions code)) [
    | inr hidden ↦ inr (hidden, ground arith)
    | inl held ↦ elim (Result-cases (m w).0) [
      | inl (a, done) ↦ inl (held, (a, ground arith))
      | inr (e, failed) ↦ absurd (ground arith)
    ]
  ]

  -- The figures of an answer with 200: each is there exactly if the operator holds its permission, or
  -- the wildcard.
  pub dashboard_stats-IsShown :
      (user : AuthUser) (w : World R) (r : Response)
      → (dashboard_stats env user w).0 ≡ next r
      → (s : DashboardStats) × (r ≡ Response.ok (stats s))
        × IsShown user "user:read" s.user_count
        × IsShown user "wallet:read" s.wallet_balance_total
        × IsShown user "operation_log:read" s.today_operation_count
  unfolding dashboard_stats
  dashboard_stats-IsShown user w r h =
      let count = stmt env (Users.count_users false) in
      let sum = stmt env Wallets.sum_wallet_balances in
      let w1 = (permitted env user "user:read" count w).1 in
      let w2 = (permitted env user "wallet:read" sum w1).1 in
      elim (Outcome-cases (permitted env user "user:read" count w).0) [
        | inr (s, refused) ↦ absurd (ground arith)
        | inl (a, first) ↦ elim (Outcome-cases (permitted env user "wallet:read" sum w1).0) [
          | inr (s, refused) ↦ absurd (ground arith)
          | inl (b, second) ↦
              elim (Outcome-cases
                (permitted env user "operation_log:read" (count_today env) w2).0) [
                  | inr (s, refused) ↦ absurd (ground arith)
                  | inl (c, third) ↦ (
                    record { user_count = a; wallet_balance_total = b; today_operation_count = c },
                    ground arith,
                    permitted-IsShown user "user:read" count w a first,
                    permitted-IsShown user "wallet:read" sum w1 b second,
                    permitted-IsShown user "operation_log:read" (count_today env) w2 c third,
                  )
                ]
        ]
      ]
