-- ===== src/Api/Auth/Credentials.antt =====
-- api/auth.go: who can log in.
use template_golang_web.Base.{
  ◌≡◌, arith, String, str_eq, true, ◌&&◌, some, find, Bool-cases, inl, inr,
}
use template_golang_web.Db.Model.{AdminUser}
use template_golang_web.Db.Error.{Result-cases}
use template_golang_web.Db.AdminUsers.{is_live, get_admin_user_by_username}
use template_golang_web.Db.Tx.Atomic.{stmt-eq-ok}
use template_golang_web.Env.{Env, World, stmt}
use template_golang_web.Cache.{get}
use template_golang_web.Api.Response.{Response}
use template_golang_web.Api.Handler.{next, Outcome-cases}
use template_golang_web.Api.Auth.{
  LoginRequest, is_valid_login, check_password, get_login_fail_count, wrong_credentials, find_admin,
  verify, check_lock, authenticate, login,
}

module _ {R : Type 0} (env : Env R) where
  pub check_lock_same : (name : String) (w : World R) → (check_lock env name w).1.db ≡ w.db
  unfolding check_lock get_login_fail_count get
  check_lock_same name w = ground arith

  find_admin-eq-next :
      (name : String) (user : AdminUser) (w : World R)
      → (find_admin env name w).0 ≡ next user
      → find (λ u. str_eq u.username name && is_live u) w.db.tables.admin_users ≡ some user
  unfolding find_admin get_admin_user_by_username wrong_credentials
  find_admin-eq-next name user w h =
      let q = get_admin_user_by_username name in
      elim (Result-cases (stmt env q w).0) [
        | inr (e, failed) ↦ absurd (ground arith)
        | inl (u, done) ↦ let (ran, _) = stmt-eq-ok env q w u done in ground arith
      ]

  verify-eq-next :
      (req : LoginRequest) (user : AdminUser) (w : World R)
      → (verify env req user w).0 ≡ next tt
      → check_password env req.password user.hashed_password ≡ true
  unfolding verify wrong_credentials
  verify-eq-next req user w h = ground arith

  -- The account that a login is for: it is live, has the username of the request, and its password
  -- is the one of the request.
  abbrev pub IsOwner : LoginRequest → AdminUser → World R → Type 0
  IsOwner req user w =
      (find (λ u. str_eq u.username req.username && is_live u) w.db.tables.admin_users ≡ some user)
      × (check_password env req.password user.hashed_password ≡ true)

  authenticate-IsOwner :
      (req : LoginRequest) (user : AdminUser) (w : World R)
      → (authenticate env req w).0 ≡ next user
      → IsOwner req user w
  unfolding authenticate
  authenticate-IsOwner req user w h =
      let w1 = (check_lock env req.username w).1 in
      let w2 = (find_admin env req.username w1).1 in
      let same = check_lock_same req.username w in
      elim (Outcome-cases (check_lock env req.username w).0) [
        | inr (r, refused) ↦ absurd (ground arith)
        | inl (_, opened) ↦ elim (Outcome-cases (find_admin env req.username w1).0) [
          | inr (r, refused) ↦ absurd (ground arith)
          | inl (u, found) ↦ elim (Outcome-cases (verify env req u w2).0) [
            | inr (r, refused) ↦ absurd (ground arith)
            | inl (_, verified) ↦
                let it : u ≡ user = ground arith in
                let there = find_admin-eq-next req.username u w1 found in
                let right = verify-eq-next req u w2 verified in
                (ground (arith, there, same, it), ground (arith, right, it))
          ]
        ]
      ]

  -- A login that succeeds is of a live account that has the username of the request, and whose
  -- password bcrypt accepts, whatever befalls the calls.
  pub login-IsOwner :
      (req : LoginRequest) (w : World R) (r : Response)
      → (login env (some req) w).0 ≡ next r
      → (user : AdminUser) × IsOwner req user w
  unfolding login
  login-IsOwner req w r h = elim (Bool-cases (is_valid_login env req)) [
    | inr bad ↦ absurd (ground arith)
    | inl good ↦ elim (Outcome-cases (authenticate env req w).0) [
      | inr (s, refused) ↦ absurd (ground arith)
      | inl (user, on) ↦ (user, authenticate-IsOwner req user w on)
    ]
  ]
