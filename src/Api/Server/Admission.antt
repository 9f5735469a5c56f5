-- ===== src/Api/Server/Admission.antt =====
-- api/server.go: which requests reach a handler that is not public, and what a refused one leaves.
use template_golang_web.Base.{
  String, ◌≡◌, ◌≢◌, refl, arith, true, some, Option, ◌⊎◌, inl, inr, Bool-cases,
}
use template_golang_web.Env.{Env, World, AuthUser}
use template_golang_web.Api.Response.{Response, fail}
use template_golang_web.Api.Middleware.{has_permission, perm_middleware}
use template_golang_web.Api.Middleware.Session.{IsSession, auth_middleware_sound}
use template_golang_web.Api.Server.{Access, public, logged_in, needs, Route, guarded, admitted}

-- What the route asks of the user of the session.
abbrev pub Permits : Access → AuthUser → Type 0
Permits public user = Unit
Permits logged_in user = Unit
Permits (needs code) user = has_permission user.permissions code ≡ true

module _ {R : Type 0} (env : Env R) where
  -- Refused: no success is answered, and the database is as it was.
  abbrev pub IsRefused : World R → (Response × Option AuthUser) × World R → Type 0
  IsRefused w ((r, _), w') = (w'.db ≡ w.db) × (r.status ≢ 200)

  -- Admitted: for the user of the session of the token, whom the route permits.
  abbrev pub IsAdmitted : Access → String → World R → Option AuthUser → Type 0
  IsAdmitted a token w found =
      (user : AuthUser) × IsSession env w token user × Permits a user × (found ≡ some user)

  admitted_needs :
      (code : String) (route : Route) (token : String) (w : World R)
      → IsRefused w (admitted env (needs code) route token w)
        ⊎ IsAdmitted (needs code) token w (admitted env (needs code) route token w).0.1
  unfolding admitted guarded perm_middleware fail
  admitted_needs code route token w =
      let (same, verdict) = auth_middleware_sound env token w in
      elim verdict [
        | inl (r, refused, bad) ↦ inl (ground arith, ground arith)
        | inr (user, on, session) ↦ elim (Bool-cases (has_permission user.permissions code)) [
          | inl permitted ↦ inr (user, session, permitted, ground arith)
          | inr forbidden ↦ inl (ground arith, ground arith)
        ]
      ]

  admitted_session :
      (route : Route) (token : String) (w : World R)
      → IsRefused w (admitted env logged_in route token w)
        ⊎ IsAdmitted logged_in token w (admitted env logged_in route token w).0.1
  unfolding admitted guarded
  admitted_session route token w =
      let (same, verdict) = auth_middleware_sound env token w in
      elim verdict [
        | inl (r, refused, bad) ↦ inl (ground arith, ground arith)
        | inr (user, on, session) ↦ inr (user, session, tt, ground arith)
      ]

  -- A request to a route that is not public either is refused, with no success answered and the
  -- database as it was, or is handled for a user who has a session under the token that it carries
  -- and, where the route needs a permission, holds that permission or the wildcard in the snapshot
  -- of the session.
  pub admitted_sound :
      (a : Access) (route : Route) (token : String) (w : World R)
      → a ≢ public
      → IsRefused w (admitted env a route token w)
        ⊎ IsAdmitted a token w (admitted env a route token w).0.1
  admitted_sound public route token w h = absurd (h refl)
  admitted_sound logged_in route token w h = admitted_session route token w
  admitted_sound (needs code) route token w h = admitted_needs code route token w
