-- ===== src/Api/Handler.antt =====
-- How a handler runs: it works on the world and goes on, or answers at once and is done.
use template_golang_web.Base.{Bool, true, false, Option, none, some, ◌≡◌, refl, ◌⊎◌, inl, inr}
use template_golang_web.Db.Error.{Error, ok, err}
use template_golang_web.Env.{World, Call}
use template_golang_web.Errcode.{Code}
use template_golang_web.Api.Response.{Response, fail, fail_internal}

pub data Outcome (A : Type 0) : Type 0 where
  next : A → Outcome A
  answer : Response → Outcome A

pub Outcome-cases :
    {A : Type 0} (o : Outcome A) → ((a : A) × (o ≡ next a)) ⊎ ((r : Response) × (o ≡ answer r))
Outcome-cases (next a) = inl (a, refl)
Outcome-cases (answer r) = inr (r, refl)

abbrev pub Handler : Type 0 → Type 0 → Type 0
Handler R A = World R → Outcome A × World R

-- The answer of a handler that has come to its end, or has answered before.
abbrev pub answered : Outcome Response → Response
answered (next r) = r
answered (answer r) = r

module _ {R : Type 0} where
  infixl 5 ◌>>=◌ ◌>>◌
  abbrev pub ◌>>=◌ : {A B : Type 0} → Handler R A → (A → Handler R B) → Handler R B
  ◌>>=◌ m f w = let (o, w') = m w in elim o [ next a ↦ f a w' | answer r ↦ (answer r, w') ]

  abbrev pub ◌>>◌ : {B : Type 0} → Handler R (Unit {0}) → Handler R B → Handler R B
  m >> k = m >>= λ _. k

  module _ {A : Type 0} where
    abbrev pub done : A → Handler R A
    done a w = (next a, w)

    -- `fail(...); return`
    abbrev pub refuse : Response → Handler R A
    refuse r w = (answer r, w)

    -- A call, with what the handler does about its error.
    abbrev pub call_or : Call R A → (Error → Handler R A) → Handler R A
    call_or m on_error w =
        let (r, w') = m w in elim r [ ok a ↦ (next a, w') | err e ↦ on_error e w' ]

    -- `failInternal(ctx, err); return`
    abbrev pub call : Call R A → Handler R A
    call m = call_or m (λ e. refuse (fail_internal e))

    -- A call whose error is only logged.
    abbrev pub quietly : Call R A → Handler R (Unit {0})
    quietly m w = (next tt, (m w).1)

    -- ShouldBindJSON, ShouldBindUri, ShouldBindQuery: `none` where the text does not decode.
    abbrev pub bind : (A → Bool) → Option A → Handler R A
    bind valid none w = (answer (fail 400 Code.invalid_params), w)
    bind valid (some a) w = elim (valid a) [
      | true ↦ (next a, w)
      | false ↦ (answer (fail 400 Code.invalid_params), w)
    ]

  -- `if !b { fail(...); return }`
  abbrev pub ensure : Bool → Response → Handler R (Unit {0})
  ensure true r w = (next tt, w)
  ensure false r w = (answer r, w)
