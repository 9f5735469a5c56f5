-- ===== src/Api/Server/Answers.antt =====
-- api/response.go with the handlers: the form of every answer.
pub mod Reads
pub mod Accounts
use template_golang_web.Base.{
  ℕ, ◌≡◌, refl, arith, Option, none, some, inl, inr, Bool-cases, String, str_eq, eq_refl, Bool,
  true, false, not, ◌&&◌, leb, ◌==◌, if◌then◌else◌,
}
use template_golang_web.Db.Error.{Error, is_deadline_exceeded, Result-cases}
use template_golang_web.Env.{World, Call}
use template_golang_web.Errcode.{Code, success}
use template_golang_web.Errcode
use template_golang_web.Api.Response
use template_golang_web.Api.Response.{Response, Payload, null, fail, fail_internal}
use template_golang_web.Api.Handler.{
  Outcome, next, answer, Outcome-cases, answered, Handler, ◌>>=◌, done, refuse, call_or, call,
  quietly, bind, ensure,
}

abbrev is_success : Code → Bool
is_success success = true
is_success _ = false

abbrev is_null : Payload → Bool
is_null null = true
is_null _ = false

-- A success has the status 200 and the code `success`; a failure has a status of 400 or more, another
-- code and no data. The message is that of the code.
abbrev pub is_envelope : Response → Bool
is_envelope r =
    str_eq r.msg (Errcode.msg (Errcode.number r.code))
    && (if is_success r.code then r.status == 200 else leb 400 r.status && is_null r.payload)

-- Every answer of the handler.
pub record IsEnveloping {R : Type 0} (m : Handler R Response) : Type 0 where
  pub answers : (w : World R) → is_envelope (answered (m w).0) ≡ true

abbrev is_formed : {A : Type 0} → Outcome A → Bool
is_formed (next a) = true
is_formed (answer r) = is_envelope r

-- Every answer that ends it early.
pub record IsWell {R A : Type 0} (m : Handler R A) : Type 0 where
  pub refusals : (w : World R) → is_formed (m w).0 ≡ true

pub fail_internal_lem : (e : Error) → is_envelope (fail_internal e) ≡ true
unfolding fail_internal fail Errcode.msg Errcode.number
fail_internal_lem e = elim (Bool-cases (is_deadline_exceeded e)) [
  | inl late ↦ rw late refl
  | inr other ↦ rw other refl
]

abbrev pub is_failure : ℕ → Code → Bool
is_failure status code = not (is_success code) && leb 400 status

pub fail-is_envelope :
    (status : ℕ) (code : Code)
    → is_failure status code ≡ true
    → is_envelope (fail status code) ≡ true
unfolding fail
fail-is_envelope status code h = ground (arith, eq_refl (Errcode.msg (Errcode.number code)))

module _ {R : Type 0} where
  module _ {A : Type 0} where
    pub refuse-IsWell :
        (status : ℕ) (code : Code)
        → is_failure status code ≡ true
        → IsWell (refuse {R = R} {A = A} (fail status code))
    refuse-IsWell status code h = record { refusals = λ w. fail-is_envelope status code h }

    pub internal-IsWell : (e : Error) → IsWell (refuse {R = R} {A = A} (fail_internal e))
    internal-IsWell e = record { refusals = λ w. fail_internal_lem e }

    pub if-IsWell :
        (b : Bool) (m n : Handler R A) → IsWell m → IsWell n → IsWell (if b then m else n)
    if-IsWell true m n h k = h
    if-IsWell false m n h k = k

    pub done-IsWell : (a : A) → IsWell (done {R = R} a)
    done-IsWell a = record { refusals = λ w. refl }

    pub call_or-IsWell :
        (m : Call R A) (f : Error → Handler R A)
        → ((e : Error) → IsWell (f e))
        → IsWell (call_or m f)
    call_or-IsWell m f h = record {
      refusals = λ w. elim (Result-cases (m w).0) [
        | inl (a, fine) ↦ rw (fine, call_or) refl
        | inr (e, failed) ↦ rw (failed, call_or) ((h e).refusals (m w).1)
      ];
    }

    pub call-IsWell : (m : Call R A) → IsWell (call m)
    call-IsWell m = call_or-IsWell m (λ e. refuse (fail_internal e)) internal-IsWell

    pub quietly-IsWell : (m : Call R A) → IsWell (quietly m)
    quietly-IsWell m = record { refusals = λ w. refl }

    pub bind-IsWell : (valid : A → Bool) (text : Option A) → IsWell (bind {R = R} valid text)
    unfolding fail Errcode.msg Errcode.number
    bind-IsWell valid none = record { refusals = λ w. refl }
    bind-IsWell valid (some a) = record { refusals = λ w. ground arith }

    pub seq-IsWell :
        {B : Type 0} (m : Handler R A) (f : A → Handler R B)
        → IsWell m
        → ((a : A) → IsWell (f a))
        → IsWell (m >>= f)
    seq-IsWell m f h k = record {
      refusals = λ w. elim (Outcome-cases (m w).0) [
        | inl (a, went) ↦ rw (went, is_formed) ((k a).refusals (m w).1)
        | inr (r, ended) ↦ let e = h.refusals w in ground arith
      ];
    }

    pub seq-IsEnveloping :
        (m : Handler R A) (f : A → Handler R Response)
        → IsWell m
        → ((a : A) → IsEnveloping (f a))
        → IsEnveloping (m >>= f)
    seq-IsEnveloping m f h k = record {
      answers = λ w. elim (Outcome-cases (m w).0) [
        | inl (a, went) ↦ rw (went, answered) ((k a).answers (m w).1)
        | inr (r, ended) ↦ let e = h.refusals w in ground arith
      ];
    }

  pub ensure-IsWell :
      (b : Bool) (status : ℕ) (code : Code)
      → is_failure status code ≡ true
      → IsWell (ensure {R = R} b (fail status code))
  ensure-IsWell true status code h = record { refusals = λ w. refl }
  ensure-IsWell false status code h = record { refusals = λ w. fail-is_envelope status code h }

  pub ok-IsEnveloping : (p : Payload) → IsEnveloping (done {R = R} (Response.ok p))
  unfolding Response.ok Errcode.msg Errcode.number
  ok-IsEnveloping p = record { answers = λ w. refl }

-- The rules for a handler: one for each of the forms that it is written in.
pub ruleset answer_rules = (
  seq-IsEnveloping, seq-IsWell, refuse-IsWell, internal-IsWell, if-IsWell, done-IsWell,
  call_or-IsWell, call-IsWell, quietly-IsWell, bind-IsWell, ensure-IsWell, ok-IsEnveloping,
)
