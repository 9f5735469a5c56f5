-- ===== src/Strconv.antt =====
-- The decimal numerals of Go's strconv, as api/middleware.go (strconv.FormatInt in adminSessionKey)
-- and api/auth.go (strconv.ParseInt in getLoginFailCount) use them.
use Prim.Native.Char.{Char, code}
use template_golang_web.Base.{
  ℕ, zero, suc, ◌+◌, ◌-◌, ◌*◌, ◌/◌, ◌%◌, ◌≤◌, ◌<◌, String, ◌≡◌, refl, arith, Bool, true, ◌&&◌,
  Option, none, some, ℤ, pos, negsuc, max_int64, leb, ltb, ◌==◌, if◌then◌else◌, Bool-cases, inl,
  inr, ap, ◌∙◌, sym,
}

abbrev digit : ℕ → Char
digit d =
    if d == 0
    then "0"
    else if d == 1
    then "1"
    else if d == 2
    then "2"
    else if d == 3
    then "3"
    else if d == 4
    then "4"
    else if d == 5
    then "5"
    else if d == 6
    then "6"
    else if d == 7
    then "7"
    else if d == 8
    then "8"
    else "9"

code-digit : (d : ℕ) → d < 10 → code (digit d) ≡ b'0' + d
code-digit zero h = refl
code-digit (suc zero) h = refl
code-digit (suc (suc zero)) h = refl
code-digit (suc (suc (suc zero))) h = refl
code-digit (suc (suc (suc (suc zero)))) h = refl
code-digit (suc (suc (suc (suc (suc zero))))) h = refl
code-digit (suc (suc (suc (suc (suc (suc zero)))))) h = refl
code-digit (suc (suc (suc (suc (suc (suc (suc zero))))))) h = refl
code-digit (suc (suc (suc (suc (suc (suc (suc (suc zero)))))))) h = refl
code-digit (suc (suc (suc (suc (suc (suc (suc (suc (suc zero))))))))) h = refl
code-digit (suc (suc (suc (suc (suc (suc (suc (suc (suc (suc n)))))))))) h = absurd (omega arith)

-- FormatInt(n, 10) of a number that is not negative: the digits are put in front of one another
-- from the last, by division.
format_from : ℕ → ℕ → String → String
format_from zero n s = s
format_from (suc f) n s =
    let s' = String.◌∷◌ (digit (n % 10)) s in
    let rest = format_from f (n / 10) s' in if ltb n 10 then s' else rest

unfoldable pub format_int : ℕ → String
unfolding format_from
format_int n = format_from (suc n) n ""

is_digit : Char → Bool
is_digit c = leb b'0' (code c) && leb (code c) b'9'

parse_digits : ℕ → String → Option ℕ
parse_digits n String.[] = some n
parse_digits n (String.◌∷◌ c s) =
    let rest = parse_digits (n * 10 + (code c - b'0')) s in if is_digit c then rest else none

-- The numeral behind a sign: at least one digit, and a value within the bound.
parse_unsigned : ℕ → String → Option ℕ
parse_unsigned bound String.[] = none
parse_unsigned bound s = elim (parse_digits 0 s) [
  | none ↦ none
  | some n ↦ if leb n bound then some n else none
]

abbrev negated : Option ℕ → Option ℤ
negated none = none
negated (some zero) = some (pos 0)
negated (some (suc n)) = some (negsuc n)

abbrev positive : Option ℕ → Option ℤ
positive none = none
positive (some n) = some (pos n)

-- ParseInt(s, 10, 64); `none` is its error, a syntax error or a value out of range.
unfoldable pub parse_int : String → Option ℤ
unfolding parse_digits parse_unsigned is_digit
parse_int String.[] = none
parse_int (String.◌∷◌ c s) =
    if code c == b'-'
    then negated (parse_unsigned (max_int64 + 1) s)
    else if code c == b'+'
    then positive (parse_unsigned max_int64 s)
    else positive (parse_unsigned max_int64 (String.◌∷◌ c s))

is_digit-digit : (d : ℕ) → d < 10 → is_digit (digit d) ≡ true
unfolding is_digit
is_digit-digit d h = ground (arith, code-digit d h)

parse-digit :
    (n d : ℕ) (s : String)
    → d < 10
    → parse_digits n (String.◌∷◌ (digit d) s) ≡ parse_digits (n * 10 + d) s
unfolding parse_digits is_digit
parse-digit n d s h =
    let value : n * 10 + (code (digit d) - b'0') ≡ n * 10 + d = omega (arith, code-digit d h) in
    rw (is_digit-digit d h) (ap (λ k. parse_digits k s) value)

parse-format_from :
    (f n : ℕ) (s : String) → n < f → parse_digits 0 (format_from f n s) ≡ parse_digits n s
unfolding format_from
parse-format_from zero n s h = elim h [ ]
parse-format_from (suc f) n s h = elim (Bool-cases (ltb n 10)) [
  | inl small ↦
      let value : 0 * 10 + n % 10 ≡ n = ground arith in
      rw small (parse-digit 0 (n % 10) s (omega arith) ∙ ap (λ k. parse_digits k s) value)
  | inr large ↦
      let value : n / 10 * 10 + n % 10 ≡ n = omega arith in
      let shorter : n / 10 < f = ground arith in
      rw large (
        parse-format_from f (n / 10) (String.◌∷◌ (digit (n % 10)) s) shorter
        ∙ parse-digit (n / 10) (n % 10) s (omega arith)
        ∙ ap (λ k. parse_digits k s) value)
]

parse-nil : (n : ℕ) → parse_digits n "" ≡ some n
unfolding parse_digits
parse-nil n = refl

-- A numeral begins with a digit.
abbrev BeginsWithDigit : String → Type 0
BeginsWithDigit String.[] = ⊥
BeginsWithDigit (String.◌∷◌ c s) = (b'0' ≤ code c) × (code c ≤ b'9')

format_from-BeginsWithDigit : (f n : ℕ) (s : String) → n < f → BeginsWithDigit (format_from f n s)
unfolding format_from
format_from-BeginsWithDigit zero n s h = elim h [ ]
format_from-BeginsWithDigit (suc f) n s h = elim (Bool-cases (ltb n 10)) [
  | inl small ↦ rw small (omega (arith, code-digit (n % 10)))
  | inr large ↦
      rw large
        (format_from-BeginsWithDigit f (n / 10) (String.◌∷◌ (digit (n % 10)) s) (ground arith))
]

parse_int-of_digits :
    (s : String) (n : ℕ)
    → BeginsWithDigit s
    → parse_digits 0 s ≡ some n
    → n ≤ max_int64
    → parse_int s ≡ some (pos n)
unfolding parse_int
parse_int-of_digits String.[] n h e bound = absurd h
parse_int-of_digits (String.◌∷◌ c s) n h e bound = ground arith

-- ParseInt reads back what FormatInt writes, for every number up to the largest int64.
pub parse_int-format_int : (n : ℕ) → n ≤ max_int64 → parse_int (format_int n) ≡ some (pos n)
unfolding format_int
parse_int-format_int n bound =
    let enough : n < suc n = omega arith in
    parse_int-of_digits (format_from (suc n) n "") n
      (format_from-BeginsWithDigit (suc n) n "" enough)
      (parse-format_from (suc n) n "" enough ∙ parse-nil n) bound

-- Different numbers have different numerals.
pub format_int_injective :
    (m n : ℕ) → m ≤ max_int64 → n ≤ max_int64 → format_int m ≡ format_int n → m ≡ n
format_int_injective m n p q e =
    let same : some (pos m) ≡ some (pos n) =
      sym (parse_int-format_int m p) ∙ ap parse_int e ∙ parse_int-format_int n q in
    cc
