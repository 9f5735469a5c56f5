-- ===== src/Api/Pipeline/Cors.antt =====
-- api/middleware.go: the settings that corsMiddleware hands to gin-contrib/cors, whose default headers
-- are a parameter. strings.Split is at its separator, the comma.
use Prim.Native.Char.{Char, code}
use text.Mathlib.TextEquality.{Char-path}
use template_golang_web.Base.{
  ◌≡◌, refl, sym, ap, arith, String, str_eq, Bool, true, false, List, [], ◌∷◌, ◌++◌, ◌==◌,
  if◌then◌else◌, Bool-cases, inl, inr, ==_iff, ◌∙◌,
}

pub record CorsConfig : Type 0 where
  pub allow_all_origins : Bool
  pub allow_origins : List String
  pub allow_headers : List String

abbrev is_comma : Char → Bool
is_comma c = code c == 44

-- A character in front of the first part.
abbrev put_first : Char → List String → List String
put_first c [] = String.◌∷◌ c "" ∷ []
put_first c (p ∷ ps) = String.◌∷◌ c p ∷ ps

unfoldable split : String → List String
split String.[] = "" ∷ []
split (String.◌∷◌ c s) = let rest = split s in if is_comma c then "" ∷ rest else put_first c rest

unfoldable cors_middleware : List String → String → CorsConfig
unfolding split
cors_middleware default_headers origins =
    if str_eq origins "*"
    then record {
      allow_all_origins = true;
      allow_origins = [];
      allow_headers = default_headers ++ "token" ∷ [];
    }
    else record {
      allow_all_origins = false;
      allow_origins = split origins;
      allow_headers = default_headers ++ "token" ∷ [];
    }

abbrev comma : Char
comma = ","

abbrev append : String → String → String
append String.[] t = t
append (String.◌∷◌ c s) t = String.◌∷◌ c (append s t)

-- strings.Join with commas.
unfoldable join : List String → String
join [] = ""
join (p ∷ []) = p
join (p ∷ q ∷ ps) = append p (String.◌∷◌ comma (join (q ∷ ps)))

join-put_first : (c : Char) (ps : List String) → join (put_first c ps) ≡ String.◌∷◌ c (join ps)
unfolding join
join-put_first c [] = refl
join-put_first c (p ∷ []) = refl
join-put_first c (p ∷ q ∷ ps) = refl

split-shape : (s : String) → (p : String) × (ps : List String) × (split s ≡ p ∷ ps)
unfolding split
split-shape String.[] = ("", [], refl)
split-shape (String.◌∷◌ c s) =
    let (p, ps, shape) = split-shape s in
    elim (Bool-cases (is_comma c)) [
      | inl cut ↦ ("", split s, rw cut refl)
      | inr plain ↦ (String.◌∷◌ c p, ps, rw (plain, shape) refl)
    ]

-- The origins of the setting, joined by commas, are the setting, so that none is lost or made up.
join-split : (s : String) → join (split s) ≡ s
unfolding split join
join-split String.[] = refl
join-split (String.◌∷◌ c s) =
    let (p, ps, shape) = split-shape s in
    let rest = join-split s in
    elim (Bool-cases (is_comma c)) [
      | inl cut ↦
          let e : c ≡ comma = Char-path c comma (omega (arith, (==_iff (code c) 44).0 cut)) in
          let front : join ("" ∷ split s) ≡ String.◌∷◌ comma (join (split s)) = rw shape refl in
          rw cut (front ∙ ap (λ t. String.◌∷◌ comma t) rest ∙ ap (λ d. String.◌∷◌ d s) (sym e))
      | inr plain ↦ rw plain (join-put_first c (split s) ∙ ap (λ t. String.◌∷◌ c t) rest)
    ]
