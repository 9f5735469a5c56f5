-- ===== src/Api/Audit/Sensitive.antt =====
-- api/audit.go: which keys count as a password's, independently of how the code looks for them.
use template_golang_web.Base.{
  ℕ, ◌+◌, ◌≤◌, ◌≡◌, refl, sym, ap, arith, true, ◌⊎◌, ◌↔◌, inl, inr, [], ◌∷◌, ◌++◌, map, All,
  Bool-cases, ==_iff,
}
use template_golang_web.Utf8.{Bytes, bytes}
use template_golang_web.Api.Audit.{to_lower, has_prefix, contains, is_sensitive}

-- The bytes spell the word, each letter small or, 32 below it, capital.
abbrev pub Spells : Bytes → Bytes → Type 0
Spells [] [] = Unit
Spells (p ∷ ps) (b ∷ bs) = ((b ≡ p) ⊎ (b + 32 ≡ p)) × Spells ps bs
Spells _ _ = ⊥

-- The key has the word somewhere in it.
pub record HasWord (word key : Bytes) : Type 0 where
  pub before : Bytes
  pub middle : Bytes
  pub after : Bytes
  pub parts : key ≡ before ++ (middle ++ after)
  pub spelled : Spells word middle

abbrev pub HasPassword : Bytes → Type 0
HasPassword = HasWord (bytes "password")

abbrev IsSmall : ℕ → Type 0
IsSmall p = (97 ≤ p) × (p ≤ 122)

to_lower-cases : (b p : ℕ) → to_lower b ≡ p → (b ≡ p) ⊎ (b + 32 ≡ p)
unfolding to_lower
to_lower-cases b p h = ground arith

to_lower-small : (b p : ℕ) → IsSmall p → (b ≡ p) ⊎ (b + 32 ≡ p) → to_lower b ≡ p
unfolding to_lower
to_lower-small b p (low, high) (inl same) = ground arith
to_lower-small b p (low, high) (inr capital) = ground arith

-- A prefix of the lowered key is spelled by a prefix of the key.
has_prefix-split :
    (word key : Bytes)
    → has_prefix word (map to_lower key) ≡ true
    → (middle : Bytes) × (after : Bytes) × (key ≡ middle ++ after) × Spells word middle
unfolding has_prefix
has_prefix-split [] key h = ([], key, refl, tt)
has_prefix-split (p ∷ ps) [] h = absurd cc
has_prefix-split (p ∷ ps) (b ∷ bs) h =
    let (middle, after, parts, spelled) = has_prefix-split ps bs (ground arith) in
    let same : p ≡ to_lower b = (==_iff p (to_lower b)).0 (ground arith) in
    (b ∷ middle, after, ap (λ t. b ∷ t) parts, (to_lower-cases b p (sym same), spelled))

has_prefix-of_Spells :
    (word middle after : Bytes)
    → All IsSmall word
    → Spells word middle
    → has_prefix word (map to_lower (middle ++ after)) ≡ true
unfolding has_prefix
has_prefix-of_Spells [] middle after small spelled = refl
has_prefix-of_Spells (p ∷ ps) [] after small spelled = absurd spelled
has_prefix-of_Spells (p ∷ ps) (b ∷ bs) after (letter, small) (one, spelled) =
    let same = to_lower-small b p letter one in
    let rest = has_prefix-of_Spells ps bs after small spelled in ground arith

contains-split : (word key : Bytes) → contains word (map to_lower key) ≡ true → HasWord word key
unfolding contains
contains-split word [] h =
    let (middle, after, parts, spelled) = has_prefix-split word [] h in
    record { before = []; middle = middle; after = after; parts = parts; spelled = spelled }
contains-split word (b ∷ bs) h = elim (Bool-cases (has_prefix word (map to_lower (b ∷ bs)))) [
  | inl here ↦
      let (middle, after, parts, spelled) = has_prefix-split word (b ∷ bs) here in
      record { before = []; middle = middle; after = after; parts = parts; spelled = spelled }
  | inr later ↦
      let w = contains-split word bs (ground arith) in
      record {
        before = b ∷ w.before;
        middle = w.middle;
        after = w.after;
        parts = ap (λ t. b ∷ t) w.parts;
        spelled = w.spelled;
      }
]

contains-of_prefix :
    (word key : Bytes)
    → has_prefix word (map to_lower key) ≡ true
    → contains word (map to_lower key) ≡ true
unfolding contains
contains-of_prefix word [] h = h
contains-of_prefix word (b ∷ bs) h = rw h refl

contains-of_parts :
    (word before middle after : Bytes)
    → All IsSmall word
    → Spells word middle
    → contains word (map to_lower (before ++ (middle ++ after))) ≡ true
unfolding contains
contains-of_parts word [] middle after small spelled =
    contains-of_prefix word (middle ++ after) (has_prefix-of_Spells word middle after small spelled)
contains-of_parts word (b ∷ before) middle after small spelled =
    let later = contains-of_parts word before middle after small spelled in ground arith

password-IsSmall : All IsSmall (bytes "password")
password-IsSmall = ground arith

-- The test of the code finds exactly the keys that have "password" in them.
pub is_sensitive-HasPassword : (key : Bytes) → (is_sensitive key ≡ true) ↔ HasPassword key
unfolding is_sensitive
is_sensitive-HasPassword key = (
  λ h. contains-split (bytes "password") key h,
  λ w.
      rw w.parts
        (contains-of_parts (bytes "password") w.before w.middle w.after password-IsSmall w.spelled),
)
