-- ===== src/Utf8.antt =====
-- Which bytes PostgreSQL takes as a text in the encoding UTF8: well-formed UTF-8 (RFC 3629) with no
-- zero byte.
use Prim.Native.Nat.{pred}
use Prim.Native.Char.{code}
use template_golang_web.Base.{
  ℕ, String, Bool, true, false, ◌&&◌, ◌==◌, ◌≡◌, refl, List, [], ◌∷◌, leb, if◌then◌else◌,
}

-- How many bytes of the current character are to come, and the range of the next one.
pub record Expect : Type 0 where
  pub more : ℕ
  pub low : ℕ
  pub high : ℕ

abbrev expect : ℕ → ℕ → ℕ → Expect
expect n lo hi = record { more = n; low = lo; high = hi }

abbrev between : ℕ → ℕ → ℕ → Bool
between lo hi b = leb lo b && leb b hi

-- What a first byte asks for; 4 stands for a byte that begins no character.
lead : ℕ → Expect
lead b =
    if between 0x01 0x7f b
    then expect 0 0 0
    else if between 0xc2 0xdf b
    then expect 1 0x80 0xbf
    else if b == 0xe0
    then expect 2 0xa0 0xbf
    else if b == 0xed
    then expect 2 0x80 0x9f
    else if between 0xe1 0xef b
    then expect 2 0x80 0xbf
    else if b == 0xf0
    then expect 3 0x90 0xbf
    else if b == 0xf4
    then expect 3 0x80 0x8f
    else if between 0xf1 0xf3 b
    then expect 3 0x80 0xbf
    else expect 4 0 0

scan : Expect → List ℕ → Bool
scan e [] = e.more == 0
scan e (b ∷ bs) =
    let first = scan (lead b) bs in
    let later = scan (expect (pred e.more) 0x80 0xbf) bs in
    if e.more == 0
    then if leb (lead b).more 3 then first else false
    else if between e.low e.high b
    then later
    else false

abbrev pub Bytes : Type 0
Bytes = List ℕ

-- The bytes of a Go string, whose characters stand for its bytes, one each.
abbrev pub bytes : String → Bytes
bytes String.[] = []
bytes (String.◌∷◌ c s) = code c ∷ bytes s

unfoldable pub is_text : Bytes → Bool
unfolding scan lead
is_text = scan (expect 0 0 0)

-- A text parameter of a statement that is a Go string.
abbrev pub is_varchar : String → Bool
is_varchar s = is_text (bytes s)

cut_character :
    (is_text (0xe9 ∷ 0xa4 ∷ 0x98 ∷ []) ≡ true)
    × (is_text (0xe9 ∷ 0xa4 ∷ []) ≡ false)
    × (is_text (0x41 ∷ 0 ∷ []) ≡ false)
unfolding is_text
cut_character = (refl, refl, refl)
