-- ===== src/Db/Registry/Restore.antt =====
-- The restoration of a deleted row under a unique index on the live rows, for any table: rows with a
-- key, a mark of deletion, and a test for the same name.
use template_golang_web.Base.{
  ℕ, ◌≡◌, refl, arith, Bool, true, false, not, ◌&&◌, ◌||◌, List, [], ◌∷◌, map, any, ◌==◌,
}
use template_golang_web.Db.Registry.{HasNoClash}

-- What the update that restores the row `k` does to a row: the key and the name stay, and the row `k` is live.
pub record IsTable {A : Type 0} (key : A → ℕ) (live : A → Bool) (same : A → A → Bool) (k : ℕ)
    (f : A → A) : Type 0 where
  pub symmetric : (x y : A) → same x y ≡ same y x
  pub keeps_key : (x : A) → key (f x) ≡ key x
  pub keeps_same : (x y : A) → same (f x) (f y) ≡ same x y
  pub revives : (x : A) → live (f x) ≡ (key x == k || live x)

module _ {A : Type 0} (key : A → ℕ) (live : A → Bool) (same : A → A → Bool) (k : ℕ) (f : A → A)
    (table : IsTable key live same k f) (rows : List A) where
  abbrev pub clash : A → A → Bool
  clash x y = key x == key y || (live x && live y && same x y)

  -- A live row with another key has the name of this row.
  abbrev pub taken : A → A → Bool
  taken u v = not (key v == k) && live v && same v u

  abbrev pub blocked : A → Bool
  blocked u = key u == k && not (live u) && any (taken u) rows

  -- Every row of the list is a row of the table.
  abbrev Within : List A → Type 0
  Within xs = (p : A → Bool) → any p xs ≡ true → any p rows ≡ true

  no_clash :
      (x y : A)
      → clash x y ≡ false
      → blocked x ≡ false
      → blocked y ≡ false
      → (taken x y ≡ true → any (taken x) rows ≡ true)
      → (taken y x ≡ true → any (taken y) rows ≡ true)
      → clash (f x) (f y) ≡ false
  no_clash x y apart free_x free_y y_in x_in = ground (
    arith,
    table.symmetric x y,
    table.keeps_key x,
    table.keeps_key y,
    table.keeps_same x y,
    table.revives x,
    table.revives y,
  )

  none_clash :
      (x : A) (ys : List A)
      → any (clash x) ys ≡ false
      → blocked x ≡ false
      → any blocked ys ≡ false
      → (taken_by_x : (p : A → Bool) → p x ≡ true → any p rows ≡ true) → Within ys
      → any (clash (f x)) (map f ys) ≡ false
  none_clash x [] apart free_x free inside within = refl
  none_clash x (y ∷ ys) apart free_x free inside within =
      let tail : Within ys = λ p h. within p (ground arith) in
      let first : clash (f x) (f y) ≡ false =
        no_clash x y (ground arith) free_x (ground arith) (λ h. within (taken x) (ground arith))
          (λ h. inside (taken y) h) in
      let rest = none_clash x ys (ground arith) free_x (ground arith) inside tail in
      ground (arith, first, rest)

  restore_rows :
      (xs : List A)
      → HasNoClash clash xs
      → any blocked xs ≡ false
      → Within xs
      → HasNoClash clash (map f xs)
  restore_rows [] h free within = tt
  restore_rows (x ∷ xs) (first, rest) free within =
      let tail : Within xs = λ p h. within p (ground arith) in
      (
        none_clash x xs first (ground arith) (ground arith) (λ p h. within p (ground arith)) tail,
        restore_rows xs rest (ground arith) tail,
      )

  pub HasNoClash-restore :
      HasNoClash clash rows → any blocked rows ≡ false → HasNoClash clash (map f rows)
  HasNoClash-restore h free = restore_rows rows h free (λ p h. h)
