-- ===== src/Base/Any.antt =====
-- Whether a list has a row that passes a test: what the operations on lists do to it.
use mathlib.Core.Path.{◌≡◌, refl}
use mathlib.Core.Bool.{Bool, ◌&&◌, ◌||◌}
use mathlib.Core.List.{List, [], ◌∷◌, ◌++◌, map}
use native.Mathlib.Omega.{arith}
use template_golang_web.Base.Lists.{any, select, insert_by, sort_by}

module _ {ℓ} {A : Type ℓ} (p : A → Bool) where
  pub any-append_lists : (xs ys : List A) → any p (xs ++ ys) ≡ (any p xs || any p ys)
  any-append_lists [] ys = refl
  any-append_lists (x ∷ xs) ys = ground (arith, any-append_lists xs ys)

  pub any-insert_by :
      (le : A → A → Bool) (a : A) (xs : List A) → any p (insert_by le a xs) ≡ (p a || any p xs)
  any-insert_by le a [] = refl
  any-insert_by le a (x ∷ xs) = ground (arith, any-insert_by le a xs)

  pub any-sort_by : (le : A → A → Bool) (xs : List A) → any p (sort_by le xs) ≡ any p xs
  any-sort_by le [] = refl
  any-sort_by le (x ∷ xs) = ground (arith, any-insert_by le x (sort_by le xs), any-sort_by le xs)

  pub any-select : (q : A → Bool) (xs : List A) → any p (select q xs) ≡ any (λ x. q x && p x) xs
  any-select q [] = refl
  any-select q (x ∷ xs) = ground (arith, any-select q xs)

  pub any-map {κ} :
      {B : Type κ} (f : B → A) (xs : List B) → any p (map f xs) ≡ any (λ x. p (f x)) xs
  any-map f [] = refl
  any-map f (x ∷ xs) = ground (arith, any-map f xs)
