-- ===== src/Api/Audit/Masking.antt =====
-- api/audit.go: what the log keeps of a request's body.
use template_golang_web.Base.{◌≡◌, none, some, List, [], ◌∷◌, ◌⊎◌}
use template_golang_web.Env.{Env}
use template_golang_web.Api.Audit.{Bytes, stars}
use template_golang_web.Api.Audit.Sensitive.{HasPassword}

-- The second object has the keys of the first in their order; three stars stand for the value of each
-- that has "password" in it, and the other values are the same.
abbrev pub IsMasked : List (Bytes × Bytes) → List (Bytes × Bytes) → Type 0
IsMasked [] [] = Unit
IsMasked ((key, value) ∷ m) ((key', value') ∷ m') =
    (key' ≡ key)
    × ((HasPassword key × (value' ≡ stars)) ⊎ ((¬ HasPassword key) × (value' ≡ value)))
    × IsMasked m m'
IsMasked _ _ = ⊥

-- The second object is the first with stars in place of some values.
abbrev pub IsStarred : List (Bytes × Bytes) → List (Bytes × Bytes) → Type 0
IsStarred [] [] = Unit
IsStarred ((key, value) ∷ m) ((key', value') ∷ m') =
    (key' ≡ key) × ((value' ≡ value) ⊎ (value' ≡ stars)) × IsStarred m m'
IsStarred _ _ = ⊥

module _ {R : Type 0} (env : Env R) where
  -- What the program relies on of encoding/json: an empty text is no object, and an object that was
  -- decoded, with three stars in place of some values, encodes to a text that decodes to it.
  pub record IsObjectCodec : Type 0 where
    pub empty : env.unmarshal_object [] ≡ none
    pub masked :
        (body : Bytes) (m m' : List (Bytes × Bytes))
        → env.unmarshal_object body ≡ some m
        → IsStarred m m'
        → (s : Bytes) × (env.marshal_object m' ≡ some s) × (env.unmarshal_object s ≡ some m')
