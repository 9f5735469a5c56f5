-- ===== src/Db/Registry.antt =====
-- The constraints of db/migration as an invariant of the tables: no two live users share a username
-- or an email, no two live accounts of the back office share a username, and no user has two wallets.
pub mod Restore
pub mod Queries
pub mod Calls
use template_golang_web.Base.{
  ℕ, ◌≡◌, ◌≢◌, refl, arith, Bool, true, false, not, ◌&&◌, ◌||◌, String, str_eq, eq_iff, List, [],
  ◌∷◌, ◌++◌, map, any, none, some, ◌==◌, ==_iff, if◌then◌else◌, Bool-cases, ◌⊎◌, inl, inr,
}
use template_golang_web.Db.Model.{User, AdminUser, Wallet, Tables}
use template_golang_web.Db.Users
use template_golang_web.Db.Users.{is_live, is_taken}

module _ {ℓ} {A : Type ℓ} (clash : A → A → Bool) where
  -- No row clashes with a later one.
  abbrev pub HasNoClash : List A → Type 0
  HasNoClash [] = Unit
  HasNoClash (x ∷ xs) = (any (clash x) xs ≡ false) × HasNoClash xs

  any-concat : (p : A → Bool) (xs : List A) (y : A) → any p (xs ++ y ∷ []) ≡ (any p xs || p y)
  any-concat p [] y = ground arith
  any-concat p (x ∷ xs) y = ground (arith, any-concat p xs y)

  pub HasNoClash-concat :
      (xs : List A) (y : A)
      → any (λ x. clash x y) xs ≡ false
      → HasNoClash xs
      → HasNoClash (xs ++ y ∷ [])
  HasNoClash-concat [] y free h = (refl, tt)
  HasNoClash-concat (x ∷ xs) y free (first, rest) =
      (ground (arith, any-concat (clash x) xs y), HasNoClash-concat xs y (ground arith) rest)

  -- An update after which no two rows clash that did not clash before.
  any-map :
      (f : A → A) (gentle : (x y : A) → clash x y ≡ false → clash (f x) (f y) ≡ false) (x : A)
      (ys : List A)
      → any (clash x) ys ≡ false
      → any (clash (f x)) (map f ys) ≡ false
  any-map f gentle x [] h = refl
  any-map f gentle x (y ∷ ys) h = ground (arith, gentle x y, any-map f gentle x ys)

  pub HasNoClash-map :
      (f : A → A) (gentle : (x y : A) → clash x y ≡ false → clash (f x) (f y) ≡ false) (xs : List A)
      → HasNoClash xs
      → HasNoClash (map f xs)
  HasNoClash-map f gentle [] h = tt
  HasNoClash-map f gentle (x ∷ xs) (first, rest) =
      (any-map f gentle x xs first, HasNoClash-map f gentle xs rest)

abbrev pub user_clash : User → User → Bool
user_clash u v =
    u.id == v.id
    || (is_live u && is_live v && (str_eq u.username v.username || str_eq u.email v.email))

abbrev pub admin_user_clash : AdminUser → AdminUser → Bool
admin_user_clash u v =
    u.id == v.id
    || (Users.is_null u.deleted_at && Users.is_null v.deleted_at && str_eq u.username v.username)

abbrev pub wallet_clash : Wallet → Wallet → Bool
wallet_clash v w = v.id == w.id || v.user_id == w.user_id

pub record IsRegistered (t : Tables) : Type 0 where
  pub users : HasNoClash user_clash t.users
  pub admin_users : HasNoClash admin_user_clash t.admin_users
  pub wallets : HasNoClash wallet_clash t.wallets
