-- ===== src/Cache/Keys.antt =====
-- The keys of the cache: loginFailKey of api/auth.go, sessionKey and adminSessionKey of
-- api/middleware.go. Keys of different kinds are different texts, and so are keys of one kind.
use Prim.Native.Char.{code}
use Prim.Native.String
use text.Mathlib.TextLemmas.{cons-append, append_cancel_left}
use template_golang_web.Base.{
  ℕ, ◌≤◌, String, str_eq, eq_iff, ◌≡◌, ◌≢◌, ap, arith, false, max_int64, Bool-cases, inl, inr,
}
use template_golang_web.Strconv.{format_int, format_int_injective}

abbrev login_fail_prefix : String
login_fail_prefix = "login_fail:"

abbrev session_key_prefix : String
session_key_prefix = "session:"

abbrev admin_session_key_prefix : String
admin_session_key_prefix = "admin_session:"

unfoldable pub login_fail_key : String → String
login_fail_key username = String.◌++◌ login_fail_prefix username

unfoldable pub session_key : String → String
session_key token = String.◌++◌ session_key_prefix token

unfoldable pub admin_session_key : ℕ → String
admin_session_key admin_user_id = String.◌++◌ admin_session_key_prefix (format_int admin_user_id)

abbrev pub first : String → ℕ
first String.[] = 0
first (String.◌∷◌ c s) = code c

first-login_fail_key : (u : String) → first (login_fail_key u) ≡ b'l'
unfolding login_fail_key
first-login_fail_key u = ap first (cons-append "l" "ogin_fail:" u)

first-session_key : (t : String) → first (session_key t) ≡ b's'
unfolding session_key
first-session_key t = ap first (cons-append "s" "ession:" t)

first-admin_session_key : (n : ℕ) → first (admin_session_key n) ≡ b'a'
unfolding admin_session_key
first-admin_session_key n = ap first (cons-append "a" "dmin_session:" (format_int n))

pub str_eq-of_ne : (s t : String) → s ≢ t → str_eq s t ≡ false
str_eq-of_ne s t h = elim (Bool-cases (str_eq s t)) [
  | inl same ↦ absurd (h ((eq_iff s t).0 same))
  | inr other ↦ other
]

pub session_key-ne-admin_session_key :
    (t : String) (n : ℕ) → str_eq (session_key t) (admin_session_key n) ≡ false
session_key-ne-admin_session_key t n =
    str_eq-of_ne _ _ λ e. omega (arith, first-session_key t, first-admin_session_key n, ap first e)

pub admin_session_key-ne-session_key :
    (n : ℕ) (t : String) → str_eq (admin_session_key n) (session_key t) ≡ false
admin_session_key-ne-session_key n t =
    str_eq-of_ne _ _ λ e. omega (arith, first-session_key t, first-admin_session_key n, ap first e)

pub login_fail_key-ne-session_key :
    (u t : String) → str_eq (login_fail_key u) (session_key t) ≡ false
login_fail_key-ne-session_key u t =
    str_eq-of_ne _ _ λ e. omega (arith, first-session_key t, first-login_fail_key u, ap first e)

pub login_fail_key-ne-admin_session_key :
    (u : String) (n : ℕ) → str_eq (login_fail_key u) (admin_session_key n) ≡ false
login_fail_key-ne-admin_session_key u n =
    str_eq-of_ne _ _
      λ e. omega (arith, first-admin_session_key n, first-login_fail_key u, ap first e)

pub session_key_injective : (s t : String) → session_key s ≡ session_key t → s ≡ t
unfolding session_key
session_key_injective s t e = append_cancel_left "session:" s t e

pub session_key_ne : (s t : String) → s ≢ t → str_eq (session_key s) (session_key t) ≡ false
session_key_ne s t h = str_eq-of_ne _ _ λ e. h (session_key_injective s t e)

admin_session_key_injective :
    (m n : ℕ) → m ≤ max_int64 → n ≤ max_int64 → admin_session_key m ≡ admin_session_key n → m ≡ n
unfolding admin_session_key
admin_session_key_injective m n p q e =
    format_int_injective m n p q (append_cancel_left "admin_session:" _ _ e)

-- Two accounts with different ids have different keys in the index of the sessions, for every id up to
-- the largest int64.
pub admin_session_key_ne :
    (m n : ℕ)
    → m ≤ max_int64
    → n ≤ max_int64
    → m ≢ n
    → str_eq (admin_session_key m) (admin_session_key n) ≡ false
admin_session_key_ne m n p q h = str_eq-of_ne _ _ λ e. h (admin_session_key_injective m n p q e)
