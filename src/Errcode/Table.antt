-- ===== src/Errcode/Table.antt =====
-- errcode/errcode.go: the numbers against a client's table of them, and the messages.
use template_golang_web.Base.{
  ℕ, String, ◌≡◌, refl, Option, none, some, List, [], ◌∷◌, ◌==◌, if◌then◌else◌,
}
use template_golang_web.Errcode.{Code, number, messages, lookup, msg}

abbrev codes : List (ℕ × Code)
codes =
    (0, Code.success)
    ∷ (10001, Code.internal)
    ∷ (10002, Code.invalid_params)
    ∷ (10003, Code.unauthorized)
    ∷ (10004, Code.not_found)
    ∷ (10005, Code.timeout)
    ∷ (10006, Code.not_ready)
    ∷ (10007, Code.forbidden)
    ∷ (20001, Code.user_not_found)
    ∷ (20002, Code.user_exists)
    ∷ (20003, Code.wrong_credentials)
    ∷ (20004, Code.too_many_login_fails)
    ∷ (20005, Code.cannot_delete_self)
    ∷ (30001, Code.insufficient_balance)
    ∷ []

abbrev find_code : ℕ → List (ℕ × Code) → Option Code
find_code n [] = none
find_code n ((k, c) ∷ rest) = if k == n then some c else find_code n rest

-- The number reads back as the code, and the message is that of the number in the map.
pub record IsCoded (c : Code) (text : String) : Type 0 where
  pub code : find_code (number c) codes ≡ some c
  pub message : lookup (number c) messages ≡ some text

pub msg-IsCoded : (c : Code) → IsCoded c (msg (number c))
unfolding number msg lookup
msg-IsCoded Code.success = record { code = refl; message = refl }
msg-IsCoded Code.internal = record { code = refl; message = refl }
msg-IsCoded Code.invalid_params = record { code = refl; message = refl }
msg-IsCoded Code.unauthorized = record { code = refl; message = refl }
msg-IsCoded Code.not_found = record { code = refl; message = refl }
msg-IsCoded Code.timeout = record { code = refl; message = refl }
msg-IsCoded Code.not_ready = record { code = refl; message = refl }
msg-IsCoded Code.forbidden = record { code = refl; message = refl }
msg-IsCoded Code.user_not_found = record { code = refl; message = refl }
msg-IsCoded Code.user_exists = record { code = refl; message = refl }
msg-IsCoded Code.wrong_credentials = record { code = refl; message = refl }
msg-IsCoded Code.too_many_login_fails = record { code = refl; message = refl }
msg-IsCoded Code.cannot_delete_self = record { code = refl; message = refl }
msg-IsCoded Code.insufficient_balance = record { code = refl; message = refl }
