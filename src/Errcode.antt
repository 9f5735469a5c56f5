-- ===== src/Errcode.antt =====
-- errcode/errcode.go: the codes of the responses and their messages.
pub mod Table
use template_golang_web.Base.{ℕ, String, Option, none, some, List, [], ◌∷◌, ◌==◌, if◌then◌else◌}

pub data Code : Type 0 where
  success : Code
  internal : Code
  invalid_params : Code
  unauthorized : Code
  not_found : Code
  timeout : Code
  not_ready : Code
  forbidden : Code
  user_not_found : Code
  user_exists : Code
  wrong_credentials : Code
  too_many_login_fails : Code
  cannot_delete_self : Code
  insufficient_balance : Code

-- The number that the JSON carries.
unfoldable pub number : Code → ℕ
number success = 0
number internal = 10001
number invalid_params = 10002
number unauthorized = 10003
number not_found = 10004
number timeout = 10005
number not_ready = 10006
number forbidden = 10007
number user_not_found = 20001
number user_exists = 20002
number wrong_credentials = 20003
number too_many_login_fails = 20004
number cannot_delete_self = 20005
number insufficient_balance = 30001

-- The map `messages`.
abbrev messages : List (ℕ × String)
messages =
    (0, "success")
    ∷ (10001, "系統內部錯誤")
    ∷ (10002, "參數錯誤")
    ∷ (10003, "未登入或登入已過期")
    ∷ (10004, "資源不存在")
    ∷ (10005, "請求處理逾時")
    ∷ (10006, "服務未就緒")
    ∷ (10007, "無權限")
    ∷ (20001, "使用者不存在")
    ∷ (20002, "使用者已存在")
    ∷ (20003, "帳號或密碼錯誤")
    ∷ (20004, "登入失敗次數過多，請稍後再試")
    ∷ (20005, "不能刪除自己的帳號")
    ∷ (30001, "餘額不足")
    ∷ []

unfoldable lookup : ℕ → List (ℕ × String) → Option String
lookup c [] = none
lookup c ((k, m) ∷ rest) = if k == c then some m else lookup c rest

-- A number that the map does not hold has the message of ErrInternal.
unfoldable pub msg : ℕ → String
unfolding lookup
msg c = elim (lookup c messages) [ some m ↦ m | none ↦ "系統內部錯誤" ]
