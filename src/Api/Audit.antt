-- ===== src/Api/Audit.antt =====
-- api/audit.go: the middleware that logs every writing request, with the passwords masked, and the
-- list of the log. A request's body, a key and a JSON value are lists of bytes.
pub mod Sensitive
pub mod Masking
pub mod Logging
use template_golang_web.Base.{
  ℕ, ◌+◌, String, str_eq, Bool, true, false, ◌&&◌, ◌||◌, Option, none, some, List, [], ◌∷◌, map,
  any, take, leb, ◌==◌, if◌then◌else◌,
}
pub use template_golang_web.Utf8.{Bytes, bytes}
use template_golang_web.Db.Model.{OperationLog}
use template_golang_web.Db.OperationLogs
use template_golang_web.Db.OperationLogs.{CreateOperationLogParams, create_operation_log}
use template_golang_web.Env.{Env, World, AuthUser, stmt}
use template_golang_web.Api.Response
use template_golang_web.Api.Response.{Response, OperationLogResponse, log_page}
use template_golang_web.Api.Handler.{Handler, ◌>>=◌, done, call, bind}
use template_golang_web.Api.Page.{PageRequest, is_valid_page, offset_of, limit_of, page_result}

abbrev pub max_audit_body_size : ℕ
max_audit_body_size = 4096

unfoldable pub is_write_method : String → Bool
is_write_method method =
    str_eq method "POST" || str_eq method "PUT" || str_eq method "PATCH" || str_eq method "DELETE"

-- What `readAndRestoreBody` returns: at most 4096 bytes. `none` is a body that is nil or that
-- cannot be read.
unfoldable pub audit_body : Option Bytes → Bytes
audit_body none = []
audit_body (some body) = take max_audit_body_size body

-- strings.ToLower on a byte. The letters beyond ASCII whose lower case is ASCII are K and İ, and
-- neither k nor i stands in "password".
unfoldable pub to_lower : ℕ → ℕ
to_lower b = if leb b'A' b && leb b b'Z' then b + 32 else b

unfoldable pub has_prefix : Bytes → Bytes → Bool
has_prefix [] s = true
has_prefix (p ∷ ps) [] = false
has_prefix (p ∷ ps) (b ∷ bs) = p == b && has_prefix ps bs

-- strings.Contains
unfoldable pub contains : Bytes → Bytes → Bool
unfolding has_prefix
contains s [] = has_prefix s []
contains s (b ∷ bs) = has_prefix s (b ∷ bs) || contains s bs

unfoldable pub is_sensitive : Bytes → Bool
unfolding contains to_lower
is_sensitive key = contains (bytes "password") (map to_lower key)

-- The JSON text of the string "***".
abbrev pub stars : Bytes
stars = bytes "\"***\""

abbrev pub mask_field : Bytes × Bytes → Bytes × Bytes
mask_field (key, value) = (key, if is_sensitive key then stars else value)

abbrev pub is_sensitive_field : Bytes × Bytes → Bool
is_sensitive_field (key, value) = is_sensitive key

abbrev pub or_else : Bytes → Option Bytes → Bytes
or_else body none = body
or_else body (some s) = s

module _ {R : Type 0} (env : Env R) where
  -- The masked object, or the body as it is where nothing is to be masked.
  unfoldable pub mask_object : Bytes → List (Bytes × Bytes) → Bytes
  mask_object body payload =
      if any is_sensitive_field payload
      then or_else body (env.marshal_object (map mask_field payload))
      else body

  unfoldable pub mask_sensitive_fields : Bytes → Bytes
  mask_sensitive_fields [] = []
  mask_sensitive_fields (b ∷ bs) = elim (env.unmarshal_object (b ∷ bs)) [
    | none ↦ b ∷ bs
    | some payload ↦ mask_object (b ∷ bs) payload
  ]

  abbrev pub log_user_id : Option AuthUser → Option ℕ
  log_user_id none = none
  log_user_id (some u) = some u.user_id

  abbrev pub log_username : Option AuthUser → String
  log_username none = ""
  log_username (some u) = u.username

  -- The entry of a request that was answered with `status` for `user`.
  unfoldable pub log_params :
      String → String → Option Bytes → String → Option AuthUser → ℕ → CreateOperationLogParams
  log_params method path body request_id user status = record {
    user_id = log_user_id user;
    username = log_username user;
    method = method;
    path = path;
    request_body = mask_sensitive_fields (audit_body body);
    status_code = status;
    request_id = request_id;
  }

  -- The layer around a request: `run` is what ctx.Next() does, with the user that the request has
  -- been admitted for. An error of the log is only logged.
  unfoldable pub audit_log_middleware :
      String
      → String
      → Option Bytes
      → String
      → (World R → (Response × Option AuthUser) × World R)
      → World R
      → Response × World R
  audit_log_middleware method path body request_id run w =
      let ((r, user), w') = run w in
      if is_write_method method
      then (
        r,
        (stmt env (create_operation_log (log_params method path body request_id user r.status))
            w').1,
      )
      else (r, w')

  unfoldable pub new_operation_log_response : OperationLog → OperationLogResponse
  new_operation_log_response l = record {
    id = l.id;
    user_id = l.user_id;
    username = l.username;
    method = l.method;
    path = l.path;
    request_body = l.request_body;
    status_code = l.status_code;
    request_id = l.request_id;
    created_at = l.created_at;
  }

  unfoldable pub list_operation_logs : Option PageRequest → Handler R Response
  list_operation_logs query = do
    req ← bind is_valid_page query
    logs ← call (
        stmt env (
          OperationLogs.list_operation_logs
            (record { limit = limit_of req; offset = offset_of req })))
    total ← call (stmt env OperationLogs.count_operation_logs)
    done (Response.ok (log_page (page_result req total (map new_operation_log_response logs))))
