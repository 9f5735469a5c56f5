-- ===== src/Db/OperationLogs.antt =====
-- db/sqlc/operation_log.sql.go: the queries on the table `operation_logs`.
use template_golang_web.Base.{
  ℕ, ◌+◌, String, Bool, not, ◌&&◌, Option, List, [], ◌∷◌, ◌++◌, ℤ, length, select, any, sort_by,
  leb, ltb, ◌==◌, if◌then◌else◌,
}
use template_golang_web.Db.Model.{OperationLog, Database}
use template_golang_web.Db.Error.{Error, ok, err, Query}
use template_golang_web.Db.Users.{page}
use template_golang_web.Utf8.{is_text, is_varchar}

abbrev pub with_logs : List OperationLog → Database → Database
with_logs rows d = record d { tables = record (d.tables) { operation_logs = rows } }

unfoldable pub count_operation_logs : Query ℕ
count_operation_logs now d = (ok (length d.tables.operation_logs), d)

-- created_at >= $1
unfoldable pub count_operation_logs_since : ℕ → Query ℕ
count_operation_logs_since created_at now d =
    (ok (length (select (λ l. leb created_at l.created_at) d.tables.operation_logs)), d)

pub record CreateOperationLogParams : Type 0 where
  pub user_id : Option ℕ
  pub username : String
  pub method : String
  pub path : String
  pub request_body : List ℕ
  pub status_code : ℕ
  pub request_id : String

abbrev pub new_log : CreateOperationLogParams → ℕ → ℕ → OperationLog
new_log arg id now = record {
  id = id;
  user_id = arg.user_id;
  username = arg.username;
  method = arg.method;
  path = arg.path;
  request_body = arg.request_body;
  status_code = arg.status_code;
  request_id = arg.request_id;
  created_at = now;
}

-- A statement of which a text parameter is no text of the encoding is refused before it runs.
abbrev pub is_loggable : CreateOperationLogParams → Bool
is_loggable arg =
    is_varchar arg.username
    && is_varchar arg.method
    && is_varchar arg.path
    && is_text arg.request_body
    && is_varchar arg.request_id

unfoldable pub create_operation_log : CreateOperationLogParams → Query OperationLog
create_operation_log arg now d =
    let id = d.sequences.operation_logs in
    let drawn = record d { sequences = record (d.sequences) { operation_logs = id + 1 } } in
    if is_loggable arg
    then if any (λ l. l.id == id) d.tables.operation_logs
      then (err Error.unique_violation, drawn)
      else (
        ok (new_log arg id now),
        with_logs (d.tables.operation_logs ++ new_log arg id now ∷ []) drawn,
      )
    else (err Error.invalid_byte_sequence, d)

-- created_at < $1
abbrev pub is_before : ℕ → OperationLog → Bool
is_before cutoff l = ltb l.created_at cutoff

unfoldable pub delete_operation_logs_before : ℕ → Query ℕ
delete_operation_logs_before created_at now d = (
  ok (length (select (is_before created_at) d.tables.operation_logs)),
  with_logs (select (λ l. not (is_before created_at l)) d.tables.operation_logs) d,
)

pub record ListOperationLogsParams : Type 0 where
  pub limit : ℤ
  pub offset : ℤ

-- ORDER BY id DESC
abbrev pub by_id_desc : OperationLog → OperationLog → Bool
by_id_desc k l = leb l.id k.id

unfoldable pub list_operation_logs : ListOperationLogsParams → Query (List OperationLog)
list_operation_logs arg now d =
    (page arg.limit arg.offset (sort_by by_id_desc d.tables.operation_logs), d)
