-- ===== src/Api/Audit/Logging.antt =====
-- api/audit.go: which requests the log keeps, and what an entry holds.
use template_golang_web.Base.{
  ℕ, ◌≡◌, refl, arith, String, true, false, Option, none, some, [], ◌∷◌, ◌++◌, any, take, ◌==◌,
  Bool-cases, ◌⊎◌, inl, inr,
}
use template_golang_web.Db.Model.{Database, OperationLog}
use template_golang_web.Db.OperationLogs.{
  CreateOperationLogParams, create_operation_log, is_loggable, new_log,
}
use template_golang_web.Env.{Env, World, AuthUser, fine, stmt}
use template_golang_web.Db.Tx.Atomic.{stmt-db-cases}
use template_golang_web.Db.Tx.Verdict.{stmt-fine}
use template_golang_web.Api.Response.{Response}
use template_golang_web.Api.Audit.{
  Bytes, mask_sensitive_fields, is_write_method, log_params, audit_log_middleware, audit_body,
}

-- The columns of the user, which are empty where the request was admitted for none.
abbrev pub IsOf : Option AuthUser → OperationLog → Type 0
IsOf none l = (l.user_id ≡ none) × (l.username ≡ "")
IsOf (some user) l = (l.user_id ≡ some user.user_id) × (l.username ≡ user.username)

abbrev pub body_or_empty : Option Bytes → Bytes
body_or_empty none = []
body_or_empty (some body) = body

module _ {R : Type 0} (env : Env R) where
  -- The entry of a request that was answered for the user with the status, at the time.
  pub record IsEntry (method path : String) (body : Option Bytes) (request_id : String)
      (user : Option AuthUser) (status now : ℕ) (l : OperationLog) : Type 0 where
    pub verb : l.method ≡ method
    pub at : l.path ≡ path
    pub id_of : l.request_id ≡ request_id
    pub by : IsOf user l
    pub answered : l.status_code ≡ status
    pub masked : l.request_body ≡ mask_sensitive_fields env (take 4096 (body_or_empty body))
    pub time : l.created_at ≡ now

  log_params-IsEntry :
      (method path : String) (body : Option Bytes) (request_id : String) (user : Option AuthUser)
      (status id now : ℕ)
      → IsEntry method path body request_id user status now
          (new_log (log_params env method path body request_id user status) id now)
  unfolding log_params audit_body
  log_params-IsEntry method path body request_id user status id now = record {
    verb = refl;
    at = refl;
    id_of = refl;
    by =
        elim user
          as (λ k. IsOf k (new_log (log_params env method path body request_id k status) id now)) [
            | none ↦ (refl, refl)
            | some u ↦ (refl, refl)
          ];
    answered = refl;
    masked =
        elim body
          as (λ k.
            mask_sensitive_fields env (audit_body k)
            ≡ mask_sensitive_fields env (take 4096 (body_or_empty k))) [
              | none ↦ refl
              | some b ↦ refl
            ];
    time = refl;
  }

  -- One entry is added, and nothing else has changed.
  abbrev IsAdded : OperationLog → World R → World R → Type 0
  IsAdded l before after =
      after.db.tables
      ≡ record (before.db.tables) { operation_logs = before.db.tables.operation_logs ++ l ∷ [] }

  -- The entry of the request is the only change that the layer made after the handlers.
  abbrev pub IsLogged :
      String
      → String
      → Option Bytes
      → String
      → (Response × Option AuthUser) × World R
      → World R
      → Type 0
  IsLogged method path body request_id before after =
      (l : OperationLog) × IsEntry method path body request_id before.0.1 before.0.0.status
        before.1.now l
      × IsAdded l before.1 after

  log_cases :
      (arg : CreateOperationLogParams) (now : ℕ) (d : Database)
      → ((create_operation_log arg now d).1.tables ≡ d.tables)
        ⊎ ((create_operation_log arg now d).1.tables ≡ record (d.tables) {
          operation_logs =
              d.tables.operation_logs ++ new_log arg d.sequences.operation_logs now ∷ [];
        })
  unfolding create_operation_log
  log_cases arg now d = ground arith

  stmt_log :
      (arg : CreateOperationLogParams) (w : World R)
      → ((stmt env (create_operation_log arg) w).1.db.tables ≡ w.db.tables)
        ⊎ ((id : ℕ) × IsAdded (new_log arg id w.now) w (stmt env (create_operation_log arg) w).1)
  stmt_log arg w = elim (stmt-db-cases env (create_operation_log arg) w) [
    | inl same ↦ inl (rw same refl)
    | inr ran ↦ elim (log_cases arg w.now w.db) [
      | inl same ↦ inl (rw ran same)
      | inr logged ↦ inr (w.db.sequences.operation_logs, rw ran logged)
    ]
  ]

  -- The layer hands on the answer of the handlers. After them it adds at most one entry to the log
  -- and changes no other table, whatever befalls its call; the entry, which only a writing request
  -- has, holds the status of the answer, the user whom the request was admitted for, the request's
  -- method, path and id, and its body, cut to 4096 bytes and masked.
  pub audit_log_middleware-IsLogged :
      (method path : String) (body : Option Bytes) (request_id : String)
      (run : World R → (Response × Option AuthUser) × World R) (w : World R)
      → let after = run w in
        let ran = audit_log_middleware env method path body request_id run w in
        (ran.0 ≡ after.0.0)
        × ((ran.1.db.tables ≡ after.1.db.tables)
            ⊎ ((is_write_method method ≡ true) × IsLogged method path body request_id after ran.1))
  unfolding audit_log_middleware
  audit_log_middleware-IsLogged method path body request_id run w =
      let user = (run w).0.1 in
      let status = (run w).0.0.status in
      let now = (run w).1.now in
      elim (Bool-cases (is_write_method method)) [
        | inr reading ↦ (ground arith, inl (ground arith))
        | inl writing ↦
            let arg = log_params env method path body request_id user status in
            (
              rw writing refl,
              elim (stmt_log arg (run w).1) [
                | inl same ↦ inl (rw writing same)
                | inr (id, logged) ↦ inr (
                  writing,
                  (
                    new_log arg id now,
                    log_params-IsEntry method path body request_id user status id now,
                    rw writing logged,
                  ),
                )
              ],
            )
      ]

  -- Where no call fails, a writing request leaves an entry, if PostgreSQL takes the masked body, the
  -- path, the id of the request, the method and the user's name as texts and the sequence of the log is
  -- ahead of its entries.
  pub audit_log_middleware_writes :
      (healthy : (n : ℕ) → env.fault n ≡ fine) (method path : String) (body : Option Bytes)
      (request_id : String) (run : World R → (Response × Option AuthUser) × World R) (w : World R)
      → is_write_method method ≡ true
      → is_loggable (log_params env method path body request_id (run w).0.1 (run w).0.0.status)
        ≡ true
      → any (λ l. l.id == (run w).1.db.sequences.operation_logs) (run w).1.db.tables.operation_logs
        ≡ false
      → IsLogged method path body request_id
          (run w)
          (audit_log_middleware env method path body request_id run w).1
  unfolding audit_log_middleware create_operation_log
  audit_log_middleware_writes healthy method path body request_id run w writing readable fresh =
      let after = run w in
      let user = after.0.1 in
      let status = after.0.0.status in
      let id = after.1.db.sequences.operation_logs in
      let arg = log_params env method path body request_id user status in
      let ran = stmt-fine env healthy (create_operation_log arg) after.1 in
      (
        new_log arg id after.1.now,
        log_params-IsEntry method path body request_id user status id after.1.now,
        ground (arith, ran),
      )
