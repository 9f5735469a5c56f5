-- ===== src/Db/Tx/Atomic.antt =====
-- db/sqlc/store.go: what one statement and one transaction do to the database, whatever faults
-- befall their calls.
use template_golang_web.Base.{ℕ, ◌≡◌, ◌⊎◌, inl, inr, arith, ◌+◌}
use template_golang_web.Db.Model.{Tables, Database}
use template_golang_web.Db.Error.{Error, ok, err, Result-cases, Query}
use template_golang_web.Env.{Env, World, Call, ticked, ◌>>=◌, stmt}
use template_golang_web.Db.Tx.{exec_tx}

-- The call returned a value.
abbrev pub Returns : {R A : Type 0} → Call R A → World R → A → Type 0
Returns m w a = (m w).0 ≡ ok a

module _ {R : Type 0} (env : Env R) where
  -- A statement that returns has run once.
  pub stmt-eq-ok :
      {A : Type 0} (q : Query A) (w : World R) (a : A)
      → (stmt env q w).0 ≡ ok a
      → ((q w.now w.db).0 ≡ ok a)
        × ((stmt env q w).1 ≡ record w { db = (q w.now w.db).1; tick = w.tick + 1 })
  unfolding stmt
  stmt-eq-ok q w a h = ground arith

  pub stmt_keeps :
      (P : Tables → Type 0) {A : Type 0} (q : Query A) (w : World R)
      → ((now : ℕ) (d : Database) → P d.tables → P (q now d).1.tables)
      → P w.db.tables
      → P (stmt env q w).1.db.tables
  unfolding stmt
  stmt_keeps P q w keep p = ground (arith, keep w.now w.db p)

  -- A statement has run once or not at all.
  pub stmt-db-cases :
      {A : Type 0} (q : Query A) (w : World R)
      → ((stmt env q w).1.db ≡ w.db) ⊎ ((stmt env q w).1.db ≡ (q w.now w.db).1)
  unfolding stmt
  stmt-db-cases q w = ground arith

  pub stmt_now : {A : Type 0} (q : Query A) (w : World R) → (stmt env q w).1.now ≡ w.now
  unfolding stmt
  stmt_now q w = ground arith

  pub exec_tx-eq-ok :
      {A : Type 0} (fn : Call R A) (w : World R) (a : A)
      → (exec_tx env fn w).0 ≡ ok a
      → ((fn (ticked w)).0 ≡ ok a) × ((exec_tx env fn w).1.db ≡ (fn (ticked w)).1.db)
  unfolding exec_tx
  exec_tx-eq-ok fn w a h = ground arith

  exec_tx_err :
      {A : Type 0} (fn : Call R A) (w : World R) (e : Error)
      → (fn (ticked w)).0 ≡ err e
      → (exec_tx env fn w).1.db.tables ≡ w.db.tables
  unfolding exec_tx
  exec_tx_err fn w e h = ground arith

  exec_tx_cases :
      {A : Type 0} (fn : Call R A) (w : World R) (a : A)
      → (fn (ticked w)).0 ≡ ok a
      → ((exec_tx env fn w).1.db.tables ≡ w.db.tables)
        ⊎ ((exec_tx env fn w).1.db.tables ≡ (fn (ticked w)).1.db.tables)
  unfolding exec_tx
  exec_tx_cases fn w a h = ground arith

  -- A transaction leaves the tables as they were, or has run its body to the end.
  pub exec_tx_atomic :
      {A : Type 0} (fn : Call R A) (w : World R)
      → ((exec_tx env fn w).1.db.tables ≡ w.db.tables)
        ⊎ ((a : A) × ((fn (ticked w)).0 ≡ ok a)
            × ((exec_tx env fn w).1.db.tables ≡ (fn (ticked w)).1.db.tables))
  exec_tx_atomic fn w = elim (Result-cases (fn (ticked w)).0) [
    | inr (e, failed) ↦ inl (exec_tx_err fn w e failed)
    | inl (a, done) ↦ elim (exec_tx_cases fn w a done) [
      | inl same ↦ inl same
      | inr through ↦ inr (a, done, through)
    ]
  ]

  pub exec_tx_keeps :
      (P : Tables → Type 0) {A : Type 0} (fn : Call R A) (w : World R)
      → P w.db.tables
      → P (fn (ticked w)).1.db.tables
      → P (exec_tx env fn w).1.db.tables
  exec_tx_keeps P fn w before after = elim (exec_tx_atomic fn w) [
    | inl same ↦ rw same before
    | inr (_, _, through) ↦ rw through after
  ]

  -- The world after a statement that returns.
  abbrev pub after_stmt : {A : Type 0} → Query A → World R → World R
  after_stmt q w = record w { db = (q w.now w.db).1; tick = w.tick + 1 }

  -- A chain that returns has run its first statement once and goes on from there.
  pub stmt->>=-eq-ok :
      {A B : Type 0} (q : Query A) (f : A → Call R B) (w : World R) (b : B)
      → ((stmt env q >>= f) w).0 ≡ ok b
      → (a : A) × ((q w.now w.db).0 ≡ ok a)
        × ((f a (after_stmt q w)).0 ≡ ok b)
        × (((stmt env q >>= f) w).1 ≡ (f a (after_stmt q w)).1)
  stmt->>=-eq-ok q f w b h = elim (Result-cases (stmt env q w).0) [
    | inr (e, failed) ↦ absurd (ground arith)
    | inl (a, done) ↦
        let (ran, world) = stmt-eq-ok q w a done in (a, ran, ground arith, ground arith)
  ]

-- A chain keeps what its first call keeps and its rest keeps.
pub >>=_keeps :
    {R A B : Type 0} (P : Tables → Type 0) (m : Call R A) (f : A → Call R B) (w : World R)
    → P (m w).1.db.tables
    → ((a : A) → P (f a (m w).1).1.db.tables)
    → P ((m >>= f) w).1.db.tables
>>=_keeps P m f w first rest = elim (Result-cases (m w).0) [
  | inr (e, failed) ↦ let same : ((m >>= f) w).1 ≡ (m w).1 = ground arith in rw same first
  | inl (a, done) ↦ let same : ((m >>= f) w).1 ≡ (f a (m w).1).1 = ground arith in rw same (rest a)
]
