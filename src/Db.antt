-- ===== src/Db.antt =====
-- The database layer (db/sqlc and db/migration): one module for the rows of models.go, one for the
-- queries of each *.sql.go file, the tables of the migrations with their constraints, and the
-- transactions of the tx_*.go files.
pub mod Model
pub mod Error
pub mod Users
pub mod AdminUsers
pub mod Wallets
pub mod Entries
pub mod OperationLogs
pub mod Roles
pub mod Tx
pub mod Store
pub mod Ledger
pub mod Registry
