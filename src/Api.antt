-- ===== src/Api.antt =====
-- The package api: one module for the responses, one for each file of handlers, the middleware and
-- the routes.
pub mod Response
pub mod Handler
pub mod Auth
pub mod Middleware
pub mod Page
pub mod Users
pub mod Wallets
pub mod AdminUsers
pub mod System
pub mod Audit
pub mod Server
pub mod Pipeline
