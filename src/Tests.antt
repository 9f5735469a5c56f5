-- ===== src/Tests.antt =====
-- The theorems at concrete inputs: a Redis and an environment that keep what the program relies on,
-- a small database, and the runs on them.
pub mod Redis
pub mod Fixture
pub mod Store
pub mod Web
pub mod Passwords
pub mod Lists
pub mod Requests
pub mod Process
