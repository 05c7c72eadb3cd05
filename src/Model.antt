-- ===== src/Model.antt =====
-- The rows of the database, the enumerations stored in them, and what the code takes from outside.
pub mod Enums
pub mod Rows
pub mod Logs
pub mod Env
