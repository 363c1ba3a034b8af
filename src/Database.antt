-- ===== src/Database.antt =====
-- core/database.py: the tables, and a session that commits or rolls back.
mod Tables
pub mod Session
pub mod Keeps
unfoldable pub use Tables.*
