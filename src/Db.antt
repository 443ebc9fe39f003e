-- ===== src/Db.antt =====
-- The database layer: the tables of app/db/models.py, and the log rows that the operations add.
mod Models
mod Audit
pub use Models.*
unfoldable pub use Audit.*
