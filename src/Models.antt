-- ===== src/Models.antt =====
-- src/bk/models.py, and the ledger's documents as ledger_schema.py admits them.
-- An instant is a number of whole seconds since the epoch: `parse_iso` and `utc_now` drop the
-- microseconds. A JSON key that may be missing is an `Option`.
mod Defs
mod Requests
mod Equality
pub use Requests.*
pub use Equality.*
pub use Defs.*
