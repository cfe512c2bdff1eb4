-- ===== src/Models.antt =====
-- swpt_debtors/models.py: the constants, the tables and the database that holds them.
pub mod Constants
pub mod Debtors
pub mod Transfers
pub mod Signals
pub mod Tables
pub mod Flags
unfoldable pub use Constants.*
unfoldable pub use Debtors.*
unfoldable pub use Transfers.*
unfoldable pub use Signals.*
unfoldable pub use Tables.*
