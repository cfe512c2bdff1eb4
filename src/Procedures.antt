-- ===== src/Procedures.antt =====
-- swpt_debtors/procedures.py. A procedure is a database transaction.
pub mod Monad
pub mod Decimal
pub mod Signalling
pub mod Flush
pub mod Debtors
pub mod Config
pub mod Transfers
pub mod Messages
pub mod Incoming
pub mod AccountUpdate
pub mod Documents
pub mod Listing
