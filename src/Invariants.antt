-- ===== src/Invariants.antt =====
-- Invariants of the database, kept by every transaction.
pub mod Edits
pub mod Transactions
pub mod Outcomes
pub mod Rows
pub mod Written
pub mod Steps
pub mod Runs
pub mod DebtorKeys
pub mod DebtorRuns
pub mod Checked
pub mod CheckedRuns
pub mod CheckedTransfers
pub mod MeetsChecks
pub mod Announcements
pub mod Announcing
pub mod OrphanAccounts
pub mod SilentChanges
pub mod AnnouncedRuns
pub mod Listed
