-- ===== src/Behaviour.antt =====
-- What each procedure does, on all its branches.
pub mod Prepared
pub mod Cancellation
pub mod Activation
pub mod Deactivation
pub mod Initiation
pub mod Account
pub mod Flushed
pub mod Handshake
pub mod Replay
pub mod Config
pub mod Sorted
pub mod Pages
pub mod Enumeration
pub mod Outcome
