-- ===== src/Lifecycle.antt =====
-- The life of an issuing transfer, as an abstract machine: which changes of the table of transfers a
-- transaction may make, that every transaction makes no other, and what follows for all runs.
pub mod Changes
pub mod Keys
pub mod History
pub mod Advances
pub mod Steps
pub mod Runs
pub mod Promises
pub mod Protocol
pub mod Exchange
pub mod Configured
