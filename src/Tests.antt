-- ===== src/Tests.antt =====
-- Each theorem at a concrete input, and runs of the program.
mod Sample
mod Transfers
mod Accounts
mod Web
mod Lifecycle
mod Exchange
mod Configured
mod Schemas
mod Node
mod Served
mod Operations
