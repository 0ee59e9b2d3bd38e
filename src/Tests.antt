-- ===== src/Tests.antt =====
-- Concrete inputs for the theorems: a host, files and a daemon, and each theorem at one of them.
pub mod Host
pub mod Storage
pub mod Entries
pub mod Security
pub mod Lockdown
pub mod Setup
pub mod Interface
pub mod Clients
pub mod Runs
