-- ===== src/Daemon.antt =====
-- usbguard_defense/daemon.py: the parts of the `Daemon` class, one to a child module.
pub mod State
pub mod Throttle
pub mod Lockdown
pub mod Events
pub mod Commands
pub mod Dispatch
pub mod Run
pub mod Broadcasts
pub mod Service
