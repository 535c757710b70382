-- ===== src/Process.antt =====
-- src/process.rs: the process manager, a table of children that are started, watched, restarted and
-- signalled.
pub mod Record
pub mod Restart
pub mod State
pub mod Launch
pub mod Table
pub mod Signals
pub mod Supervise
pub mod Stdin
pub mod Pump
pub mod Contract
