-- ===== src/Examples.antt =====
-- The theorems of the library at concrete inputs, a module for each of their subjects.
pub mod CommandLines
pub mod Data
pub mod Frames
pub mod Stores
pub mod Processes
pub mod Limits
pub mod Ticks
pub mod Watching
pub mod Control
pub mod Supervision
pub mod Calls
pub mod Cgroups
pub mod Texts
pub mod Startup
pub mod StoreFiles
