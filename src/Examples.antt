-- ===== src/Examples.antt =====
-- A concrete host and the theorems at concrete inputs.
pub mod Toy
pub mod Processes
pub mod Memory
pub mod Errnos
pub mod Stacks
pub mod Traps
pub mod Server
pub mod Words
pub mod Stats
pub mod Probe
pub mod Replies
pub mod Files
pub mod Calls
pub mod Wipe
