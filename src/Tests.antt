-- ===== src/Tests.antt =====
-- The code on small inputs, and the theorems at concrete arguments.
pub mod Queues
pub mod Streams
pub mod Hooks
pub mod Owners
pub mod Calls
pub mod Waits
pub mod Skips
pub mod Times
pub mod Lists
pub mod Transfers
