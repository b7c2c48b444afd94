-- ===== src/Hook/Proofs.antt =====
-- Proofs about the hook's functions, by what they prove.
pub mod Owners
pub mod Resources
pub mod Lifecycle
pub mod Closing
pub mod Answers
pub mod Accepting
pub mod Messages
pub mod Settings
pub mod Reading
pub mod Writing
pub mod Receiving
pub mod Sending
pub mod SendSkips
pub mod Timeouts
pub mod WaitAll
pub mod Polling
pub mod PollWaits
pub mod PollTimeouts
pub mod SelectWaits
pub mod SelectCounts
pub mod Selecting
pub mod Cpus
pub mod Times
