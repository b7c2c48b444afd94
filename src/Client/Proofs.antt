-- ===== src/Client/Proofs.antt =====
-- Proofs about the client, and about the client and the hook together.
pub mod Transfer
pub mod Receiving
pub mod Datagrams
pub mod Handshake
pub mod Timeouts
pub mod Controls
