-- ===== src/Client.antt =====
-- The sample client, inet_client_shm.c, by what its functions do: its socket, the transfer of
-- bytes, the handshake, and `my_poll`.
pub mod State
pub mod Socket
pub mod Transfer
pub mod Connect
pub mod Poll
pub mod Timers
pub mod Control
pub mod Proofs
