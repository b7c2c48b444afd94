-- ===== src/Hook.antt =====
-- socket_hook.h and socket_hook.c: the library that takes the place of libc's socket functions in
-- the server, and serves the sockets that it manages itself from share memory.
pub mod State
pub mod Init
pub mod Sockets
pub mod Accept
pub mod Close
pub mod Options
pub mod Stream
pub mod Receive
pub mod Send
pub mod Datagram
pub mod Poll
pub mod Select
pub mod Fork
pub mod Timers
pub mod Files
pub mod Proofs
