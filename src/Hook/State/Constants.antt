-- ===== src/Hook/State/Constants.antt =====
-- The constants of share.h and socket.h, and those of the system's headers on Linux.
use socket_hook.Base.{ℕ, ◌*◌, ℤ, pos, Bool, not, ◌==◌, bit_and}

-- share.h
abbrev pub datagram_queue_capacity : ℕ
datagram_queue_capacity = 50

-- sizeof(message_t) is 4 + 1500.
abbrev pub stream_queue_capacity : ℕ
stream_queue_capacity = 50 * 1504

abbrev pub connect_queue_capacity : ℕ
connect_queue_capacity = 20

abbrev pub accept_queue_capacity : ℕ
accept_queue_capacity = 10

abbrev pub socket_num : ℕ
socket_num = 5

-- <sys/socket.h>, <fcntl.h>, <errno.h>, <poll.h> on Linux
abbrev pub af_unix : ℤ
af_unix = pos 1

abbrev pub af_inet : ℤ
af_inet = pos 2

abbrev pub af_inet6 : ℤ
af_inet6 = pos 10

abbrev pub sock_stream : ℤ
sock_stream = pos 1

abbrev pub sock_dgram : ℤ
sock_dgram = pos 2

abbrev pub o_nonblock : ℕ
o_nonblock = 2048

abbrev pub msg_dontwait : ℕ
msg_dontwait = 64

abbrev pub msg_trunc : ℕ
msg_trunc = 32

abbrev pub msg_waitall : ℕ
msg_waitall = 256

abbrev pub ewouldblock : ℕ
ewouldblock = 11

abbrev pub emfile : ℕ
emfile = 24

abbrev pub epipe : ℕ
epipe = 32

abbrev pub msg_peek : ℕ
msg_peek = 2

abbrev pub msg_more : ℕ
msg_more = 32768

abbrev pub msg_nosignal : ℕ
msg_nosignal = 16384

-- socket.h
abbrev pub lo_mss : ℕ
lo_mss = 65496

-- flags & bit
abbrev pub has_flag : ℕ → ℕ → Bool
has_flag flags bit = not (bit_and flags bit == 0)
