-- ===== src/Tests/Waits.antt =====
-- `recv`, `send`, `poll` and `select` on small states.
use socket_hook.Base.{
  is_in, ◌≡◌, ◌≢◌, refl, ℕ, pos, negsuc, minus_one, true, false, ◌==◌, if◌then◌else◌, inl, inr,
  List, [], ◌∷◌, take, drop, arith,
}
use socket_hook.ShareQueue.{ShareQueue, Message}
use socket_hook.ShareQueue.Stream.{IsValid, bytes}
use socket_hook.Hook.State.{
  Hook, ret, MySocket, zero_socket, af_inet, sock_stream, request_queue_of, is_valid_fd, tinydtls,
  has_flag, msg_peek,
}
use socket_hook.Hook.Receive.{recv}
use socket_hook.Hook.Poll.{
  PollFd, hook_fd_poll, hook_fd_poll_from, client_closed, poll_events, can_read,
}
use socket_hook.Hook.Poll.Loop.{OriginalPoll, note_poll}
use socket_hook.Hook.Select.{FdSet, Bits, hook_fd_select}
use socket_hook.Hook.Select.Loop.{OriginalSelect}
use socket_hook.Hook.Proofs.Reading.{delivered, eventually}
use socket_hook.Hook.Proofs.Receiving.{recv_lem}
use socket_hook.Hook.Timers.{sigrtmin, my_signal_handler}
use socket_hook.Hook.Proofs.PollWaits.{is_over, begun}
use socket_hook.Hook.Proofs.SelectCounts.{is_ready, count_ready, hook_fd_select_lem}
use socket_hook.Tests.Hooks.{os, hook}

-- The bytes 1 and 2 of the memory, in an array of 6; and no bytes.
abbrev two_bytes : ShareQueue
two_bytes = record {
  front = pos 1;
  rear = pos 2;
  capacity = 6;
  current_size = 2;
  message_start_offset = 0;
}

two_bytes-IsValid : IsValid two_bytes
two_bytes-IsValid = record {
  room = omega arith;
  size_in = omega arith;
  ends = inr (1, refl, omega arith, refl);
}

abbrev pub no_bytes : ShareQueue
no_bytes = record two_bytes { front = minus_one; rear = minus_one; current_size = 0 }

pub no_bytes-IsValid : IsValid no_bytes
no_bytes-IsValid = record {
  room = omega arith;
  size_in = omega arith;
  ends = inl (refl, refl, refl);
}

-- Every descriptor is the server's side of a stream on unit 0.
abbrev pub stream : MySocket
stream = record zero_socket {
  domain = af_inet;
  type = sock_stream;
  in_use = true;
  is_server = true;
  share_unit_index = pos 0;
}

abbrev pub linked : Hook
linked = record hook {
  socket_arr = λ _. stream;
  units = λ _. record { request_queue = two_bytes; response_queue = two_bytes };
}

linked-valid : is_valid_fd linked (pos 4) ≡ true
unfolding is_valid_fd
linked-valid = refl

abbrev pub fresh : Message
fresh = record { length = 0; buf = [] }

recv_lem_example :
    let t = delivered linked (pos 4) 1 in
    (recv os [] linked (pos 4) 1 msg_peek fresh
      ≡ ret
          (pos 1, take 1 (bytes linked.shm two_bytes))
          (if has_flag msg_peek msg_peek then linked else t))
    × IsValid (request_queue_of t (pos 4))
    × (bytes t.shm (request_queue_of t (pos 4)) ≡ drop 1 (bytes linked.shm two_bytes))
recv_lem_example =
    recv_lem os [] linked (pos 4) 1 msg_peek fresh
      (record { valid = linked-valid; opened = refl; inet = refl; stream = refl }) two_bytes-IsValid
      (omega arith) (omega arith) (omega arith) (omega arith) refl refl

-- Nothing to read, and a receive timeout of a second.
abbrev silent : Hook
silent = record linked {
  socket_arr = λ _. record stream { recv_timeout = record { tv_sec = pos 1; tv_usec = pos 0 } };
  units = λ _. record { request_queue = no_bytes; response_queue = two_bytes };
}

-- The signal handler of the hook, and that it leaves the rest alone.
abbrev handles : Hook → Hook
handles = my_signal_handler sigrtmin

-- The client's bytes come after one round of `poll`.
abbrev sends : Hook → Hook
sends s = record s { units = λ _. record { request_queue = two_bytes; response_queue = two_bytes } }

abbrev entries : List PollFd
entries = record { fd = pos 4; events = 1; revents = 0 } ∷ []

abbrev original_poll : OriginalPoll
original_poll n fds = (pos 0, fds)

sends-eventually : eventually (is_over true entries) (sends ∷ []) (begun silent (pos 5)) ≡ true
unfolding eventually note_poll hook_fd_poll hook_fd_poll_from client_closed poll_events can_read
sends-eventually = refl

-- tinydtls, with descriptor 4 in the set to read. The original `select` refuses less than 0
-- descriptors, and finds none ready.
abbrev dtls : Hook
dtls = record linked { server = tinydtls }

abbrev only_4 : FdSet
only_4 x = x == 4

abbrev original_select : OriginalSelect
original_select n (pos k) sets t = (pos 0, sets)
original_select n (negsuc k) sets t = (minus_one, sets)

abbrev bits : Bits
bits = record {
  read_fd = λ x. is_in x (4 ∷ 2 ∷ []);
  write_fd = λ _. false;
  except_fd = λ _. false;
  bit_count = pos 2;
}

hook_fd_select_lem_example :
    let r = hook_fd_select linked (4 ∷ 2 ∷ []) bits in
    (r.0 ≡ pos (count_ready linked (4 ∷ 2 ∷ [])))
    × (count_ready linked (4 ∷ 2 ∷ []) ≢ 0
        → (x : ℕ)
        → r.1.read_fd x ≡ (if is_in x (4 ∷ 2 ∷ []) then is_ready linked x else bits.read_fd x))
hook_fd_select_lem_example =
    hook_fd_select_lem linked (4 ∷ 2 ∷ []) bits (refl, (refl, tt)) (λ x h. h) refl
