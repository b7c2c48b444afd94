-- ===== src/Tests/Calls.antt =====
-- `accept`, `sendto` and `recvfrom` on small states.
use socket_hook.Base.{replicate, ◌-◌, ◌≡◌, refl, pos, true, inr, [], ◌∷◌, ◌++◌, arith}
use socket_hook.Base.Memory.{window}
use socket_hook.Stack.{pop, is_empty_stack}
use socket_hook.Queue.{SockAddr, Connection}
use socket_hook.Queue.Refine as Queues
use socket_hook.ShareQueue.{ShareQueue, Message}
use socket_hook.ShareQueue.Slots as Slots
use socket_hook.Hook.State.{
  Hook, ret, zero_socket, sock, sock_dgram, is_valid_fd, cmp_addr, response_queue_of,
}
use socket_hook.Hook.Accept.{accept}
use socket_hook.Hook.Datagram.{sendto}
use socket_hook.Hook.Proofs.Cpus.{after}
use socket_hook.Hook.Proofs.Answers.{acception}
use socket_hook.Hook.Proofs.Accepting.{accept_lem}
use socket_hook.Hook.Proofs.Messages.{sent_messages, received_messages, sendto_lem}
use socket_hook.Tests.Hooks.{os, hook}

abbrev address : SockAddr
address = record { sin_family = 2; sin_port = 53 }

abbrev connection : Connection
connection = record { addr = address; client_fd = pos 8 }

-- Descriptor 2 listens at the address, and a client waits for it.
abbrev listening : Hook
listening = record hook {
  socket_arr = λ _. record zero_socket {
    in_use = true;
    has_bind = true;
    is_accept_fd = true;
    addr = address;
  };
  connect_queue = record { front = 0; rear = 0; size = 1; capacity = 20; array = λ _. connection };
}

listening-valid : is_valid_fd listening (pos 2) ≡ true
unfolding is_valid_fd
listening-valid = refl

listening-free :
    ((pop listening.available_fd).0 ≡ pos 1) × ((pop listening.available_share_unit).0 ≡ pos 0)
unfolding pop is_empty_stack
listening-free = (refl, refl)

listening-queues : Queues.IsValid listening.connect_queue × Queues.IsValid listening.accept_queue
listening-queues = (
  record {
    room = omega arith;
    small = omega arith;
    front_in = omega arith;
    rear_in = omega arith;
    size_in = omega arith;
    ends = refl;
  },
  record {
    room = omega arith;
    small = omega arith;
    front_in = omega arith;
    rear_in = omega arith;
    size_in = omega arith;
    ends = refl;
  },
)

listening-waits : Queues.contents listening.connect_queue ≡ connection ∷ []
unfolding window
listening-waits = refl

same_address : cmp_addr address address ≡ true
unfolding cmp_addr
same_address = refl

accept_lem_example :
    let t = after listening (accept os [] listening (pos 2)) in
    (accept os [] listening (pos 2) ≡ ret (pos 1) t)
    × (Queues.contents t.connect_queue ≡ [])
    × (Queues.contents t.accept_queue
        ≡ Queues.contents listening.accept_queue ++ acception connection (pos 0) ∷ [])
    × ((sock t (pos 1)).share_unit_index ≡ pos 0)
    × (is_valid_fd t (pos 1) ≡ true)
accept_lem_example =
    accept_lem os [] listening (pos 2) 1 0 connection [] refl refl listening-valid refl
      listening-free.0 (omega arith) refl listening-free.1 (omega arith) listening-queues.0
      listening-waits same_address listening-queues.1 (omega arith)

-- The message 7 is alone in the last of three slots.
abbrev one_message : ShareQueue
one_message = record {
  front = pos 2;
  rear = pos 2;
  capacity = 3;
  current_size = 1;
  message_start_offset = 0;
}

one_message-IsValid : Slots.IsValid one_message
one_message-IsValid = record {
  room = omega arith;
  size_in = omega arith;
  ends = inr (2, 0, refl, refl, refl, omega arith);
}

abbrev message : Message
message = record { length = 3; buf = 7 ∷ 8 ∷ 9 ∷ [] }

-- Descriptor 5 is a datagram socket on unit 0.
abbrev datagrams : Hook
datagrams = record hook {
  socket_arr =
      λ _. record zero_socket { in_use = true; type = sock_dgram; share_unit_index = pos 0 };
  units = λ _. record { request_queue = one_message; response_queue = one_message };
  messages = λ _ _. message;
}

datagrams-valid : is_valid_fd datagrams (pos 5) ≡ true
unfolding is_valid_fd
datagrams-valid = refl

datagrams-waits : received_messages datagrams (pos 5) ≡ message ∷ []
unfolding window
datagrams-waits = refl

abbrev two_byte_message : Message
two_byte_message = record { length = 2; buf = 1 ∷ 2 ∷ [] ++ replicate (1500 - 2) 0 }

sendto_lem_example :
    let t = after datagrams (sendto os [] datagrams (pos 5) (1 ∷ 2 ∷ []) 2 0) in
    (sendto os [] datagrams (pos 5) (1 ∷ 2 ∷ []) 2 0 ≡ ret (pos 2) t)
    × Slots.IsValid (response_queue_of t (pos 5))
    × (sent_messages t (pos 5) ≡ sent_messages datagrams (pos 5) ++ two_byte_message ∷ [])
sendto_lem_example =
    sendto_lem os [] datagrams (pos 5) (1 ∷ 2 ∷ []) 2 0 (omega arith) (omega arith) datagrams-valid
      refl one_message-IsValid (omega arith)
