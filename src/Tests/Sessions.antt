-- ===== src/Tests/Sessions.antt =====
-- The start-up and the loop of src/ping_pong.rs with one stream and a small library.
use uring_ws.Base.{
  ℕ, ◌+◌, ◌-◌, ◌*◌, ◌^◌, ◌≡◌, ◌≢◌, refl, arith, true, false, some, [], ◌∷◌, get_elem?, ok, done,
}
use uring_ws.UserData.{owner_of, req_of, event_of, event_code, event_from_u8, Event}
use uring_ws.Memory.{Memory}
use uring_ws.Sqe.{Sqe}
use uring_ws.Ring.{IoUring, io_uring_cq_advance}
use uring_ws.Ring.Slots.{IsValid}
use uring_ws.Ring.Queue.{queued}
use uring_ws.BufRing.{tail_of}
use uring_ws.BufRing.Group.{GroupAt}
use uring_ws.Cqe.{Cqe, from_raw_event, drop_completion}
use uring_ws.Net.{
  TcpStream, new_from_std, set_nonblocking, set_nodelay, as_raw_fd, on_completion, complete_event,
  complete_send, remove,
}
use uring_ws.ReadBuf.Queue.{queued_behind}
use uring_ws.Session.{QueueInit, plain, WebSocket, no_frame, Tungstenite, Running}
use uring_ws.Session.Start.{
  setup_params, init_ring, nonblocking_fd, stream_fd, init_tcp_stream, add_stream,
}
use uring_ws.Session.Start.Setup.{init_ring_checks_ext_arg, recv_entry, add_stream_queues_receive}
use uring_ws.Session.PingPong.{plain_stream, frame_checked, handle_cqe, handle_cqes}
use uring_ws.Session.PingPong.Loop.{Handled, handle_cqe_routes, Advanced, handle_cqes-Advanced}
use uring_ws.Session.PingPong.Receive.{Arrives, Expects, lent, handle_cqe_delivers}
use uring_ws.Tests.Buffers.{made, group, zero_pool, platform, no_memory, two_groups, supplied}
use uring_ws.Tests.Streams.{socket, stream, idle, idle-IsValid}

-- A kernel with EXT_ARG but without SQPOLL_NONFIXED.
abbrev kernel_512 : QueueInit
kernel_512 = λ n p. (0, record p { features = 256 }, idle)

init_ring_checks_ext_arg_example : init_ring kernel_512 ≡ ok idle
init_ring_checks_ext_arg_example =
    init_ring_checks_ext_arg kernel_512 (record (setup_params false) { features = 256 }) idle refl
      refl

-- The codec of a websocket is a count, and no frame is ever complete.
abbrev pub lib : Tungstenite ℕ ℕ ℕ
lib = record {
  install_default = true;
  connect = λ n. done n;
  client_tls_with_config = λ s. some (record { stream = plain s; context = 0 });
  ws_send = λ msg ws. (true, ws);
  ws_read = λ ws. (some (some []), ws);
  ws_flush = λ ws. (true, ws);
  new_context = 0;
  can_write = λ w. true;
  write = λ w s ring msg. ok (true, w, s, ring);
  flush = λ w s. ok (true, w, s);
  read_message_frame = λ w s mem. ok (no_frame, w + 1, s, mem);
  read_tls_message_frame = λ w t s mem. ok (no_frame, w + 1, t, s, mem);
}

abbrev pub empty : Running ℕ ℕ ℕ
empty = record {
  pool = two_groups;
  mem = no_memory;
  ring = idle;
  install_once = false;
  streams = [];
  handlers = [];
}

abbrev pub opened : WebSocket ℕ ℕ ℕ
opened = record {
  stream = plain (record (new_from_std (λ n. n) 1 1 1201) { nonblocking = true });
  context = 0;
}

opens : init_tcp_stream socket lib (λ n. n) 1 1201 false ≡ ok (9, opened, true)
unfolding init_tcp_stream nonblocking_fd stream_fd set_nonblocking set_nodelay as_raw_fd
    new_from_std
opens = refl

add_stream_queues_receive_example :
    (mem : Memory) × (ring : IoUring) × (old : Sqe) × (add_stream socket lib
        (λ n. n)
        platform
        256
        1
        empty
      ≡ ok (record {
        pool = record { buf_ring_ptrs = 0 ∷ 8 ∷ [] };
        mem = mem;
        ring = ring;
        install_once = true;
        streams = opened ∷ [];
        handlers = 0 ∷ [];
      }))
    × IsValid ring
    × (get_elem? idle.sqes 0 ≡ some old)
    × (queued ring ≡ recv_entry 9 1 old ∷ [])
    × (event_of (recv_entry 9 1 old).user_data ≡ event_code Event.multishort_recv)
    × (owner_of (recv_entry 9 1 old).user_data ≡ 1)
    × ((g : GroupAt 4096 8 mem) × (tail_of g.ring ≡ 1024))
add_stream_queues_receive_example =
    add_stream_queues_receive socket lib (λ n. n) platform 256 1 8 4096 9 opened true empty opens
      (supplied 1) (omega arith) (omega arith) idle-IsValid (omega arith)

-- One stream whose message of one byte has been sent, at the wrap of the completion queue's counter.
abbrev sent : Cqe
sent = record { user_data = 1000; res = 1; flags = 0 }

abbrev waiting : Running ℕ ℕ ℕ
waiting = record {
  pool = two_groups;
  mem = no_memory;
  ring = record idle { cq_khead = 2 ^ 32 - 1 };
  install_once = true;
  streams = record { stream = plain stream; context = 0 } ∷ [];
  handlers = 3 ∷ [];
}

abbrev handled : Running ℕ ℕ ℕ
handled = record waiting {
  ring = record idle { cq_khead = 0 };
  streams = record { stream = plain (record stream { pending_sent = [] }); context = 0 } ∷ [];
  handlers = 4 ∷ [];
}

handles : handle_cqe lib (λ c. 2 * c) (some sent) waiting ≡ ok handled
unfolding handle_cqe from_raw_event on_completion complete_event complete_send remove plain_stream
    frame_checked owner_of event_of event_from_u8 drop_completion io_uring_cq_advance
handles = refl

handle_cqe_routes_example :
    (h : Handled lib (λ c. 2 * c) (some sent) waiting handled) × (get_elem? handled.streams
        (owner_of h.completion.user_data)
      ≡ some (record (h.ws) { stream = plain h.stream' }))
    × (get_elem? handled.handlers (owner_of h.completion.user_data) ≡ some h.handler')
    × ((j : ℕ)
        → j ≢ owner_of h.completion.user_data
        → (get_elem? handled.streams j ≡ get_elem? waiting.streams j)
          × (get_elem? handled.handlers j ≡ get_elem? waiting.handlers j))
    × (two_groups ≡ two_groups)
    × (handled.ring ≡ io_uring_cq_advance 1 waiting.ring)
handle_cqe_routes_example = handle_cqe_routes lib (λ c. 2 * c) (some sent) waiting handled handles

handles_all : handle_cqes lib (λ c. 2 * c) 1 0 (some sent ∷ []) waiting ≡ ok handled
unfolding handle_cqes
handles_all = rw handles refl

handle_cqes-Advanced_example : Advanced lib (λ c. 2 * c) 1 waiting handled
handle_cqes-Advanced_example =
    handle_cqes-Advanced lib (λ c. 2 * c) 1 0 (some sent ∷ []) waiting handled (omega arith)
      handles_all

-- Sixty-four bytes in buffer 7 of the group of owner 0.
abbrev arrived : Cqe
arrived = record { user_data = 2 ^ 56 + 1200; res = 64; flags = 7 * 2 ^ 16 + 3 }

abbrev listening : Running ℕ ℕ ℕ
listening = record waiting { pool = zero_pool; mem = made.0 }

abbrev filled : TcpStream ℕ
filled = record stream { inner = queued_behind (λ c. 2 * c) (lent 4096 8 7 arrived) stream.inner }

arrived-Arrives : Arrives 7 arrived
arrived-Arrives = record {
  in_group = omega arith;
  not_empty = omega arith;
  fits = omega arith;
  has_buffer = refl;
  whole = refl;
  buffer_id = refl;
}

stream-Expects : Expects (λ c. 2 * c) arrived.user_data stream
unfolding owner_of event_of req_of
stream-Expects = record {
  owner = refl;
  event = refl;
  req = refl;
  held = omega arith;
  grows = omega arith;
}

handle_cqe_delivers_example :
    handle_cqe lib (λ c. 2 * c) (some arrived) listening
    ≡ ok (record listening {
      ring = io_uring_cq_advance 1 listening.ring;
      streams = record { stream = plain filled; context = 0 } ∷ [];
      handlers = 4 ∷ [];
    })
unfolding owner_of frame_checked
handle_cqe_delivers_example =
    handle_cqe_delivers lib (λ c. 2 * c) 4096 8 7 arrived listening
      (record { stream = plain stream; context = 0 }) stream filled 3 4 no_frame made.0 group refl
      arrived-Arrives refl refl stream-Expects refl refl refl
