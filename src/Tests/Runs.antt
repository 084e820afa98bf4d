-- ===== src/Tests/Runs.antt =====
-- Runs of a buffer group and of the program of src/ping_pong.rs over one stream.
use uring_ws.Base.{
  ◌-◌, true, false, ℕ, ◌+◌, ◌*◌, ◌%◌, ◌^◌, ◌≤◌, ◌<◌, ◌≡◌, ◌≢◌, refl, sym, subst, arith, some, List,
  [], ◌∷◌, map, length, get_elem?, ok,
}
use uring_ws.UserData.{owner_of, event_of}
use uring_ws.BufRing.{KernelBuffer, tail_of}
use uring_ws.BufRing.Group.{GroupAt}
use uring_ws.BufRing.Cycle.{Cycle}
use uring_ws.BufRing.Cycle.Sound.{Reach}
use uring_ws.BufRing.Cycle.Ownership.{every_buffer_can_return}
use uring_ws.Ring.Slots.{IsValid}
use uring_ws.Cqe.{Cqe, from_raw_event}
use uring_ws.ReadBuf.{new_vec_reader}
use uring_ws.ReadBuf.Effect.{bufs}
use uring_ws.Net.{TcpStream, new_from_std}
use uring_ws.Net.Reads.{Reads, no_read}
use uring_ws.Session.{WebSocket, Running, plain, QueueInit, Kernel}
use uring_ws.Session.Start.{setup_params}
use uring_ws.Session.Start.Setup.{init_ring_checks_ext_arg}
use uring_ws.Session.PingPong.Program.{open_all, rounds, ping_pong, ping_pong_opens}
use uring_ws.Session.PingPong.Receive.{lent}
use uring_ws.Session.PingPong.Buffers.{IsReader, Announces}
use uring_ws.Session.PingPong.Runs.{Opened, Runs, begins, fills}
use uring_ws.Session.PingPong.Arrival.{arrival_accepted, buffers_held_once, ids_of}
use uring_ws.Session.PingPong.Opening.{Connects}
use uring_ws.Tests.Buffers.{
  no_memory, platform, pool, supplied, zero_pool, made, group, place, first_posted, one_lent, runs,
  three_steps,
}
use uring_ws.Tests.Streams.{socket, stream, idle, idle-IsValid}
use uring_ws.Tests.Sessions.{lib}

every_buffer_can_return_example :
    (later : Cycle) × Reach pool 1 8 4096 one_lent later
    × (later.posted ≡ [])
    × (later.lent ≡ [])
    × (g : GroupAt 4096 8 later.mem) × (tail_of g.ring % 2 ^ 16 ≡ 1026)
every_buffer_can_return_example =
    every_buffer_can_return platform 1 8 4096 one_lent (runs one_lent three_steps)

abbrev pub fresh_stream : TcpStream ℕ
fresh_stream = record stream { pending_sent = [] }

abbrev pub start : Running ℕ ℕ ℕ
start = record {
  pool = zero_pool;
  mem = made.0;
  ring = idle;
  install_once = true;
  streams = record { stream = plain fresh_stream; context = 0 } ∷ [];
  handlers = 0 ∷ [];
}

abbrev pub start-Opened : Opened 0 8 4096 start
start-Opened = record {
  entry = refl;
  group = group;
  full = made.3;
  ws = record { stream = plain fresh_stream; context = 0 };
  stream = fresh_stream;
  found = refl;
  is_plain = refl;
  unread = refl;
  nonblocking = refl;
  owner = refl;
}

lib-IsReader : IsReader socket lib
lib-IsReader h s m msg h' s' m' e =
    let same_stream : s ≡ s' = cc in
    let same_mem : m ≡ m' = cc in
    subst (λ t. Reads socket s m t m') same_stream (subst (Reads socket s m s) same_mem no_read)

-- The kernel has put 100 bytes in the first buffer.
abbrev pub filled : Running ℕ ℕ ℕ
filled = record start { mem = record (start.mem) { bytes = λ a. 7 } }

filled_run : Runs socket lib (λ c. 2 * c) 0 8 4096 start filled 1 (first_posted ∷ [])
filled_run =
    fills group.ring (place 0 (omega arith)).buf 100 (λ a. 7) begins group.there
      (omega (arith, made.3)) (place 0 (omega arith)).at_place
      (omega (arith, (place 0 (omega arith)).len_lem))

abbrev pub hundred : Cqe
hundred = record { user_data = 2 ^ 56 + 1200; res = 100; flags = 3 }

pub hundred-Announces : Announces 0 first_posted hundred
unfolding owner_of event_of
hundred-Announces = record {
  owner = refl;
  event = refl;
  length_lem = refl;
  not_empty = omega arith;
  has_buffer = refl;
  whole = refl;
  buffer_id = sym (place 0 (omega arith)).bid_lem;
}

arrival_accepted_example :
    from_raw_event zero_pool filled.mem (some hundred)
    ≡ ok (record {
      cqe = hundred;
      kernel_buf = some (lent 4096 8 first_posted.bid hundred);
      user_data = 2 ^ 56 + 1200;
    })
arrival_accepted_example =
    arrival_accepted socket lib (λ c. 2 * c) 0 8 4096 start lib-IsReader start-Opened filled 1
      first_posted [] hundred filled_run hundred-Announces

buffers_held_once_example :
    (ws : WebSocket ℕ ℕ ℕ) × (s : TcpStream ℕ) × (held : List KernelBuffer) × (get_elem?
        filled.streams 0
      ≡ some ws)
    × (ws.stream ≡ plain s)
    × (bufs s.inner.buf_vec ≡ map some held)
    × (length (ids_of held (first_posted ∷ [])) ≤ 1024)
    × ((i j : ℕ)
        → i < j
        → j < length (ids_of held (first_posted ∷ []))
        → get_elem? (ids_of held (first_posted ∷ [])) i
          ≢ get_elem? (ids_of held (first_posted ∷ [])) j)
buffers_held_once_example =
    buffers_held_once socket lib (λ c. 2 * c) 0 8 4096 start lib-IsReader start-Opened filled 1
      (first_posted ∷ []) filled_run

-- The stream of owner 0 is added to a program that has none.
connects : Connects socket lib (λ n. n) 0
unfolding new_from_std new_vec_reader
connects = record {
  installed = refl;
  raw = 0;
  ws = record { stream = plain (new_from_std (λ n. n) 0 0 1200); context = 0 };
  stream = new_from_std (λ n. n) 0 0 1200;
  connected = refl;
  shaken = refl;
  is_plain = refl;
  unread = refl;
  owner = refl;
  nonblocking_set = refl;
  nodelay_set = refl;
}

-- A kernel with EXT_ARG, and one round in which nothing happens.
abbrev sets_up : QueueInit
sets_up = λ n p. (0, record p { features = 256 }, idle)

abbrev quiet : Kernel
quiet = record {
  submit = λ ring. (0, ring);
  errno = 0;
  peek_batch_cqe = λ ring. (0, []);
  wait_cqes = λ ring. (2 ^ 32 - 62, [], ring);
  received = λ bytes. bytes;
}

ping_pong_opens_example :
    (run : Running ℕ ℕ ℕ) × (open_all socket lib (λ n. n) sets_up platform no_memory 256 ≡ ok run)
    × Opened 0 8 4096 run
    × IsValid run.ring
    × (ping_pong socket lib
          (λ n. n)
          sets_up
          platform
          no_memory
          256
          (λ c. 2 * c)
          (1 ∷ [])
          ((true, quiet) ∷ [])
        ≡ rounds socket lib (λ n. n) (λ c. 2 * c) (1 ∷ []) ((true, quiet) ∷ []) run)
ping_pong_opens_example =
    ping_pong_opens socket lib (λ n. n) sets_up platform no_memory 256 8 4096 idle (λ c. 2 * c)
      (1 ∷ []) ((true, quiet) ∷ [])
      (init_ring_checks_ext_arg sets_up (record (setup_params false) { features = 256 }) idle refl
        refl)
      idle-IsValid (omega arith) connects (supplied 0)
