-- ===== src/Tests/Example.antt =====
-- The program of src/examples/io_uring_probe.rs on a small library: a connection of rustls whose plaintext
-- is what was received, twice.
use uring_ws.Base.{
  ℕ, zero, suc, ◌≤◌, ◌<◌, ◌≡◌, refl, subst, ap, arith, ◌∙◌, true, false, some, List, [], ◌∷◌, ◌++◌,
  length, take, drop, ok, ◌>>=◌,
}
use uring_ws.Memory.{IoBuf, Memory}
use uring_ws.BufRing.{tail_of}
use uring_ws.BufRing.Cycle.{All, IsSound, takes}
use uring_ws.BufRing.Cycle.Sound.{Step-IsSound, length-ids}
use uring_ws.Frames.{WebsocketHandler}
use uring_ws.Frames.Text.{concat}
use uring_ws.Cqe.{Cqe}
use uring_ws.Ring.{IoUring}
use uring_ws.Session.{Params}
use uring_ws.Example.{bgid, rustls, Rustls, Library, Running}
use uring_ws.Sqe.{Sqe, multishot_recv, io_uring_sqe_set_data}
use uring_ws.Ring.{modify_sqe}
use uring_ws.Ring.Queue.{blank}
use uring_ws.Example.Copies.{io_uring_get_sqe, io_uring_initialize_sqe}
use uring_ws.Example.Setup.{start_up, init_ring, add_stream, init_tcp_stream}
use uring_ws.Example.Receive.{decrypt, receive, handle_cqe}
use uring_ws.Example.Plaintext.{KeepsLength, ReadsExactly, feed, outcome}
use uring_ws.Example.Plaintext.Loop.{decrypt_delivers}
use uring_ws.Example.Group.{only_ring, waiting, prep_buffer_ring-ok, start_up-IsSound}
use uring_ws.Example.Returns.{returned, handle_cqe_returns_buffer}
use uring_ws.Tests.Buffers.{platform, no_memory, supplied}
use uring_ws.Tests.Streams.{idle, socket}
use uring_ws.Tests.Frames.{decoder, frame_bytes}

abbrev tls : Rustls (List ℕ)
tls = record {
  read_tls = λ conn received. some (length received, conn ++ received ++ received);
  process_new_packets = λ conn. some (length conn, false, conn);
  read_exact = λ conn n. some (take n conn, drop n conn);
}

abbrev lib : Library ℕ (List ℕ) ℕ
lib = record {
  socket = socket;
  tls = tls;
  install_default = true;
  connect = λ url. some (record { stream = rustls [] 5; context = 0 });
  ws_send = λ request ws. (true, ws);
  ws_read = λ ws. (some (some []), ws);
}

decoder-KeepsLength : KeepsLength decoder
decoder-KeepsLength zero [] n e d' bytes' eq = ground (arith, eq)
decoder-KeepsLength zero (x ∷ xs) n e d' bytes' eq = ground (arith, eq)
decoder-KeepsLength (suc zero) xs n e d' bytes' eq = ground (arith, eq)
decoder-KeepsLength (suc (suc k)) [] n e d' bytes' eq = ground (arith, eq)
decoder-KeepsLength (suc (suc k)) (x ∷ xs) n e d' bytes' eq = ground (arith, eq)

tls-ReadsExactly : ReadsExactly tls (λ conn plain. conn ≡ plain)
tls-ReadsExactly conn plain n e h =
    (drop n conn, ap (λ c. some (take n c, drop n conn)) e, ap (drop n) e)

abbrev handler : WebsocketHandler ℕ
handler = record { frame_decoder = 0; str_acc = [] }

decrypt_delivers_example :
    (cs : List (List ℕ)) × (concat cs ≡ frame_bytes ++ frame_bytes)
    × All (λ c. (0 < length c) × (length c ≤ 3)) cs
    × (outcome (decrypt lib decoder (λ b. b) 9 frame_bytes [] handler [])
        ≡ feed lib decoder (λ b. b) 9 cs handler [])
decrypt_delivers_example =
    decrypt_delivers lib decoder (λ b. b) 9 decoder-KeepsLength tls-ReadsExactly frame_bytes
      (frame_bytes ++ frame_bytes) [] (frame_bytes ++ frame_bytes) (frame_bytes ++ frame_bytes)
      handler [] 3 (omega arith) refl (omega arith) refl refl

-- The ring is set up as it was asked for.
abbrev queue_init : ℕ → Params → ℕ × Params × IoUring
queue_init entries params = (0, params, idle)

abbrev prepared : Memory
prepared = (prep_buffer_ring-ok platform no_memory 8 4096 (supplied 0)).0

abbrev recv_entry : Sqe
recv_entry = record blank {
  opcode = 27;
  flags = 32;
  ioprio = 2;
  fd = 9;
  msg_flags = 0;
  user_data = 0;
  buf_group = 0;
  personality = 0;
  file_index = 0;
  addr3 = 0;
  pad2 = 0;
}

abbrev started : Running ℕ (List ℕ) ℕ ℕ
started = record {
  mem = prepared;
  ring = record idle { sq = record (idle.sq) { sqe_tail = 1; sqes = recv_entry ∷ blank ∷ [] } };
  buf_ring = 8;
  install_once = true;
  streams = record { stream = rustls [] 5; context = 0 } ∷ [];
  handlers = handler ∷ [];
  strs = [];
}

starts : start_up lib 0 queue_init 0 platform no_memory [] [] 256 ≡ ok started
unfolding start_up init_ring add_stream init_tcp_stream io_uring_get_sqe io_uring_initialize_sqe
    modify_sqe multishot_recv io_uring_sqe_set_data
starts = rw (prep_buffer_ring-ok platform no_memory 8 4096 (supplied 0)).1 refl

start_up-IsSound_example :
    (started.buf_ring ≡ 8)
    × IsSound (only_ring 8) bgid 8 4096 (waiting started.mem 0 [])
    × (length started.streams ≡ 1)
    × (length started.handlers ≡ 1)
start_up-IsSound_example =
    start_up-IsSound lib 0 queue_init 0 platform no_memory [] [] 256 8 4096 started (supplied 0)
      starts

-- The kernel fills the first buffer with three bytes and says so.
abbrev three : Cqe
three = record { user_data = 0; res = 3; flags = 1 }

started-IsSound : IsSound (only_ring 8) bgid 8 4096 (waiting started.mem 0 [])
started-IsSound =
    (start_up-IsSound lib 0 queue_init 0 platform no_memory [] [] 256 8 4096 started (supplied 0)
      starts).1

abbrev filled : Running ℕ (List ℕ) ℕ ℕ
filled = record started { mem = record prepared { bytes = λ a. 7 } }

filled-IsSound :
    IsSound (only_ring 8) bgid 8 4096 (waiting filled.mem 1 (record { bid = 0; data_len = 3 } ∷ []))
filled-IsSound =
    let s = started-IsSound in
    let held = s.at_ptr.group.places 0 (omega arith) in
    let none_out = ap length s.in_order ∙ length-ids (tail_of s.at_ptr.ring) s.out in
    subst
      (λ (b : ℕ).
        IsSound (only_ring 8) bgid 8 4096
          (waiting filled.mem 1 (record { bid = b; data_len = 3 } ∷ [])))
      held.bid_lem
      (Step-IsSound refl s (
        takes (waiting started.mem 0 []) s.at_ptr.ring held.buf 3 (λ a. 7) s.at_ptr.there
          (omega (arith, none_out, s.counts)) held.at_place (omega (arith, held.len_lem))))

handle_cqe_returns_buffer_example :
    (buf : IoBuf) × (mem : Memory) × (buf.addr ≡ 4096)
    × (buf.len ≡ 1500)
    × (handle_cqe lib decoder (λ b. b) 9 (some three) filled ≡ (
        receive lib decoder (λ b. b) 9 three buf filled >>= λ d.
        ok (returned lib decoder (λ b. b) 9 mem d)))
    × IsSound (only_ring 8) bgid 8 4096 (waiting mem 1 [])
handle_cqe_returns_buffer_example =
    handle_cqe_returns_buffer lib decoder (λ b. b) 9 4096 1 [] three filled filled-IsSound
