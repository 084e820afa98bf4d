-- ===== src/Session.antt =====
-- What the two programs of the crate share, src/ping_pong.rs and src/io_uring_probe_v2.rs: the
-- parameters of the ring, the websockets of the library tungstenite around the streams, and the state of
-- the event loop. liburing, the kernel, the sockets and tungstenite are parameters.
pub mod Start
pub mod PingPong
pub mod Probe
use uring_ws.Base.{ℕ, zero, suc, Bool, Option, List, [], ◌∷◌, Result, Io, IoError}
use uring_ws.UserData.{max_buffer_group}
use uring_ws.Memory.{Memory}
use uring_ws.BufRing.{BufRingPool}
use uring_ws.Ring.{IoUring}
use uring_ws.Cqe.{Cqe}
use uring_ws.Net.{TcpStream}

abbrev pub zeros : ℕ → List ℕ
zeros zero = []
zeros (suc n) = 0 ∷ zeros n

-- The pool that a program starts with.
abbrev pub empty_pool : BufRingPool
empty_pool = record { buf_ring_ptrs = zeros max_buffer_group }

-- `io_uring_params`, without the reserved words and the offsets, which the crate does not read.
pub record Params : Type 0 where
  pub sq_entries : ℕ
  pub cq_entries : ℕ
  pub flags : ℕ
  pub sq_thread_cpu : ℕ
  pub sq_thread_idle : ℕ
  pub features : ℕ
  pub wq_fd : ℕ

-- `zeroed()`
abbrev pub zeroed : Params
zeroed = record {
  sq_entries = 0;
  cq_entries = 0;
  flags = 0;
  sq_thread_cpu = 0;
  sq_thread_idle = 0;
  features = 0;
  wq_fd = 0;
}

abbrev pub setup_sqpoll : ℕ
setup_sqpoll = 2

abbrev pub setup_submit_all : ℕ
setup_submit_all = 128

abbrev pub setup_coop_taskrun : ℕ
setup_coop_taskrun = 256

abbrev pub setup_single_issuer : ℕ
setup_single_issuer = 4096

abbrev pub setup_defer_taskrun : ℕ
setup_defer_taskrun = 8192

abbrev pub feat_sqpoll_nonfixed : ℕ
feat_sqpoll_nonfixed = 128

abbrev pub feat_ext_arg : ℕ
feat_ext_arg = 256

-- `io_uring_queue_init_params`: its result (an i32), the parameters that the kernel leaves, and the ring.
abbrev pub QueueInit : Type 0
QueueInit = ℕ → Params → ℕ × Params × IoUring

-- `tungstenite::stream::MaybeTlsStream`; `T` is the state of a TLS session around the stream.
pub data MaybeTlsStream (S T : Type 0) : Type 0 where
  plain : TcpStream S → MaybeTlsStream S T
  native_tls rustls : T → TcpStream S → MaybeTlsStream S T
  other : MaybeTlsStream S T

-- `tungstenite::WebSocket`; `W` is the state of its frame codec, a `WebSocketContext`.
pub record WebSocket (S T W : Type 0) : Type 0 where
  pub stream : MaybeTlsStream S T
  pub context : W

-- What `read_message_frame` returns.
pub data FrameRead : Type 0 where
  frame : List ℕ → FrameRead
  no_frame : FrameRead
  io_error : IoError → FrameRead
  protocol_error : FrameRead

-- The functions of std's sockets, of tungstenite and of rustls that the programs call. `install_default`
-- says whether the provider of cryptography was installed; `connect n` is the socket of the stream
-- of owner `n`; `none` and `false` stand for `Err`; of a message that `ws_read` returns, its
-- text, if it is one.
pub record Tungstenite (S T W : Type 0) : Type 0 where
  pub install_default : Bool
  pub connect : ℕ → Io S
  pub client_tls_with_config : TcpStream S → Option (WebSocket S T W)
  pub ws_send : List ℕ → WebSocket S T W → Bool × WebSocket S T W
  pub ws_read : WebSocket S T W → Option (Option (List ℕ)) × WebSocket S T W
  pub ws_flush : WebSocket S T W → Bool × WebSocket S T W
  pub new_context : W
  pub can_write : W → Bool
  pub write :
      W → MaybeTlsStream S T → IoUring → List ℕ → Result (Bool × W × MaybeTlsStream S T × IoUring)
  pub flush : W → MaybeTlsStream S T → Result (Bool × W × MaybeTlsStream S T)
  pub read_message_frame : W → TcpStream S → Memory → Result (FrameRead × W × TcpStream S × Memory)
  pub read_tls_message_frame :
      W → T → TcpStream S → Memory → Result (FrameRead × W × T × TcpStream S × Memory)

-- The state of a program once its ring is set up.
pub record Running (S T W : Type 0) : Type 0 where
  pub pool : BufRingPool
  pub mem : Memory
  pub ring : IoUring
  -- whether `INSTALL_ONCE` of `init_tcp_stream` has been initialised
  pub install_once : Bool
  pub streams : List (WebSocket S T W)
  pub handlers : List W

-- What liburing and the kernel do in one round of the loop. A result is the bit pattern of an i32, `errno`
-- is what `last_os_error` reads, and `received` are the bytes that have come into the buffers. The
-- list is the array of pointers that the call has filled.
pub record Kernel : Type 0 where
  pub submit : IoUring → ℕ × IoUring
  pub errno : ℕ
  pub peek_batch_cqe : IoUring → ℕ × List (Option Cqe)
  pub wait_cqes : IoUring → ℕ × List (Option Cqe) × IoUring
  pub received : (ℕ → ℕ) → ℕ → ℕ
