-- ===== src/Session/Start.antt =====
-- src/ping_pong.rs, up to its loop: the ring is set up, and a stream opened with its buffers and its
-- receive.
pub mod Setup
use uring_ws.Base.{
  ℕ, zero, suc, ◌+◌, bit_and, bit_or, ◌==◌, if◌then◌else◌, not, Bool, true, false, [], ◌∷◌, ◌++◌,
  Result, ok, panic, check, or_panic, ◌>>=◌, ◌>>◌, add_checked, abs_i32, unwrap, unwrap_failed,
  unimplemented, os_error,
}
use uring_ws.UserData.{Event, from_parts, event_code, cq_entries}
use uring_ws.Sqe.{multishot_recv, io_uring_sqe_set_data}
use uring_ws.Ring.{IoUring, modify_sqe, get_sqe_unwrap}
use uring_ws.BufRing.{Platform, new_buffer_group}
use uring_ws.Net.{TcpStream, Socket, new_from_std}
use uring_ws.Net
use uring_ws.Session.{
  Params, zeroed, setup_sqpoll, setup_submit_all, setup_coop_taskrun, setup_single_issuer,
  setup_defer_taskrun, feat_sqpoll_nonfixed, feat_ext_arg, QueueInit, MaybeTlsStream, plain,
  native_tls, rustls, other, WebSocket, Tungstenite, Running,
}

-- The flags that the ring is asked for; the program has `kernel_thread = false`.
unfoldable pub setup_params : (kernel_thread : Bool) → Params
setup_params kernel_thread =
    let params : Params = record zeroed { flags = setup_submit_all } in
    if kernel_thread
    then record params { flags = bit_or params.flags setup_sqpoll }
    else (let coop = bit_or params.flags setup_coop_taskrun in
        let deferred = bit_or coop setup_defer_taskrun in
        record params { flags = bit_or deferred setup_single_issuer })

unfoldable pub init_ring : QueueInit → Result IoUring
unfolding setup_params
init_ring queue_init_params = do
  let (rval, params, ring) = queue_init_params cq_entries (setup_params false)
  errno ← if rval == 0 then ok 0 else abs_i32 rval
  if rval == 0 then ok tt else panic (os_error errno)
  check (not (bit_and params.flags feat_sqpoll_nonfixed == 0))
  check (not (bit_and params.features feat_ext_arg == 0))
  ok ring

module _ {S T W : Type 0} (socket : Socket S) (lib : Tungstenite S T W) where
  -- The stream made nonblocking, with its descriptor.
  unfoldable pub nonblocking_fd : TcpStream S → Result (TcpStream S × ℕ)
  nonblocking_fd stream = do
    let (switched, stream') = Net.set_nonblocking socket true stream
    unwrap switched
    unwrap (Net.set_nodelay socket true stream')
    ok (stream', Net.as_raw_fd socket stream')

  unfoldable pub stream_fd : MaybeTlsStream S T → Result (MaybeTlsStream S T × ℕ)
  unfolding nonblocking_fd
  stream_fd (plain stream) = do (stream', fd) ← nonblocking_fd stream; ok (plain stream', fd)
  stream_fd (native_tls tls stream) = do
    (stream', fd) ← nonblocking_fd stream
    ok (native_tls tls stream', fd)
  stream_fd (rustls tls stream) = do
    (stream', fd) ← nonblocking_fd stream
    ok (rustls tls stream', fd)
  stream_fd other = panic unimplemented

  -- With the state of `INSTALL_ONCE` before and after it. `with_capacity` is how much room
  -- `Vec::with_capacity` gives.
  unfoldable pub init_tcp_stream :
      (with_capacity : ℕ → ℕ)
      → (owner_id recv_id : ℕ) → (install_once : Bool) → Result (ℕ × WebSocket S T W × Bool)
  unfolding stream_fd
  init_tcp_stream with_capacity owner_id recv_id install_once = do
    if install_once then ok tt else if lib.install_default then ok tt else panic unwrap_failed
    tcp_stream ← unwrap (lib.connect owner_id)
    ws ←
        or_panic unwrap_failed
          (lib.client_tls_with_config (new_from_std with_capacity tcp_stream owner_id recv_id))
    (stream, fd) ← stream_fd ws.stream
    ok (fd, record ws { stream = stream }, true)

  -- A new stream with its buffer group, and a receive that goes on for all its data.
  unfoldable pub add_stream :
      (with_capacity : ℕ → ℕ)
      → Platform
      → (msg_waitall owner_id : ℕ) → Running S T W
      → Result (Running S T W)
  unfolding init_tcp_stream
  add_stream with_capacity platform msg_waitall owner_id run = do
    recv_id ← add_checked 16 owner_id 1200
    (fd, ws, installed) ← init_tcp_stream with_capacity owner_id recv_id run.install_once
    (pool, mem, _) ← new_buffer_group platform run.pool run.mem owner_id
    (ring, sqe) ← get_sqe_unwrap run.ring
    let user_data = from_parts (event_code Event.multishort_recv) owner_id recv_id
    ring' ← modify_sqe (λ e. ok (io_uring_sqe_set_data user_data e)) sqe ring
    ring'' ← modify_sqe (multishot_recv msg_waitall fd 0 owner_id) sqe ring'
    ok (record {
      pool = pool;
      mem = mem;
      ring = ring'';
      install_once = installed;
      streams = run.streams ++ (ws ∷ []);
      handlers = run.handlers ++ (lib.new_context ∷ []);
    })

  -- `for owner_id in 0..1`
  unfoldable pub add_streams :
      (with_capacity : ℕ → ℕ)
      → Platform
      → (msg_waitall left owner_id : ℕ) → Running S T W
      → Result (Running S T W)
  add_streams with_capacity platform msg_waitall zero owner_id run = ok run
  add_streams with_capacity platform msg_waitall (suc left) owner_id run = do
    run' ← add_stream with_capacity platform msg_waitall owner_id run
    add_streams with_capacity platform msg_waitall left (owner_id + 1) run'
