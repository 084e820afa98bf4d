-- ===== src/Session/Probe.antt =====
-- src/io_uring_probe_v2.rs: five websockets over native TLS that subscribe to a feed and read it.
pub mod Loop
pub mod Program
use uring_ws.Base.{
  ℕ, zero, suc, ◌+◌, bit_and, bit_or, ◌==◌, if◌then◌else◌, not, Bool, true, false, Option, List, [],
  ◌∷◌, ◌++◌, get_elem?, set, Result, ok, panic, check, or_panic, ◌>>=◌, ◌>>◌, add_checked, abs_i32,
  unwrap, unwrap_failed, unimplemented, todo, out_of_bounds, explicit, os_error,
}
use uring_ws.UserData.{Event, from_parts, owner_of, event_code, cq_entries}
use uring_ws.Sqe.{multishot_recv, io_uring_sqe_set_data}
use uring_ws.Ring.{IoUring, modify_sqe, get_sqe_unwrap, io_uring_cq_advance}
use uring_ws.BufRing.{Platform, new_buffer_group}
use uring_ws.Cqe.{Cqe, from_raw_event, is_negative}
use uring_ws.Net.{TcpStream, Socket, new_from_std, on_completion}
use uring_ws.Net
use uring_ws.Session.{
  Params, zeroed, setup_sqpoll, setup_submit_all, setup_coop_taskrun, setup_single_issuer,
  setup_defer_taskrun, feat_sqpoll_nonfixed, QueueInit, MaybeTlsStream, plain, native_tls, rustls,
  other, WebSocket, FrameRead, frame, no_frame, io_error, protocol_error, Tungstenite, Running,
  Kernel,
}

-- The flags that the ring is asked for; the program has `kernel_thread = false`.
unfoldable pub setup_params : (kernel_thread : Bool) → Params
setup_params kernel_thread =
    let params : Params = record zeroed { flags = setup_submit_all } in
    if kernel_thread
    then record params { flags = bit_or params.flags setup_sqpoll }
    else (let coop = bit_or params.flags setup_coop_taskrun in
        let deferred = bit_or coop setup_defer_taskrun in
        record params { flags = bit_or deferred setup_single_issuer })

unfoldable pub init_ring : QueueInit → Result IoUring
unfolding setup_params
init_ring queue_init_params = do
  let (rval, params, ring) = queue_init_params cq_entries (setup_params false)
  errno ← if rval == 0 then ok 0 else abs_i32 rval
  if rval == 0 then ok tt else panic (os_error errno)
  check (not (bit_and params.flags feat_sqpoll_nonfixed == 0))
  ok ring

module _ {S T W : Type 0} (socket : Socket S) (lib : Tungstenite S T W) where
  -- The stream made nonblocking, with its descriptor.
  unfoldable pub nonblocking_fd : TcpStream S → Result (TcpStream S × ℕ)
  nonblocking_fd stream = do
    let (switched, stream') = Net.set_nonblocking socket true stream
    unwrap switched
    unwrap (Net.set_nodelay socket true stream')
    ok (stream', Net.as_raw_fd socket stream')

  unfoldable pub stream_fd : MaybeTlsStream S T → Result (MaybeTlsStream S T × ℕ)
  unfolding nonblocking_fd
  stream_fd (plain stream) = do (stream', fd) ← nonblocking_fd stream; ok (plain stream', fd)
  stream_fd (native_tls tls stream) = do
    (stream', fd) ← nonblocking_fd stream
    ok (native_tls tls stream', fd)
  stream_fd (rustls tls stream) = do
    (stream', fd) ← nonblocking_fd stream
    ok (rustls tls stream', fd)
  stream_fd other = panic unimplemented

  -- The subscription is sent, answered by a text and flushed.
  unfoldable pub subscribe : List ℕ → WebSocket S T W → Result (WebSocket S T W)
  subscribe request ws = do
    let (sent, ws1) = lib.ws_send request ws
    if sent then ok tt else panic unwrap_failed
    let (reply, ws2) = lib.ws_read ws1
    msg ← or_panic todo reply
    text ← or_panic unwrap_failed msg
    let (flushed, ws3) = lib.ws_flush ws2
    if flushed then ok tt else panic unwrap_failed
    ok ws3

  -- With the state of `INSTALL_ONCE` before and after it. `with_capacity` is how much room
  -- `Vec::with_capacity` gives.
  unfoldable pub init_tcp_stream :
      (with_capacity : ℕ → ℕ)
      → (request : List ℕ) → (owner_id recv_id : ℕ) → (install_once : Bool)
      → Result (ℕ × WebSocket S T W × Bool)
  unfolding stream_fd subscribe
  init_tcp_stream with_capacity request owner_id recv_id install_once = do
    if install_once then ok tt else if lib.install_default then ok tt else panic unwrap_failed
    tcp_stream ← unwrap (lib.connect owner_id)
    ws ←
        or_panic unwrap_failed
          (lib.client_tls_with_config (new_from_std with_capacity tcp_stream owner_id recv_id))
    ws' ← subscribe request ws
    (stream, fd) ← stream_fd ws'.stream
    ok (fd, record ws' { stream = stream }, true)

  -- A new stream with its buffer group, and a receive that goes on for all its data.
  unfoldable pub add_stream :
      (with_capacity : ℕ → ℕ)
      → (request : List ℕ) → Platform
      → (msg_waitall owner_id : ℕ) → Running S T W
      → Result (Running S T W)
  unfolding init_tcp_stream
  add_stream with_capacity request platform msg_waitall owner_id run = do
    recv_id ← add_checked 16 owner_id 1200
    (fd, ws, installed) ← init_tcp_stream with_capacity request owner_id recv_id run.install_once
    (pool, mem, _) ← new_buffer_group platform run.pool run.mem owner_id
    (ring, sqe) ← get_sqe_unwrap run.ring
    let user_data = from_parts (event_code Event.multishort_recv) owner_id recv_id
    ring' ← modify_sqe (λ e. ok (io_uring_sqe_set_data user_data e)) sqe ring
    ring'' ← modify_sqe (multishot_recv msg_waitall fd 0 owner_id) sqe ring'
    ok (record {
      pool = pool;
      mem = mem;
      ring = ring'';
      install_once = installed;
      streams = run.streams ++ (ws ∷ []);
      handlers = run.handlers ++ (lib.new_context ∷ []);
    })

  -- `for owner_id in 0..5`
  unfoldable pub add_streams :
      (with_capacity : ℕ → ℕ)
      → (request : List ℕ) → Platform
      → (msg_waitall left owner_id : ℕ) → Running S T W
      → Result (Running S T W)
  add_streams with_capacity request platform msg_waitall zero owner_id run = ok run
  add_streams with_capacity request platform msg_waitall (suc left) owner_id run = do
    run' ← add_stream with_capacity request platform msg_waitall owner_id run
    add_streams with_capacity request platform msg_waitall left (owner_id + 1) run'

  -- An I/O error of a handler, such as too little data for a frame, is passed over.
  unfoldable pub frame_checked : FrameRead → Result (Unit {0})
  frame_checked (frame msg) = ok tt
  frame_checked no_frame = ok tt
  frame_checked (io_error e) = ok tt
  frame_checked protocol_error = panic explicit

  unfoldable pub tls_stream : MaybeTlsStream S T → Result (T × TcpStream S)
  tls_stream (native_tls tls stream) = ok (tls, stream)
  tls_stream (plain stream) = panic todo
  tls_stream (rustls tls stream) = panic unimplemented
  tls_stream other = panic unimplemented

  unfoldable pub handle_cqe : (grow : ℕ → ℕ) → Option Cqe → Running S T W → Result (Running S T W)
  unfolding frame_checked tls_stream
  handle_cqe grow cqe run = do
    completion ← from_raw_event run.pool run.mem cqe
    let stream_id = owner_of completion.user_data
    ws ← or_panic unwrap_failed (get_elem? run.streams stream_id)
    (tls, stream) ← tls_stream ws.stream
    stream' ← on_completion grow completion stream
    handler ← or_panic unwrap_failed (get_elem? run.handlers stream_id)
    (msg, handler', tls', stream'', mem) ← lib.read_tls_message_frame handler tls stream' run.mem
    frame_checked msg
    ok (record run {
      mem = mem;
      ring = io_uring_cq_advance 1 run.ring;
      streams = set run.streams stream_id (record ws { stream = native_tls tls' stream'' });
      handlers = set run.handlers stream_id handler';
    })

  -- `for cqe_idx in 0..to_ready`, with `left` to go.
  unfoldable pub handle_cqes :
      (grow : ℕ → ℕ)
      → (left cqe_idx : ℕ) → List (Option Cqe)
      → Running S T W
      → Result (Running S T W)
  handle_cqes grow zero cqe_idx cqe_buf run = ok run
  handle_cqes grow (suc left) cqe_idx cqe_buf run = do
    cqe ← or_panic out_of_bounds (get_elem? cqe_buf cqe_idx)
    run' ← handle_cqe grow cqe run
    handle_cqes grow left (cqe_idx + 1) cqe_buf run'

  -- How many completions are ready.
  unfoldable pub ready_cqes : Kernel → IoUring → Result (ℕ × List (Option Cqe) × IoUring)
  ready_cqes kernel ring =
      let (rval, peeked) = kernel.peek_batch_cqe ring in
      let (ret, waited, ring') = kernel.wait_cqes ring in
      if not (rval == 0)
      then ok (rval, peeked, ring)
      else (if is_negative ret then panic (os_error kernel.errno) else ok (1, waited, ring'))

  -- One round of the loop.
  unfoldable pub round : (grow : ℕ → ℕ) → Kernel → Running S T W → Result (Running S T W)
  unfolding ready_cqes
  round grow kernel run = do
    let (rval, submitted) = kernel.submit run.ring
    if is_negative rval then panic (os_error kernel.errno) else ok tt
    (to_ready, cqe_buf, ring) ← ready_cqes kernel submitted
    handle_cqes grow to_ready 0 cqe_buf (record run {
      mem = record (run.mem) { bytes = kernel.received run.mem.bytes };
      ring = ring;
    })
