-- ===== src/Example/Setup.antt =====
-- src/examples/io_uring_probe.rs, up to the loop: the ring and its buffers are set up, and a stream is
-- opened and its receive queued.
use uring_ws.Base.{
  ℕ, zero, suc, ◌+◌, ◌-◌, ◌*◌, bit_and, bit_or, ◌==◌, if◌then◌else◌, not, Bool, true, false, [],
  ◌∷◌, ◌++◌, length, List, Result, ok, panic, check, or_panic, ◌>>=◌, ◌>>◌, u16, u32, unwrap,
  unwrap_failed, unimplemented, todo, os_error, out_of_memory,
}
use uring_ws.UserData.{buf_size, ring_pool_size}
use uring_ws.Memory.{BufRing, Memory, deref, store}
use uring_ws.Sqe.{multishot_recv, io_uring_sqe_set_data}
use uring_ws.Ring.{IoUring, modify_sqe}
use uring_ws.BufRing.{Platform, io_uring_buf_ring_add}
use uring_ws.Frames.{WebsocketHandler}
use uring_ws.Session.{
  Params, zeroed, setup_sqpoll, setup_submit_all, setup_single_issuer, feat_sqpoll_nonfixed,
  QueueInit,
}
use uring_ws.Example.{bgid, MaybeTlsStream, plain, rustls, other, WebSocket, Library, Running}
use uring_ws.Example.Copies.{
  io_uring_get_sqe, io_uring_buf_ring_advance, io_uring_buf_ring_mask, rust_io_uring_setup_buf_ring,
  page_size, alloc_layout_buffers,
}

-- `errno` is what `last_os_error` reads.
unfoldable pub init_ring : QueueInit → (errno : ℕ) → Result IoUring
init_ring queue_init_params errno = do
  let params : Params = record zeroed { flags = setup_submit_all }
  let polled = bit_or params.flags setup_sqpoll
  let (rval, params', ring) =
      queue_init_params 1024 (record params { flags = bit_or polled setup_single_issuer })
  if rval == 0 then ok tt else panic (os_error errno)
  check (not (bit_and params'.flags feat_sqpoll_nonfixed == 0))
  ok ring

-- The loop over `bufs`, from buffer `i` on with `left` to go.
unfoldable pub add_buffers : (left i pool_size bufs_addr : ℕ) → BufRing → Result BufRing
add_buffers zero i pool_size bufs_addr br = ok br
add_buffers (suc left) i pool_size bufs_addr br = do
  mask ← io_uring_buf_ring_mask pool_size
  br' ← io_uring_buf_ring_add br (bufs_addr + i * buf_size) buf_size (u16 i) mask (u32 i)
  add_buffers left (i + 1) pool_size bufs_addr br'

-- The memory with the buffers lent, and the pointer to their ring.
unfoldable pub prep_buffer_ring : Platform → Memory → Result (ℕ × Memory)
prep_buffer_ring platform mem = do
  (ptr, mem') ← unwrap (rust_io_uring_setup_buf_ring platform mem ring_pool_size bgid)
  br ← deref mem' ptr
  layout ← unwrap (alloc_layout_buffers platform ring_pool_size buf_size (page_size platform))
  let bufs_addr = platform.alloc layout
  addr ← if bufs_addr == 0 then panic out_of_memory else ok bufs_addr
  filled ← add_buffers ring_pool_size 0 ring_pool_size addr br
  ok (ptr, store mem' ptr (io_uring_buf_ring_advance filled ring_pool_size))

module _ {S C W D : Type 0} (lib : Library S C W) (new_decoder : D) where
  unfoldable pub nonblocking_fd : S → Result ℕ
  nonblocking_fd stream = do
    unwrap (lib.socket.set_nonblocking stream true)
    unwrap (lib.socket.set_nodelay stream true)
    ok (lib.socket.as_raw_fd stream)

  unfoldable pub stream_fd : MaybeTlsStream S C → Result ℕ
  unfolding nonblocking_fd
  stream_fd (plain stream) = nonblocking_fd stream
  stream_fd (rustls conn stream) = nonblocking_fd stream
  stream_fd other = panic unimplemented

  -- With the state of `INSTALL_ONCE` before and after it.
  unfoldable pub init_tcp_stream :
      (url request : List ℕ) → (install_once : Bool) → Result (ℕ × WebSocket S C W × Bool)
  unfolding stream_fd
  init_tcp_stream url request install_once = do
    if install_once then ok tt else if lib.install_default then ok tt else panic unwrap_failed
    ws ← or_panic unwrap_failed (lib.connect url)
    let (sent, ws1) = lib.ws_send request ws
    if sent then ok tt else panic unwrap_failed
    let (reply, ws2) = lib.ws_read ws1
    msg ← or_panic todo reply
    text ← or_panic unwrap_failed msg
    fd ← stream_fd ws2.stream
    ok (fd, ws2, true)

  -- The id of a stream is its place in `handlers`.
  unfoldable pub add_stream :
      (url request : List ℕ) → (msg_waitall : ℕ) → Running S C W D → Result (Running S C W D)
  unfolding init_tcp_stream
  add_stream url request msg_waitall run = do
    (fd, ws, installed) ← init_tcp_stream url request run.install_once
    let handler : WebsocketHandler D = record { frame_decoder = new_decoder; str_acc = [] }
    let handlers = run.handlers ++ (handler ∷ [])
    (ring, slot) ← io_uring_get_sqe run.ring
    sqe ← or_panic unwrap_failed slot
    let sqe_id = length handlers - 1
    ring' ← modify_sqe (λ e. ok (io_uring_sqe_set_data sqe_id e)) sqe ring
    ring'' ← modify_sqe (multishot_recv msg_waitall fd 0 bgid) sqe ring'
    ok (record run {
      ring = ring'';
      install_once = installed;
      streams = run.streams ++ (ws ∷ []);
      handlers = handlers;
    })

  -- Up to the loop, with its one stream.
  unfoldable pub start_up :
      QueueInit
      → (errno : ℕ) → Platform
      → Memory
      → (url request : List ℕ) → (msg_waitall : ℕ) → Result (Running S C W D)
  unfolding init_ring prep_buffer_ring add_stream
  start_up queue_init_params errno platform mem url request msg_waitall = do
    ring ← init_ring queue_init_params errno
    (ptr, mem') ← prep_buffer_ring platform mem
    add_stream url request msg_waitall (record {
      mem = mem';
      ring = ring;
      buf_ring = ptr;
      install_once = false;
      streams = [];
      handlers = [];
      strs = [];
    })
