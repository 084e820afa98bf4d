-- ===== src/Session/PingPong.antt =====
-- src/ping_pong.rs, its loop: a large message to every stream each ten milliseconds, a submission, and
-- the completions that are ready.
pub mod Loop
pub mod Receive
pub mod Buffers
pub mod Follow
pub mod Runs
pub mod Arrival
pub mod Expecting
pub mod Returns
pub mod Carried
pub mod Intact
pub mod Opening
pub mod Program
use uring_ws.Base.{
  ℕ, zero, suc, ◌+◌, ◌-◌, ◌^◌, ◌==◌, if◌then◌else◌, not, Bool, Option, some, none, List, [], ◌∷◌,
  get_elem?, set, Result, ok, panic, or_panic, ◌>>=◌, ◌>>◌, abs_i32, unwrap_failed, unimplemented,
  out_of_bounds, explicit, os_error,
}
use uring_ws.UserData.{owner_of}
use uring_ws.Ring.{IoUring, io_uring_cq_advance}
use uring_ws.Cqe.{Cqe, from_raw_event, is_negative}
use uring_ws.Net.{TcpStream, on_completion}
use uring_ws.Net
use uring_ws.Session.{
  MaybeTlsStream, plain, native_tls, rustls, other, WebSocket, FrameRead, frame, no_frame, io_error,
  protocol_error, Tungstenite, Running, Kernel,
}

module _ {S T W : Type 0} (lib : Tungstenite S T W) where
  unfoldable pub ping_stream :
      List ℕ → WebSocket S T W → W → IoUring → Result (WebSocket S T W × W × IoUring)
  ping_stream ping_msg ws handler ring = do
    (written, handler', stream, ring') ← lib.write handler ws.stream ring ping_msg
    if written then ok tt else panic unwrap_failed
    (flushed, handler'', stream') ← lib.flush handler' stream
    if flushed then ok tt else panic unwrap_failed
    ok (record ws { stream = stream' }, handler'', ring')

  -- The loop over the streams, each with its handler.
  unfoldable pub ping_streams :
      List ℕ
      → List (WebSocket S T W)
      → List W
      → IoUring
      → Result (List (WebSocket S T W) × List W × IoUring)
  unfolding ping_stream
  ping_streams ping_msg [] handlers ring = ok ([], handlers, ring)
  ping_streams ping_msg (ws ∷ streams) [] ring = ok (ws ∷ streams, [], ring)
  ping_streams ping_msg (ws ∷ streams) (handler ∷ handlers) ring = do
    (ws', handler', ring') ←
        if lib.can_write handler
        then ping_stream ping_msg ws handler ring
        else ok (ws, handler, ring)
    (streams', handlers', ring'') ← ping_streams ping_msg streams handlers ring'
    ok (ws' ∷ streams', handler' ∷ handlers', ring'')

  -- An I/O error of a handler, such as too little data for a frame, is passed over.
  unfoldable pub frame_checked : FrameRead → Result (Unit {0})
  frame_checked (frame msg) = ok tt
  frame_checked no_frame = ok tt
  frame_checked (io_error e) = ok tt
  frame_checked protocol_error = panic explicit

  unfoldable pub plain_stream : MaybeTlsStream S T → Result (TcpStream S)
  plain_stream (plain stream) = ok stream
  plain_stream (native_tls tls stream) = panic unimplemented
  plain_stream (rustls tls stream) = panic unimplemented
  plain_stream other = panic unimplemented

  unfoldable pub handle_cqe : (grow : ℕ → ℕ) → Option Cqe → Running S T W → Result (Running S T W)
  unfolding frame_checked plain_stream
  handle_cqe grow cqe run = do
    completion ← from_raw_event run.pool run.mem cqe
    let stream_id = owner_of completion.user_data
    ws ← or_panic unwrap_failed (get_elem? run.streams stream_id)
    stream ← plain_stream ws.stream
    stream' ← on_completion grow completion stream
    handler ← or_panic unwrap_failed (get_elem? run.handlers stream_id)
    (msg, handler', stream'', mem) ← lib.read_message_frame handler stream' run.mem
    frame_checked msg
    ok (record run {
      mem = mem;
      ring = io_uring_cq_advance 1 run.ring;
      streams = set run.streams stream_id (record ws { stream = plain stream'' });
      handlers = set run.handlers stream_id handler';
    })

  -- `for cqe_idx in 0..to_ready`, with `left` to go.
  unfoldable pub handle_cqes :
      (grow : ℕ → ℕ)
      → (left cqe_idx : ℕ) → List (Option Cqe)
      → Running S T W
      → Result (Running S T W)
  handle_cqes grow zero cqe_idx cqe_buf run = ok run
  handle_cqes grow (suc left) cqe_idx cqe_buf run = do
    cqe ← or_panic out_of_bounds (get_elem? cqe_buf cqe_idx)
    run' ← handle_cqe grow cqe run
    handle_cqes grow left (cqe_idx + 1) cqe_buf run'

  -- How many completions are ready; `none` is the `continue` after the second has passed.
  unfoldable pub ready_cqes : Kernel → IoUring → Result (Option (ℕ × List (Option Cqe)) × IoUring)
  ready_cqes kernel ring =
      let (rval, peeked) = kernel.peek_batch_cqe ring in
      let (ret, waited, ring') = kernel.wait_cqes ring in
      if not (rval == 0)
      then ok (some (rval, peeked), ring)
      else (if not (is_negative ret)
          then ok (some (1, waited), ring')
          else (if ret == 2 ^ 32 - 62
              then ok (none, ring')
              else (do errno ← abs_i32 ret; panic (os_error errno))))

  -- One round of the loop. `due`: no ping has been sent, or the last is over ten milliseconds old.
  unfoldable pub round :
      (grow : ℕ → ℕ)
      → (ping_msg : List ℕ) → (due : Bool) → Kernel
      → Running S T W
      → Result (Running S T W)
  unfolding ready_cqes
  round grow ping_msg due kernel run = do
    (streams, handlers, ring) ←
        if due
        then ping_streams ping_msg run.streams run.handlers run.ring
        else ok (run.streams, run.handlers, run.ring)
    let (rval, submitted) = kernel.submit ring
    if is_negative rval then panic (os_error kernel.errno) else ok tt
    (ready, ring') ← ready_cqes kernel submitted
    let run' : Running S T W = record {
      pool = run.pool;
      mem = record (run.mem) { bytes = kernel.received run.mem.bytes };
      ring = ring';
      install_once = run.install_once;
      streams = streams;
      handlers = handlers;
    }
    elim ready [
      | none ↦ ok run'
      | some (to_ready, cqe_buf) ↦ handle_cqes grow to_ready 0 cqe_buf run'
    ]
