-- ===== src/Session/PingPong/Receive.antt =====
-- src/ping_pong.rs with src/cqe.rs, src/buf_ring.rs, src/net.rs and src/read_buf.rs: the way of received
-- bytes from a completion to the websocket's handler.
use uring_ws.Base.{
  ℕ, ◌+◌, ◌*◌, ◌/◌, ◌%◌, ◌^◌, ◌≤◌, ◌<◌, ◌≡◌, refl, arith, some, get_elem?, set, length, ok, ◌>>◌,
  ◌∙◌, ap,
}
use uring_ws.UserData.{owner_of, event_of, req_of}
use uring_ws.Memory.{Memory}
use uring_ws.Ring.{io_uring_cq_advance}
use uring_ws.BufRing.{KernelBuffer}
use uring_ws.BufRing.Group.{GroupAt}
use uring_ws.Cqe.{Cqe}
use uring_ws.Cqe.Event.{from_raw_event_recv}
use uring_ws.ReadBuf.Queue.{queued_behind, room_behind}
use uring_ws.Net.{TcpStream, on_completion}
use uring_ws.Net.Complete.{on_completion_recv}
use uring_ws.Session.{plain, WebSocket, FrameRead, Tungstenite, Running}
use uring_ws.Session.PingPong.{frame_checked, handle_cqe}

-- A completion of a receive that has filled buffer `bid`.
pub record Arrives (bid : ℕ) (cqe : Cqe) : Type 0 where
  pub in_group : bid < 1024
  pub not_empty : 0 < cqe.res
  pub fits : cqe.res ≤ 1500
  pub has_buffer : cqe.flags % 2 ≡ 1
  pub whole : cqe.flags / 16 % 2 ≡ 0
  pub buffer_id : cqe.flags / 2 ^ 16 ≡ bid

-- The receive of a stream that has room for one more buffer, now or after growing.
pub record Expects {S : Type 0} (grow : ℕ → ℕ) (word : ℕ) (stream : TcpStream S) : Type 0 where
  pub owner : owner_of word ≡ stream.owner_id
  pub event : event_of word ≡ 1
  pub req : req_of word ≡ stream.multishort_recv_id
  pub held : length stream.inner.buf_vec ≤ stream.inner.capacity
  pub grows : stream.inner.capacity < grow stream.inner.capacity

-- The buffer that comes with it.
abbrev pub lent : (base ptr bid : ℕ) → Cqe → KernelBuffer
lent base ptr bid cqe = record {
  addr = base + bid * 1500;
  data_len = cqe.res;
  buf_ring = ptr;
  bid = bid;
  bgid = owner_of cqe.user_data;
  buf_len = 1500;
}

module _ {S T W : Type 0} (lib : Tungstenite S T W) (grow : ℕ → ℕ) (base ptr bid : ℕ)
    (cqe : Cqe) where
  pub received :
      (stream : TcpStream S)
      → Arrives bid cqe
      → Expects grow cqe.user_data stream
      → on_completion grow
          (record {
            cqe = cqe;
            kernel_buf = some (lent base ptr bid cqe);
            user_data = cqe.user_data;
          })
          stream
        ≡ ok (record stream { inner = queued_behind grow (lent base ptr bid cqe) stream.inner })
  received stream a x = (on_completion_recv grow _ stream _ x.owner x.event).1 (record {
    kb = lent base ptr bid cqe;
    held = refl;
    same_req = x.req;
    not_zero = omega (arith, a.not_empty);
    flagged = a.has_buffer;
    fits = room_behind grow (lent base ptr bid cqe) stream.inner x.held x.grows;
    result = refl;
  })

  -- The handling of a received buffer up to the check of the frame.
  pub handle_cqe_frame :
      (run : Running S T W) (ws : WebSocket S T W) (stream stream' : TcpStream S)
      (handler handler' : W) (msg : FrameRead) (mem : Memory)
      → GroupAt base ptr run.mem
      → get_elem? run.pool.buf_ring_ptrs (owner_of cqe.user_data) ≡ some ptr
      → Arrives bid cqe
      → get_elem? run.streams (owner_of cqe.user_data) ≡ some ws
      → ws.stream ≡ plain stream
      → Expects grow cqe.user_data stream
      → get_elem? run.handlers (owner_of cqe.user_data) ≡ some handler
      → lib.read_message_frame handler
          (record stream { inner = queued_behind grow (lent base ptr bid cqe) stream.inner })
          run.mem
        ≡ ok (msg, handler', stream', mem)
      → handle_cqe lib grow (some cqe) run ≡ (
          frame_checked lib msg
          >> ok (record run {
            mem = mem;
            ring = io_uring_cq_advance 1 run.ring;
            streams =
                set run.streams (owner_of cqe.user_data) (record ws { stream = plain stream' });
            handlers = set run.handlers (owner_of cqe.user_data) handler';
          }))
  unfolding handle_cqe
  handle_cqe_frame run ws stream stream' handler handler' msg mem g entry a found is_plain x held
        reads =
      let accepted =
        from_raw_event_recv base ptr bid run.pool run.mem cqe g entry a.in_group a.not_empty a.fits
          a.has_buffer a.whole a.buffer_id in
      rw (accepted, found, is_plain) (rw (received stream a x, held, reads) refl)

  -- Bytes that have arrived in a buffer of a sound group reach the websocket of their owner: its handler
  -- reads from the stream with that very buffer queued behind the others, and where the handler
  -- returns no protocol error, the loop goes on with what it has left, one completion further.
  pub handle_cqe_delivers :
      (run : Running S T W) (ws : WebSocket S T W) (stream stream' : TcpStream S)
      (handler handler' : W) (msg : FrameRead) (mem : Memory)
      → GroupAt base ptr run.mem
      → get_elem? run.pool.buf_ring_ptrs (owner_of cqe.user_data) ≡ some ptr
      → Arrives bid cqe
      → get_elem? run.streams (owner_of cqe.user_data) ≡ some ws
      → ws.stream ≡ plain stream
      → Expects grow cqe.user_data stream
      → get_elem? run.handlers (owner_of cqe.user_data) ≡ some handler
      → lib.read_message_frame handler
          (record stream { inner = queued_behind grow (lent base ptr bid cqe) stream.inner })
          run.mem
        ≡ ok (msg, handler', stream', mem)
      → frame_checked lib msg ≡ ok tt
      → handle_cqe lib grow (some cqe) run
        ≡ ok (record run {
          mem = mem;
          ring = io_uring_cq_advance 1 run.ring;
          streams = set run.streams (owner_of cqe.user_data) (record ws { stream = plain stream' });
          handlers = set run.handlers (owner_of cqe.user_data) handler';
        })
  handle_cqe_delivers run ws stream stream' handler handler' msg mem g entry a found is_plain x held
        reads fine =
      handle_cqe_frame run ws stream stream' handler handler' msg mem g entry a found is_plain x
        held reads
      ∙ ap
          (λ checked.
            checked
            >> ok (record run {
              mem = mem;
              ring = io_uring_cq_advance 1 run.ring;
              streams =
                  set run.streams (owner_of cqe.user_data) (record ws { stream = plain stream' });
              handlers = set run.handlers (owner_of cqe.user_data) handler';
            }))
          fine
