-- ===== src/Session/PingPong/Runs.antt =====
-- src/ping_pong.rs: the runs of the program and the kernel over one stream, from its opening on. The kernel
-- fills buffers, and moves the rings as it likes; the program handles the completions that the
-- kernel posts, in order, and writes.
use uring_ws.Base.{
  ℕ, ◌+◌, ◌≡◌, ◌≢◌, ◌≤◌, ◌%◌, refl, sym, ◌∙◌, ap, subst, true, some, List, [], ◌∷◌, ◌++◌, get_elem?,
  set, get_elem?-set_self, lt_length_of_get_elem?, u16, ok, Io,
}
use uring_ws.UserData.{owner_of, event_of}
use uring_ws.Memory.{Memory, IoBuf, BufRing}
use uring_ws.BufRing.{tail_of}
use uring_ws.BufRing.Group.{GroupAt}
use uring_ws.BufRing.Cycle.{Posted, Cycle, All, takes}
use uring_ws.BufRing.Cycle.Sound.{Step-IsSound}
use uring_ws.BufRing.Cycle.Ownership.{fresh_cycle, fresh_cycle-IsSound}
use uring_ws.Ring.{IoUring}
use uring_ws.Cqe.{Cqe}
use uring_ws.ReadBuf.Reader.{IsReadable}
use uring_ws.ReadBuf.Effect.{bufs}
use uring_ws.Net.{TcpStream, Socket, write}
use uring_ws.Net.Write.{write_nonblocking_stream}
use uring_ws.Session.{WebSocket, Tungstenite, Running, plain}
use uring_ws.Session.PingPong.{handle_cqe}
use uring_ws.Session.PingPong.Buffers.{Follows, Announces, plain_unique}

-- The stream of owner `id` as it has just been opened, over a group that the kernel has in full.
pub record Opened {S T W : Type 0} (id ptr base : ℕ) (run : Running S T W) : Type 0 where
  pub entry : get_elem? run.pool.buf_ring_ptrs id ≡ some ptr
  pub group : GroupAt base ptr run.mem
  pub full : tail_of group.ring ≡ 1024
  pub ws : WebSocket S T W
  pub stream : TcpStream S
  pub found : get_elem? run.streams id ≡ some ws
  pub is_plain : ws.stream ≡ plain stream
  pub unread : stream.inner.buf_vec ≡ []
  pub nonblocking : stream.nonblocking ≡ true
  pub owner : stream.owner_id ≡ id

abbrev with_bytes : (ℕ → ℕ) → Memory → Memory
with_bytes bytes m = record m { bytes = bytes }

module _ {S T W : Type 0} (socket : Socket S) (lib : Tungstenite S T W) (grow : ℕ → ℕ)
    (id ptr base : ℕ) (start : Running S T W) where
  -- A state of the program, with the kernel's count of the buffers that it has taken and the filled
  -- buffers whose completions the program has not handled yet.
  pub data Runs : Running S T W → ℕ → List Posted → Type 0 where
    begins : Runs start 0 []
    -- the kernel fills the buffer at its head
    fills :
        {run : Running S T W} {head : ℕ} {posted : List Posted} (ring : BufRing) (buf : IoBuf)
        (data_len : ℕ) (bytes : ℕ → ℕ)
        → Runs run head posted
        → run.mem.rings ptr ≡ some ring
        → head ≢ tail_of ring
        → get_elem? ring (head % 1024) ≡ some buf
        → data_len ≤ buf.len
        → Runs
            (record run { mem = record (run.mem) { bytes = bytes } })
            (u16 (head + 1))
            (posted ++ (record { bid = buf.bid; data_len = data_len } ∷ []))
    -- the kernel, or a submission, moves the rings of submissions and completions
    moves :
        {run : Running S T W} {head : ℕ} {posted : List Posted} (ring : IoUring)
        → Runs run head posted
        → Runs (record run { ring = ring }) head posted
    -- the loop handles the oldest filled buffer
    receives :
        {run : Running S T W} {head : ℕ} {p : Posted} {rest : List Posted} (run' : Running S T W)
        (cqe : Cqe)
        → Runs run head (p ∷ rest)
        → Announces id p cqe
        → handle_cqe lib grow (some cqe) run ≡ ok run'
        → Runs run' head rest
    -- the loop handles the completion of a send
    sends :
        {run : Running S T W} {head : ℕ} {posted : List Posted} (run' : Running S T W) (cqe : Cqe)
        → Runs run head posted
        → owner_of cqe.user_data ≡ id
        → event_of cqe.user_data ≡ 0
        → handle_cqe lib grow (some cqe) run ≡ ok run'
        → Runs run' head posted
    -- the program writes a message
    writes :
        {run : Running S T W} {head : ℕ} {posted : List Posted} (ws : WebSocket S T W)
        (stream stream' : TcpStream S) (msg_waitall data_ptr : ℕ) (buf : List ℕ) (ring' : IoUring)
        (n : Io ℕ) (handlers : List W)
        → Runs run head posted
        → get_elem? run.streams id ≡ some ws
        → ws.stream ≡ plain stream
        → write socket msg_waitall data_ptr buf run.ring stream ≡ ok (stream', ring', n)
        → Runs
            (record run {
              ring = ring';
              streams = set run.streams id (record ws { stream = plain stream' });
              handlers = handlers;
            })
            head
            posted

  -- A cycle of the group that a state follows.
  abbrev pub Followed : Running S T W → ℕ → List Posted → Type 0
  Followed run head posted =
      (c : Cycle) × Follows id ptr base run c × (c.posted ≡ posted) × (c.head ≡ head)

  pub Opened-follows : Opened id ptr base start → Followed start 0 []
  Opened-follows o = (
    fresh_cycle start.mem,
    record {
      entry = o.entry;
      sound = fresh_cycle-IsSound start.pool id ptr base start.mem o.group o.full;
      ws = o.ws;
      stream = o.stream;
      found = o.found;
      is_plain = o.is_plain;
      in_step = record {
        same_mem = refl;
        same_bufs = ap bufs o.unread;
        readable = subst (All IsReadable) (sym o.unread) tt;
        nonblocking = o.nonblocking;
      };
      owner = o.owner;
    },
    refl,
    refl,
  )

  pub fill_follows :
      (run : Running S T W) (head : ℕ) (posted : List Posted) (ring : BufRing) (buf : IoBuf)
      (data_len : ℕ) (bytes : ℕ → ℕ)
      → Followed run head posted
      → run.mem.rings ptr ≡ some ring
      → head ≢ tail_of ring
      → get_elem? ring (head % 1024) ≡ some buf
      → data_len ≤ buf.len
      → Followed
          (record run { mem = record (run.mem) { bytes = bytes } })
          (u16 (head + 1))
          (posted ++ (record { bid = buf.bid; data_len = data_len } ∷ []))
  fill_follows run head posted ring buf data_len bytes (c, f, posted_eq, head_eq) there ne found
        fits =
      let step =
        takes c ring buf data_len bytes (ap (λ m. m.rings ptr) f.in_step.same_mem ∙ there)
          (λ e. ne (sym head_eq ∙ e)) (ap (λ h. get_elem? ring (h % 1024)) head_eq ∙ found) fits in
      (
        _,
        record {
          entry = f.entry;
          sound = Step-IsSound f.entry f.sound step;
          ws = f.ws;
          stream = f.stream;
          found = f.found;
          is_plain = f.is_plain;
          in_step = record {
            same_mem = ap (λ (m : Memory). with_bytes bytes m) f.in_step.same_mem;
            same_bufs = f.in_step.same_bufs;
            readable = f.in_step.readable;
            nonblocking = f.in_step.nonblocking;
          };
          owner = f.owner;
        },
        ap (λ l. l ++ (record { bid = buf.bid; data_len = data_len } ∷ [])) posted_eq,
        ap (λ h. u16 (h + 1)) head_eq,
      )

  pub write_follows :
      (run : Running S T W) (head : ℕ) (posted : List Posted) (ws : WebSocket S T W)
      (stream stream' : TcpStream S) (msg_waitall data_ptr : ℕ) (buf : List ℕ) (ring' : IoUring)
      (n : Io ℕ) (handlers : List W)
      → Followed run head posted
      → get_elem? run.streams id ≡ some ws
      → ws.stream ≡ plain stream
      → write socket msg_waitall data_ptr buf run.ring stream ≡ ok (stream', ring', n)
      → Followed
          (record run {
            ring = ring';
            streams = set run.streams id (record ws { stream = plain stream' });
            handlers = handlers;
          })
          head
          posted
  write_follows run head posted ws stream stream' msg_waitall data_ptr buf ring' n handlers
        (c, f, posted_eq, head_eq) found is_plain wrote =
      let stream_eq : stream ≡ f.stream =
        plain_unique run.streams id ws f.ws stream f.stream found f.found is_plain f.is_plain in
      let nb : stream.nonblocking ≡ true =
        ap (λ s. s.nonblocking) stream_eq ∙ f.in_step.nonblocking in
      let after =
        (write_nonblocking_stream socket msg_waitall data_ptr buf run.ring ring' stream stream' n nb
          wrote).1 in
      let queue : stream'.inner.buf_vec ≡ f.stream.inner.buf_vec =
        ap (λ s. s.inner.buf_vec) after ∙ ap (λ s. s.inner.buf_vec) stream_eq in
      (
        c,
        record {
          entry = f.entry;
          sound = f.sound;
          ws = record ws { stream = plain stream' };
          stream = stream';
          found =
              get_elem?-set_self run.streams id (record ws { stream = plain stream' })
                (lt_length_of_get_elem? run.streams id ws found);
          is_plain = refl;
          in_step = record {
            same_mem = f.in_step.same_mem;
            same_bufs = ap bufs queue ∙ f.in_step.same_bufs;
            readable = subst (All IsReadable) (sym queue) f.in_step.readable;
            nonblocking = ap (λ s. s.nonblocking) after ∙ nb;
          };
          owner = ap (λ s. s.owner_id) after ∙ ap (λ s. s.owner_id) stream_eq ∙ f.owner;
        },
        posted_eq,
        head_eq,
      )
