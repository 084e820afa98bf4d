-- ===== src/Session/PingPong/Buffers.antt =====
-- src/ping_pong.rs with the whole crate below it: the loop's handling of completions follows the cycle of a
-- stream's buffer group.
use mathlib.Core.List.{map-append}
use uring_ws.Base.{
  ℕ, ◌+◌, ◌*◌, ◌/◌, ◌%◌, ◌^◌, ◌≤◌, ◌<◌, ◌≡◌, refl, sym, ◌∙◌, ap, subst, arith, some, Option, List,
  [], ◌∷◌, ◌++◌, get_elem?, set, get_elem?-set_self, lt_length_of_get_elem?, ok,
}
use uring_ws.UserData.{owner_of, event_of}
use uring_ws.Memory.{Memory}
use uring_ws.BufRing.Group.{GroupAt}
use uring_ws.BufRing.Cycle.{Posted, Cycle, All, IsSound}
use uring_ws.BufRing.Cycle.Sound.{Reach, Reach-IsSound}
use uring_ws.Cqe.{Cqe, Completion, from_raw_event}
use uring_ws.Cqe.Event.{from_raw_event_recv}
use uring_ws.ReadBuf.{KernelBufferReader}
use uring_ws.ReadBuf.Reader.{IsReadable}
use uring_ws.ReadBuf.Effect.{bufs}
use uring_ws.Net.{TcpStream, Socket}
use uring_ws.Net.Complete.{RecvAccepted}
use uring_ws.Net.Reads.{Reads, InStep, Reads-follow}
use uring_ws.Session.{MaybeTlsStream, WebSocket, FrameRead, Tungstenite, Running, plain}
use uring_ws.Session.PingPong.Loop.{Handled}
use uring_ws.Session.PingPong.Receive.{lent}

-- `read_message_frame` of tungstenite takes a `Read`: whatever it does to the stream, it does by reads.
abbrev pub IsReader : {S T W : Type 0} → Socket S → Tungstenite S T W → Type 0
IsReader {S} {T} {W} socket lib =
    (h : W) (s : TcpStream S) (m : Memory) (msg : FrameRead) (h' : W) (s' : TcpStream S)
    (m' : Memory)
    → lib.read_message_frame h s m ≡ ok (msg, h', s', m')
    → Reads socket s m s' m'

-- The stream of owner `id` is in step with the cycle of its group.
pub record Follows {S T W : Type 0} (id ptr base : ℕ) (run : Running S T W) (c : Cycle)
    : Type 0 where
  pub entry : get_elem? run.pool.buf_ring_ptrs id ≡ some ptr
  pub sound : IsSound run.pool id ptr base c
  pub ws : WebSocket S T W
  pub stream : TcpStream S
  pub found : get_elem? run.streams id ≡ some ws
  pub is_plain : ws.stream ≡ plain stream
  pub in_step : InStep c stream run.mem
  pub owner : stream.owner_id ≡ id

-- The entry that the kernel writes for a buffer that it has filled.
pub record Announces (id : ℕ) (p : Posted) (cqe : Cqe) : Type 0 where
  pub owner : owner_of cqe.user_data ≡ id
  pub event : event_of cqe.user_data ≡ 1
  pub length_lem : cqe.res ≡ p.data_len
  pub not_empty : 0 < cqe.res
  pub has_buffer : cqe.flags % 2 ≡ 1
  pub whole : cqe.flags / 16 % 2 ≡ 0
  pub buffer_id : cqe.flags / 2 ^ 16 ≡ p.bid

All-snoc :
    (rs : List KernelBufferReader) (r : KernelBufferReader)
    → All IsReadable rs
    → IsReadable r
    → All IsReadable (rs ++ (r ∷ []))
All-snoc [] r h p = (p, tt)
All-snoc (x ∷ rs) r h p = (h.0, All-snoc rs r h.1 p)

-- The stream in step with the cycle once the completion's buffer is queued.
pub received-InStep :
    {S T W : Type 0} (grow : ℕ → ℕ) (run : Running S T W) (c : Cycle) (rest : List Posted)
    (stream completed : TcpStream S) (comp : Completion)
    → InStep c stream run.mem
    → (a : RecvAccepted grow comp stream completed) → 0 < a.kb.data_len
    → a.kb.data_len ≤ 1500
    → InStep (record c { posted = rest; lent = c.lent ++ (a.kb ∷ []) }) completed run.mem
received-InStep grow run c rest stream completed comp i a pos small =
    let queue : completed.inner.buf_vec
        ≡ stream.inner.buf_vec ++ (record { buf = some a.kb; claimed = 0 } ∷ []) =
      ap (λ s. s.inner.buf_vec) a.result in
    record {
      same_mem = i.same_mem;
      same_bufs =
          ap bufs queue
          ∙ map-append (λ r. r.buf) stream.inner.buf_vec
              (record { buf = some a.kb; claimed = 0 } ∷ [])
          ∙ ap (λ l. l ++ (some a.kb ∷ [])) i.same_bufs
          ∙ sym (map-append some c.lent (a.kb ∷ []));
      readable = subst (All IsReadable) (sym queue) (
          All-snoc stream.inner.buf_vec _ i.readable
            (record { kb = a.kb; holds = refl; left = pos; word = omega (arith, small) }));
      nonblocking = ap (λ s. s.nonblocking) a.result ∙ i.nonblocking;
    }

pub some-injective : {A : Type 0} (a b : A) → some a ≡ some b → a ≡ b
some-injective a b e = cc

-- The buffer of an announced entry, as the cycle lends it.
pub lent_fields :
    (base ptr bid id : ℕ) (cqe : Cqe) (p : Posted)
    → Announces id p cqe
    → lent base ptr bid cqe ≡ record {
      addr = base + bid * 1500;
      data_len = p.data_len;
      buf_ring = ptr;
      bid = bid;
      bgid = id;
      buf_len = 1500;
    }
lent_fields base ptr bid id cqe p a = ground (arith, a.owner, a.length_lem)

-- The plain stream of an owner is one.
pub plain_unique :
    {S T W : Type 0} (l : List (WebSocket S T W)) (id : ℕ) (w v : WebSocket S T W)
    (s t : TcpStream S)
    → get_elem? l id ≡ some w
    → get_elem? l id ≡ some v
    → w.stream ≡ plain s
    → v.stream ≡ plain t
    → s ≡ t
plain_unique {S} {T} l id w v s t at_w at_v is_plain is_plain' =
    let same : w ≡ v = some-injective w v (sym at_w ∙ at_v) in
    let both : ◌≡◌ {A = MaybeTlsStream S T} (plain s) (plain t) =
      sym is_plain ∙ ap (λ x. x.stream) same ∙ is_plain' in
    cc

-- Where the stream is once its completion was handled.
pub Handled-found :
    {S T W : Type 0} {lib : Tungstenite S T W} {grow : ℕ → ℕ} (id : ℕ) (run run' : Running S T W)
    (cqe : Option Cqe) (h : Handled lib grow cqe run run')
    → owner_of h.completion.user_data ≡ id
    → get_elem? run'.streams id ≡ some (record (h.ws) { stream = plain h.stream' })
Handled-found {S} {T} {W} id run run' cqe h mine =
    let ws' : WebSocket S T W = record (h.ws) { stream = plain h.stream' } in
    ap (λ t. get_elem? t.streams id) h.result
    ∙ ap (λ k. get_elem? (set run.streams k ws') id) mine
    ∙ get_elem?-set_self run.streams id ws' (
        lt_length_of_get_elem? run.streams id h.ws
          (subst (λ k. get_elem? run.streams k ≡ some h.ws) mine h.found))

module _ {S T W : Type 0} (socket : Socket S) (lib : Tungstenite S T W) (grow : ℕ → ℕ)
    (is_reader : IsReader socket lib) {id ptr base : ℕ} where
  -- The state after the handler has read from a completed stream that is in step with a cycle.
  pub read_on :
      (run run' : Running S T W) (cqe : Option Cqe) (c : Cycle)
      → (h : Handled lib grow cqe run run') → owner_of h.completion.user_data ≡ id
      → get_elem? run.pool.buf_ring_ptrs id ≡ some ptr
      → IsSound run.pool id ptr base c
      → InStep c h.completed run.mem
      → h.completed.owner_id ≡ id
      → (d : Cycle) × Reach run.pool id ptr base c d
        × Follows id ptr base run' d
        × (d.posted ≡ c.posted)
        × (d.head ≡ c.head)
  read_on run run' cqe c h mine entry sound i owner =
      let (d, r, i', same, posted, head) =
        Reads-follow socket {pool = run.pool} {bgid = id} {ptr = ptr} {base = base} c
          (is_reader h.handler h.completed run.mem h.msg h.handler' h.stream' h.mem h.reads) i in
      let ws' : WebSocket S T W = record (h.ws) { stream = plain h.stream' } in
      (
        d,
        r,
        record {
          entry = ap (λ t. get_elem? t.pool.buf_ring_ptrs id) h.result ∙ entry;
          sound =
              subst (λ t. IsSound t id ptr base d) (ap (λ t. t.pool) (sym h.result))
                (Reach-IsSound entry sound r);
          ws = ws';
          stream = h.stream';
          found = Handled-found id run run' cqe h mine;
          is_plain = refl;
          in_step = subst (InStep d h.stream') (ap (λ t. t.mem) (sym h.result)) i';
          owner = same.0 ∙ owner;
        },
        posted,
        head,
      )

  pub same_stream :
      (run run' : Running S T W) (cqe : Option Cqe) (c : Cycle)
      → (f : Follows id ptr base run c) → (h : Handled lib grow cqe run run')
      → owner_of h.completion.user_data ≡ id
      → h.stream ≡ f.stream
  same_stream run run' cqe c f h mine =
      let found : get_elem? run.streams id ≡ some h.ws =
        subst (λ k. get_elem? run.streams k ≡ some h.ws) mine h.found in
      plain_unique run.streams id h.ws f.ws h.stream f.stream found f.found h.is_plain f.is_plain

  -- What `from_raw_event` makes of an entry that announces the oldest filled buffer.
  pub announced :
      (run : Running S T W) (c : Cycle) (p : Posted) (rest : List Posted) (cqe : Cqe)
      → Follows id ptr base run c
      → c.posted ≡ p ∷ rest
      → Announces id p cqe
      → from_raw_event run.pool run.mem (some cqe)
        ≡ ok (record {
          cqe = cqe;
          kernel_buf = some (lent base ptr p.bid cqe);
          user_data = cqe.user_data;
        })
  announced run c p rest cqe f first a =
      let posted : All (λ (p : Posted). (p.bid < 1024) × (p.data_len ≤ 1500)) (p ∷ rest) =
        subst (All _) first f.sound.posted_sound in
      from_raw_event_recv base ptr p.bid run.pool run.mem cqe
        (subst (GroupAt base ptr) f.in_step.same_mem f.sound.at_ptr)
        (ap (get_elem? run.pool.buf_ring_ptrs) a.owner ∙ f.entry) posted.0.0 a.not_empty
        (omega (arith, posted.0.1, a.length_lem)) a.has_buffer a.whole a.buffer_id
