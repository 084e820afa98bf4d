-- ===== src/Session/PingPong/Returns.antt =====
-- src/ping_pong.rs with the whole crate below it: handling a received buffer returns.
pub mod Batch
use uring_ws.Base.{
  ℕ, ◌<◌, ◌≤◌, ◌≡◌, refl, sym, ◌∙◌, ap, subst, arith, ◌⊎◌, inl, inr, some, List, ◌∷◌, get_elem?,
  set, ok, ◌>>◌, panic, ◌>>=◌, explicit, >>=-cases_ok,
}
use uring_ws.UserData.{owner_of, req_of}
use uring_ws.Memory.{Memory}
use uring_ws.BufRing.Cycle.{Posted, All, completes}
use uring_ws.BufRing.Cycle.Sound.{Step-IsSound}
use uring_ws.BufRing.Cycle.Progress.{sound_completes}
use uring_ws.BufRing.Group.{GroupAt}
use uring_ws.Ring.{io_uring_cq_advance}
use uring_ws.Cqe.{Cqe}
use uring_ws.Net.{TcpStream, Socket}
use uring_ws.Net.Ask.{Asks, play, play-Takes, play_returns}
use uring_ws.Net.Complete.{on_completion_recv}
use uring_ws.Net.Reads.{Reads}
use uring_ws.Net.Taken.{Takes-Reads}
use uring_ws.ReadBuf.Queue.{queued_behind}
use uring_ws.Session.{
  WebSocket, FrameRead, frame, no_frame, io_error, protocol_error, Tungstenite, Running, plain,
}
use uring_ws.Session.PingPong.{handle_cqe, frame_checked}
use uring_ws.Session.PingPong.Receive.{Arrives, Expects, lent, received, handle_cqe_frame}
use uring_ws.Session.PingPong.Buffers.{
  IsReader, Announces, some-injective, lent_fields, received-InStep,
}
use uring_ws.Session.PingPong.Runs.{Opened, Runs}
use uring_ws.Session.PingPong.Arrival.{Runs-follows}
use uring_ws.Session.PingPong.Expecting.{Runs-IsExpecting, at_stream}

-- The library's frame decides between going on and the panic of the loop.
abbrev pub Outcome :
    {S T W : Type 0} → Tungstenite S T W → (ℕ → ℕ) → Running S T W → Cqe → W → Type 0
Outcome {S} {T} {W} lib grow run cqe handler =
    ((run' : Running S T W) × (handle_cqe lib grow (some cqe) run ≡ ok run'))
    ⊎ ((s : TcpStream S) × (h' : W) × (s' : TcpStream S) × (m' : Memory) × (lib.read_message_frame
            handler s run.mem
          ≡ ok (protocol_error, h', s', m'))
        × (handle_cqe lib grow (some cqe) run ≡ panic explicit))

module _ {S T W : Type 0} (socket : Socket S) (lib : Tungstenite S T W)
    (frames : W → Asks (FrameRead × W)) where
  -- `read_message_frame` of tungstenite is a client that only reads: `frames` tells what it asks for.
  abbrev pub IsClient : Type 0
  IsClient =
      (h : W) (s : TcpStream S) (m : Memory)
      → lib.read_message_frame h s m
        ≡ (play socket (frames h) s m >>= λ t. ok (t.0.0, t.0.1, t.1, t.2))

  pub client-IsReader : IsClient → IsReader socket lib
  client-IsReader client h s m msg h' s' m' e =
      >>=-cases_ok (play socket (frames h) s m) _ (sym (client h s m) ∙ e) λ t played rest.
        subst (λ (u : TcpStream S × Memory). Reads socket s m u.0 u.1) {x = (t.1, t.2)}
          {y = (s', m')} (cc) (Takes-Reads socket (play-Takes socket (frames h) s m t played))

  module _ (grow : ℕ → ℕ) (id ptr base : ℕ) (start : Running S T W) (client : IsClient)
      (opened : Opened id ptr base start) (grows : (c : ℕ) → c < grow c) where
    -- The library's call when the oldest filled buffer is queued, and that it returns.
    record Asked (run : Running S T W) (cqe : Cqe) (p : Posted) (handler : W) : Type 0 where
      ws : WebSocket S T W
      stream : TcpStream S
      found : get_elem? run.streams (owner_of cqe.user_data) ≡ some ws
      is_plain : ws.stream ≡ plain stream
      at_ptr : GroupAt base ptr run.mem
      entry : get_elem? run.pool.buf_ring_ptrs (owner_of cqe.user_data) ≡ some ptr
      arrives : Arrives p.bid cqe
      expects : Expects grow cqe.user_data stream
      msg : FrameRead
      handler' : W
      stream' : TcpStream S
      mem : Memory
      called :
          lib.read_message_frame handler
            (record stream { inner = queued_behind grow (lent base ptr p.bid cqe) stream.inner })
            run.mem
          ≡ ok (msg, handler', stream', mem)

    recv-Asked :
        (run : Running S T W) (head : ℕ) (p : Posted) (rest : List Posted) (cqe : Cqe) (handler : W)
        → Runs socket lib grow id ptr base start run head (p ∷ rest)
        → Announces id p cqe
        → req_of cqe.user_data ≡ opened.stream.multishort_recv_id
        → Asked run cqe p handler
    recv-Asked run head p rest cqe handler r a req =
        let (c, f, first, _) =
          Runs-follows socket lib grow id ptr base start (client-IsReader client) opened r in
        let x =
          at_stream id _ run f.ws f.stream
            (Runs-IsExpecting socket lib grow id ptr base start (client-IsReader client) opened r)
            f.found f.is_plain in
        let posted_ok : All (λ (p : Posted). (p.bid < 1024) × (p.data_len ≤ 1500)) (p ∷ rest) =
          subst (All _) first f.sound.posted_sound in
        let arrives : Arrives p.bid cqe = record {
          in_group = posted_ok.0.0;
          not_empty = a.not_empty;
          fits = omega (arith, a.length_lem, posted_ok.0.1);
          has_buffer = a.has_buffer;
          whole = a.whole;
          buffer_id = a.buffer_id;
        } in
        let expects : Expects grow cqe.user_data f.stream = record {
          owner = a.owner ∙ sym f.owner;
          event = a.event;
          req = req ∙ sym x.req;
          held = x.held;
          grows = grows f.stream.inner.capacity;
        } in
        let kb = lent base ptr p.bid cqe in
        let completed : TcpStream S = record (f.stream) {
          inner = queued_behind grow kb f.stream.inner;
        } in
        let acc =
          (on_completion_recv grow
              (record { cqe = cqe; kernel_buf = some kb; user_data = cqe.user_data }) f.stream
              completed expects.owner a.event).0
            (received lib grow base ptr p.bid cqe f.stream arrives expects) in
        let kb_eq : acc.kb ≡ kb = some-injective acc.kb kb (sym acc.held) in
        let size : acc.kb.data_len ≡ cqe.res = ap (λ k. k.data_len) kb_eq in
        let i =
          received-InStep grow run c rest f.stream completed _ f.in_step acc
            (omega (arith, size, a.not_empty)) (omega (arith, size, arrives.fits)) in
        let sound = Step-IsSound f.entry f.sound (
          completes c p rest acc.kb first (
            sound_completes c p rest f.entry f.sound first
            ∙ ap ok (sym (kb_eq ∙ lent_fields base ptr p.bid id cqe p a)))) in
        let (res, played) =
          play_returns socket (frames handler) _ completed run.mem f.entry i sound in
        record {
          ws = f.ws;
          stream = f.stream;
          found = ap (get_elem? run.streams) a.owner ∙ f.found;
          is_plain = f.is_plain;
          at_ptr = subst (GroupAt base ptr) f.in_step.same_mem f.sound.at_ptr;
          entry = ap (get_elem? run.pool.buf_ring_ptrs) a.owner ∙ f.entry;
          arrives = arrives;
          expects = expects;
          msg = res.0.0;
          handler' = res.0.1;
          stream' = res.1;
          mem = res.2;
          called = client handler completed run.mem ∙ rw played refl;
        }

    stepped :
        (run : Running S T W) (cqe : Cqe) (p : Posted) (handler : W) (q : Asked run cqe p handler)
        (msg : FrameRead)
        → q.msg ≡ msg
        → get_elem? run.handlers (owner_of cqe.user_data) ≡ some handler
        → handle_cqe lib grow (some cqe) run ≡ (
            frame_checked lib msg
            >> ok (record run {
              mem = q.mem;
              ring = io_uring_cq_advance 1 run.ring;
              streams =
                  set run.streams
                    (owner_of cqe.user_data)
                    (record (q.ws) { stream = plain q.stream' });
              handlers = set run.handlers (owner_of cqe.user_data) q.handler';
            }))
    stepped run cqe p handler q msg which held =
        handle_cqe_frame lib grow base ptr p.bid cqe run q.ws q.stream q.stream' handler q.handler'
          msg q.mem q.at_ptr q.entry q.arrives q.found q.is_plain q.expects held
          (q.called ∙ ap (λ m. ok (m, q.handler', q.stream', q.mem)) which)

    by_frame :
        (run : Running S T W) (cqe : Cqe) (p : Posted) (handler : W) (q : Asked run cqe p handler)
        (msg : FrameRead)
        → q.msg ≡ msg
        → get_elem? run.handlers (owner_of cqe.user_data) ≡ some handler
        → Outcome lib grow run cqe handler
    unfolding frame_checked
    by_frame run cqe p handler q (frame out) which held =
        inl (_, stepped run cqe p handler q (frame out) which held)
    by_frame run cqe p handler q no_frame which held =
        inl (_, stepped run cqe p handler q no_frame which held)
    by_frame run cqe p handler q (io_error e) which held =
        inl (_, stepped run cqe p handler q (io_error e) which held)
    by_frame run cqe p handler q protocol_error which held = inr (
      _,
      _,
      _,
      _,
      q.called ∙ ap (λ m. ok (m, q.handler', q.stream', q.mem)) which,
      stepped run cqe p handler q protocol_error which held,
    )

    -- In every run, from the opening on, growing of the deque making room, and with a websocket library that
    -- does nothing to the stream but read into buffers with room, handling the completion of the
    -- oldest filled buffer under the id of the stream's receive returns, unless the library finds a
    -- protocol error, which is then the panic: no read, no buffer given back and no assertion on the way
    -- panics.
    pub handle_cqe_returns :
        (run : Running S T W) (head : ℕ) (p : Posted) (rest : List Posted) (cqe : Cqe) (handler : W)
        → Runs socket lib grow id ptr base start run head (p ∷ rest)
        → Announces id p cqe
        → req_of cqe.user_data ≡ opened.stream.multishort_recv_id
        → get_elem? run.handlers id ≡ some handler
        → Outcome lib grow run cqe handler
    handle_cqe_returns run head p rest cqe handler r a req held =
        let q = recv-Asked run head p rest cqe handler r a req in
        by_frame run cqe p handler q q.msg refl (ap (get_elem? run.handlers) a.owner ∙ held)
