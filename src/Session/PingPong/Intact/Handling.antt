-- ===== src/Session/PingPong/Intact/Handling.antt =====
-- src/ping_pong.rs with the whole crate below it: the bytes that wait while completions are handled and
-- messages are written.
use uring_ws.Base.{
  ℕ, true, ◌+◌, ◌-◌, ◌*◌, ◌≡◌, refl, sym, ◌∙◌, ap, ap₂, arith, some, Option, List, [], ◌∷◌, ◌++◌,
  append-nil, append_assoc, get_elem?, set, get_elem?-set_self, lt_length_of_get_elem?, ok, Io,
}
use uring_ws.UserData.{owner_of, event_of}
use uring_ws.Memory.{Memory}
use uring_ws.BufRing.Cycle.{Posted, Cycle, All}
use uring_ws.Ring.{IoUring}
use uring_ws.Cqe.{Cqe}
use uring_ws.ReadBuf.{slice}
use uring_ws.ReadBuf.Reader.{IsReadable}
use uring_ws.ReadBuf.Stream.{stream}
use uring_ws.ReadBuf.Untouched.{arrived, stream-append}
use uring_ws.Net.{TcpStream, Socket, write}
use uring_ws.Net.Taken.{Takes-in_order}
use uring_ws.Net.Write.{write_nonblocking_stream}
use uring_ws.Session.{WebSocket, Tungstenite, Running, plain}
use uring_ws.Session.PingPong.Loop.{Handled}
use uring_ws.Session.PingPong.Buffers.{Follows, Announces, plain_unique, Handled-found}
use uring_ws.Session.PingPong.Follow.{recv-Received, send-Sent}
use uring_ws.Session.PingPong.Carried.{IsReaderOf, IsReaderOf-IsReader}
use uring_ws.Session.PingPong.Intact.{waiting, IsIntact, at_stream}

module _ {S T W : Type 0} (socket : Socket S) (lib : Tungstenite S T W)
    (takes : W → TcpStream S → Memory → List ℕ) (grow : ℕ → ℕ)
    (reader : IsReaderOf socket lib takes) (id base : ℕ) where
  -- The reads of a completed stream.
  reads-IsIntact :
      (run run' : Running S T W) (cqe : Option Cqe) (posted : List Posted) (put got : List ℕ)
      (h : Handled lib grow cqe run run')
      → owner_of h.completion.user_data ≡ id
      → All IsReadable h.completed.inner.buf_vec
      → h.completed.nonblocking ≡ true
      → put ≡ got ++ waiting run.mem.bytes base h.completed posted
      → IsIntact id base run' posted put (got ++ takes h.handler h.completed run.mem)
  reads-IsIntact run run' cqe posted put got h mine readable nb whole =
      let out = takes h.handler h.completed run.mem in
      let (order, same) =
        Takes-in_order socket
          (reader h.handler h.completed run.mem h.msg h.handler' h.stream' h.mem h.reads) readable
          nb in
      let mem_eq : run'.mem ≡ h.mem = ap (λ t. t.mem) h.result in
      let st = stream h.mem.bytes h.stream'.inner.buf_vec in
      let ar = arrived h.mem.bytes base posted in
      (
        record (h.ws) { stream = plain h.stream' },
        h.stream',
        Handled-found id run run' cqe h mine,
        refl,
        whole
            ∙ ap₂ (λ a b. got ++ (a ++ arrived b base posted)) order (sym same)
            ∙ ap (◌++◌ got) (append_assoc out st ar)
            ∙ sym (append_assoc got out (st ++ ar))
            ∙ ap (λ m. (got ++ out) ++ waiting m.bytes base h.stream' posted) (sym mem_eq),
      )

  pub recv-IsIntact :
      {ptr : ℕ} (run run' : Running S T W) (c : Cycle) (p : Posted) (rest : List Posted)
      (put got : List ℕ) (cqe : Cqe) (h : Handled lib grow (some cqe) run run')
      → Follows id ptr base run c
      → c.posted ≡ p ∷ rest
      → IsIntact id base run (p ∷ rest) put got
      → Announces id p cqe
      → IsIntact id base run' rest put (got ++ takes h.handler h.completed run.mem)
  recv-IsIntact {ptr} run run' c p rest put got cqe h f first intact a =
      let r =
        recv-Received socket lib grow (IsReaderOf-IsReader socket lib takes reader) run run' c p
          rest cqe f h first a in
      let bytes = run.mem.bytes in
      let new = slice bytes (base + p.bid * 1500) p.data_len in
      let st = stream bytes f.stream.inner.buf_vec in
      let queue =
        ap (λ s. s.inner.buf_vec) r.acc.result
        ∙ ap (λ s. s.inner.buf_vec ++ (record { buf = some r.acc.kb; claimed = 0 } ∷ []))
            r.stream_eq in
      let fresh : slice bytes (r.acc.kb.addr + 0) (r.acc.kb.data_len - 0) ≡ new =
        ap₂ (slice bytes) (omega (arith, ap (λ k. k.addr) r.kb_eq))
          (omega (arith, ap (λ k. k.data_len) r.kb_eq, a.length_lem)) in
      let grown : stream bytes h.completed.inner.buf_vec ≡ st ++ new =
        ap (stream bytes) queue
        ∙ stream-append bytes f.stream.inner.buf_vec _
        ∙ ap (◌++◌ st) (append-nil _ ∙ fresh) in
      reads-IsIntact run run' (some cqe) rest put got h r.mine r.in_step.readable
        r.in_step.nonblocking
        (at_stream id base run (p ∷ rest) put got f.ws f.stream intact f.found f.is_plain
          ∙ ap (◌++◌ got) (
              sym (append_assoc st new (arrived bytes base rest))
              ∙ ap (λ l. l ++ arrived bytes base rest) (sym grown)))

  pub send-IsIntact :
      {ptr : ℕ} (run run' : Running S T W) (c : Cycle) (posted : List Posted) (put got : List ℕ)
      (cqe : Cqe) (h : Handled lib grow (some cqe) run run')
      → Follows id ptr base run c
      → IsIntact id base run posted put got
      → owner_of cqe.user_data ≡ id
      → event_of cqe.user_data ≡ 0
      → IsIntact id base run' posted put (got ++ takes h.handler h.completed run.mem)
  send-IsIntact run run' c posted put got cqe h f intact owner event =
      let r =
        send-Sent socket lib grow (IsReaderOf-IsReader socket lib takes reader) run run' c cqe f h
          owner event in
      reads-IsIntact run run' (some cqe) posted put got h r.mine r.in_step.readable
        r.in_step.nonblocking
        (at_stream id base run posted put got f.ws f.stream intact f.found f.is_plain
          ∙ ap (λ v. got ++ (stream run.mem.bytes v.buf_vec ++ arrived run.mem.bytes base posted))
              (sym r.queue))

  pub write-IsIntact :
      {ptr : ℕ} (run : Running S T W) (c : Cycle) (posted : List Posted) (put got : List ℕ)
      (ws : WebSocket S T W) (s s' : TcpStream S) (msg_waitall data_ptr : ℕ) (buf : List ℕ)
      (ring' : IoUring) (n : Io ℕ) (handlers : List W)
      → Follows id ptr base run c
      → IsIntact id base run posted put got
      → get_elem? run.streams id ≡ some ws
      → ws.stream ≡ plain s
      → write socket msg_waitall data_ptr buf run.ring s ≡ ok (s', ring', n)
      → IsIntact id base
          (record run {
            ring = ring';
            streams = set run.streams id (record ws { stream = plain s' });
            handlers = handlers;
          })
          posted
          put
          got
  write-IsIntact run c posted put got ws s s' msg_waitall data_ptr buf ring' n handlers f intact
        found is_plain wrote =
      let s_eq : s ≡ f.stream =
        plain_unique run.streams id ws f.ws s f.stream found f.found is_plain f.is_plain in
      let after =
        (write_nonblocking_stream socket msg_waitall data_ptr buf run.ring ring' s s' n
          (ap (λ s. s.nonblocking) s_eq ∙ f.in_step.nonblocking) wrote).1 in
      (
        record ws { stream = plain s' },
        s',
        get_elem?-set_self run.streams id (record ws { stream = plain s' })
            (lt_length_of_get_elem? run.streams id ws found),
        refl,
        at_stream id base run posted put got ws s intact found is_plain
            ∙ ap (λ v. got ++ (stream run.mem.bytes v ++ arrived run.mem.bytes base posted))
                (sym (ap (λ s. s.inner.buf_vec) after)),
      )
