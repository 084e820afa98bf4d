-- ===== src/Session/PingPong/Expecting.antt =====
-- src/ping_pong.rs with the whole crate below it: in every run the stream is ready for its next buffer.
use uring_ws.Base.{
  ℕ, ◌≡◌, refl, sym, ◌∙◌, ap, subst, arith, some, List, length, get_elem?, get_elem?-set_self,
  lt_length_of_get_elem?,
}
use uring_ws.UserData.{owner_of}
use uring_ws.BufRing.Cycle.{Posted}
use uring_ws.Cqe.{Cqe}
use uring_ws.Net.{TcpStream, Socket}
use uring_ws.Net.Room.{Expecting, Reads-Expecting}
use uring_ws.Net.Write.{write_nonblocking_stream}
use uring_ws.Session.{WebSocket, Tungstenite, Running, plain}
use uring_ws.Session.PingPong.Loop.{Handled, handle_cqe-Handled}
use uring_ws.Session.PingPong.Buffers.{IsReader, plain_unique, Handled-found}
use uring_ws.Session.PingPong.Follow.{recv-Received, send-Sent}
use uring_ws.Session.PingPong.Runs.{Opened, Runs, begins, fills, moves, receives, sends, writes}
use uring_ws.Session.PingPong.Arrival.{Runs-follows}

-- The stream of owner `id` is ready for a buffer.
abbrev pub IsExpecting : {S T W : Type 0} → (id recv_id : ℕ) → Running S T W → Type 0
IsExpecting {S} {T} {W} id recv_id run =
    (ws : WebSocket S T W) × (s : TcpStream S) × (get_elem? run.streams id ≡ some ws)
    × (ws.stream ≡ plain s)
    × Expecting recv_id s

pub at_stream :
    {S T W : Type 0} (id recv_id : ℕ) (run : Running S T W) (ws : WebSocket S T W) (s : TcpStream S)
    → IsExpecting id recv_id run
    → get_elem? run.streams id ≡ some ws
    → ws.stream ≡ plain s
    → Expecting recv_id s
at_stream id recv_id run ws s (ws0, s0, found0, plain0, x) found is_plain =
    subst (Expecting recv_id) (plain_unique run.streams id ws0 ws s0 s found0 found plain0 is_plain)
      x

module _ {S T W : Type 0} (socket : Socket S) (lib : Tungstenite S T W) (grow : ℕ → ℕ)
    (id ptr base : ℕ) (start : Running S T W) (is_reader : IsReader socket lib)
    (opened : Opened id ptr base start) where
  handled :
      (run run' : Running S T W) (cqe : Cqe) (h : Handled lib grow (some cqe) run run')
      → owner_of h.completion.user_data ≡ id
      → Expecting opened.stream.multishort_recv_id h.completed
      → IsExpecting id opened.stream.multishort_recv_id run'
  handled run run' cqe h mine x = (
    record (h.ws) { stream = plain h.stream' },
    h.stream',
    Handled-found id run run' (some cqe) h mine,
    refl,
    Reads-Expecting socket
        (is_reader h.handler h.completed run.mem h.msg h.handler' h.stream' h.mem h.reads) x,
  )

  pub Runs-IsExpecting :
      {run : Running S T W} {head : ℕ} {posted : List Posted}
      → Runs socket lib grow id ptr base start run head posted
      → IsExpecting id opened.stream.multishort_recv_id run
  Runs-IsExpecting begins = (
    opened.ws,
    opened.stream,
    opened.found,
    opened.is_plain,
    record {
      held = omega (arith, ap length opened.unread);
      req = refl;
      nonblocking = opened.nonblocking;
    },
  )
  Runs-IsExpecting (fills ring buf data_len bytes r there ne found fits) = Runs-IsExpecting r
  Runs-IsExpecting (moves ring r) = Runs-IsExpecting r
  Runs-IsExpecting (receives {run} {p = p} {rest = rest} run' cqe r a e) =
      let (c, f, posted_eq, _) =
        Runs-follows socket lib grow id ptr base start is_reader opened r in
      let h = handle_cqe-Handled lib grow (some cqe) run run' e in
      let got = recv-Received socket lib grow is_reader run run' c p rest cqe f h posted_eq a in
      let x =
        at_stream id _ run f.ws h.stream (Runs-IsExpecting r) f.found
          (f.is_plain ∙ ap plain (sym got.stream_eq)) in
      handled run run' cqe h got.mine (
        subst (Expecting _) (sym got.acc.result)
          (record { held = got.acc.fits; req = x.req; nonblocking = x.nonblocking }))
  Runs-IsExpecting (sends {run} run' cqe r owner event e) =
      let (c, f, _, _) = Runs-follows socket lib grow id ptr base start is_reader opened r in
      let h = handle_cqe-Handled lib grow (some cqe) run run' e in
      let sent = send-Sent socket lib grow is_reader run run' c cqe f h owner event in
      let x = at_stream id _ run f.ws f.stream (Runs-IsExpecting r) f.found f.is_plain in
      handled run run' cqe h sent.mine (record {
        held =
            omega (
              arith,
              ap (λ v. length v.buf_vec) sent.queue,
              ap (λ v. v.capacity) sent.queue,
              x.held,
            );
        req = sent.same_recv ∙ x.req;
        nonblocking = sent.in_step.nonblocking;
      })
  Runs-IsExpecting
        (writes {run} ws s s' msg_waitall data_ptr buf ring' n handlers r found is_plain wrote) =
      let x = at_stream id _ run ws s (Runs-IsExpecting r) found is_plain in
      let after =
        (write_nonblocking_stream socket msg_waitall data_ptr buf run.ring ring' s s' n
          x.nonblocking wrote).1 in
      (
        record ws { stream = plain s' },
        s',
        get_elem?-set_self run.streams id (record ws { stream = plain s' })
            (lt_length_of_get_elem? run.streams id ws found),
        refl,
        subst (Expecting _) (sym after)
            (record { held = x.held; req = x.req; nonblocking = x.nonblocking }),
      )
