-- ===== src/Session/PingPong/Intact/Order.antt =====
-- src/ping_pong.rs with the whole crate below it: what becomes of a stream's bytes in every run.
use uring_ws.Base.{ℕ, ◌≡◌, sym, ◌∙◌, ap, ◌%◌, some, List, ◌++◌, append-nil, get_elem?}
use uring_ws.Memory.{Memory}
use uring_ws.BufRing.Cycle.{Posted}
use uring_ws.ReadBuf.Stream.{stream}
use uring_ws.ReadBuf.Untouched.{arrived}
use uring_ws.Net.{TcpStream, Socket}
use uring_ws.Session.{WebSocket, Tungstenite, Running, plain}
use uring_ws.Session.PingPong.Loop.{handle_cqe-Handled}
use uring_ws.Session.PingPong.Runs.{Opened, Followed}
use uring_ws.Session.PingPong.Carried.{
  IsReaderOf, IsReaderOf-IsReader, Carries, begins_empty, fills_with, moves_on, receives_next,
  sends_done, writes_one, Carries-Runs,
}
use uring_ws.Session.PingPong.Arrival.{Runs-follows}
use uring_ws.Session.PingPong.Intact.{IsIntact, fill-IsIntact}
use uring_ws.Session.PingPong.Intact.Handling.{recv-IsIntact, send-IsIntact, write-IsIntact}

module _ {S T W : Type 0} (socket : Socket S) (lib : Tungstenite S T W)
    (takes : W → TcpStream S → Memory → List ℕ) (grow : ℕ → ℕ) (id ptr base : ℕ)
    (start : Running S T W) (reader : IsReaderOf socket lib takes)
    (opened : Opened id ptr base start) where
  follows :
      {run : Running S T W} {head : ℕ} {posted : List Posted} {put got : List ℕ}
      → Carries socket lib takes grow id ptr base start run head posted put got
      → Followed socket lib grow id ptr base start run head posted
  follows r =
      Runs-follows socket lib grow id ptr base start (IsReaderOf-IsReader socket lib takes reader)
        opened (Carries-Runs socket lib takes grow id ptr base start r)

  Carries-IsIntact :
      {run : Running S T W} {head : ℕ} {posted : List Posted} {put got : List ℕ}
      → Carries socket lib takes grow id ptr base start run head posted put got
      → IsIntact id base run posted put got
  Carries-IsIntact begins_empty = (
    opened.ws,
    opened.stream,
    opened.found,
    opened.is_plain,
    sym (
        append-nil (stream start.mem.bytes opened.stream.inner.buf_vec)
        ∙ ap (stream start.mem.bytes) opened.unread),
  )
  Carries-IsIntact
        (fills_with {run} {head} {posted} {put} {got} ring buf data_len bytes r there ne found fits
          writes) =
      let (c, f, posted_eq, head_eq) = follows r in
      fill-IsIntact run posted put got c ring buf data_len bytes f posted_eq (Carries-IsIntact r)
        there (λ e. ne (sym head_eq ∙ e)) (ap (λ h. get_elem? ring (h % 1024)) head_eq ∙ found) fits
        writes
  Carries-IsIntact (moves_on ring r) = Carries-IsIntact r
  Carries-IsIntact (receives_next {run} {head} {p} {rest} {put} {got} run' cqe r a handled) =
      let (c, f, posted_eq, _) = follows r in
      recv-IsIntact socket lib takes grow reader id base run run' c p rest put got cqe
        (handle_cqe-Handled lib grow (some cqe) run run' handled) f posted_eq (Carries-IsIntact r) a
  Carries-IsIntact (sends_done {run} {head} {posted} {put} {got} run' cqe r owner event handled) =
      let (c, f, _, _) = follows r in
      send-IsIntact socket lib takes grow reader id base run run' c posted put got cqe
        (handle_cqe-Handled lib grow (some cqe) run run' handled) f (Carries-IsIntact r) owner event
  Carries-IsIntact
        (writes_one {run} {head} {posted} {put} {got} ws s s' msg_waitall data_ptr buf ring' n
          handlers r found is_plain wrote) =
      let (c, f, _, _) = follows r in
      write-IsIntact socket lib takes grow reader id base run c posted put got ws s s' msg_waitall
        data_ptr buf ring' n handlers f (Carries-IsIntact r) found is_plain wrote

  -- In every run of the program and the kernel over a stream, from its opening on and with a websocket
  -- library that only reads from it, no byte is lost, doubled or out of order: the bytes that the
  -- kernel has put in buffers are those that the library has read, then those that wait in the
  -- stream's readers, then those in filled buffers whose completions wait.
  pub received_in_order :
      (run : Running S T W) (head : ℕ) (posted : List Posted) (put got : List ℕ)
      → Carries socket lib takes grow id ptr base start run head posted put got
      → (ws : WebSocket S T W) × (s : TcpStream S) × (get_elem? run.streams id ≡ some ws)
        × (ws.stream ≡ plain s)
        × (put ≡ got ++ (stream run.mem.bytes s.inner.buf_vec ++ arrived run.mem.bytes base posted))
  received_in_order run head posted put got r = Carries-IsIntact r
