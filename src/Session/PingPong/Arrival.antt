-- ===== src/Session/PingPong/Arrival.antt =====
-- src/ping_pong.rs with the whole crate below it: what holds of the buffers in every run of the program.
use uring_ws.Base.{
  map, ℕ, ◌<◌, ◌≡◌, ◌≢◌, ◌≤◌, ◌∙◌, ap, subst, some, List, ◌∷◌, ◌++◌, get_elem?, length, ok,
}
use uring_ws.BufRing.{KernelBuffer}
use uring_ws.BufRing.Cycle.{Posted, outstanding}
use uring_ws.BufRing.Cycle.Ownership.{sound_once, sound_few}
use uring_ws.Cqe.{Cqe, from_raw_event}
use uring_ws.ReadBuf.Effect.{bufs}
use uring_ws.Net.{TcpStream, Socket}
use uring_ws.Session.{WebSocket, Tungstenite, Running, plain}
use uring_ws.Session.PingPong.Receive.{lent}
use uring_ws.Session.PingPong.Buffers.{IsReader, Announces, announced}
use uring_ws.Session.PingPong.Follow.{handle_recv-Follows, handle_send-Follows}
use uring_ws.Session.PingPong.Runs.{
  Opened, Runs, begins, fills, moves, receives, sends, writes, Followed, Opened-follows,
  fill_follows, write_follows,
}

-- The ids of the buffers in the readers, then of those whose completions wait.
abbrev pub ids_of : List KernelBuffer → List Posted → List ℕ
ids_of held posted = map (λ kb. kb.bid) held ++ map (λ p. p.bid) posted

module _ {S T W : Type 0} (socket : Socket S) (lib : Tungstenite S T W) (grow : ℕ → ℕ)
    (id ptr base : ℕ) (start : Running S T W) (is_reader : IsReader socket lib)
    (opened : Opened id ptr base start) where
  -- Every state of a run follows a cycle of the group.
  pub Runs-follows :
      {run : Running S T W} {head : ℕ} {posted : List Posted}
      → Runs socket lib grow id ptr base start run head posted
      → Followed socket lib grow id ptr base start run head posted
  Runs-follows begins = Opened-follows socket lib grow id ptr base start opened
  Runs-follows (fills ring buf data_len bytes r there ne found fits) =
      fill_follows socket lib grow id ptr base start _ _ _ ring buf data_len bytes (Runs-follows r)
        there ne found fits
  Runs-follows (moves ring r) =
      let (c, f, posted_eq, head_eq) = Runs-follows r in
      (
        c,
        record {
          entry = f.entry;
          sound = f.sound;
          ws = f.ws;
          stream = f.stream;
          found = f.found;
          is_plain = f.is_plain;
          in_step = f.in_step;
          owner = f.owner;
        },
        posted_eq,
        head_eq,
      )
  Runs-follows (receives {p = p} {rest = rest} run' cqe r announces handled) =
      let (c, f, posted_eq, head_eq) = Runs-follows r in
      let (d, _, f', posted', head') =
        handle_recv-Follows socket lib grow is_reader _ run' c p rest cqe f posted_eq announces
          handled in
      (d, f', posted', head' ∙ head_eq)
  Runs-follows (sends run' cqe r owner event handled) =
      let (c, f, posted_eq, head_eq) = Runs-follows r in
      let (d, _, f', posted', head') =
        handle_send-Follows socket lib grow is_reader _ run' c cqe f owner event handled in
      (d, f', posted' ∙ posted_eq, head' ∙ head_eq)
  Runs-follows
        (writes ws stream stream' msg_waitall data_ptr buf ring' n handlers r found is_plain
          wrote) =
      write_follows socket lib grow id ptr base start _ _ _ ws stream stream' msg_waitall data_ptr
        buf ring' n handlers (Runs-follows r) found is_plain wrote

  -- In every run of the program and the kernel over a stream, from its opening on and with a websocket
  -- library that only reads from it, the completion of the oldest filled buffer is accepted
  -- with that very buffer, whatever has been received, read, written or given back before.
  pub arrival_accepted :
      (run : Running S T W) (head : ℕ) (p : Posted) (rest : List Posted) (cqe : Cqe)
      → Runs socket lib grow id ptr base start run head (p ∷ rest)
      → Announces id p cqe
      → from_raw_event run.pool run.mem (some cqe)
        ≡ ok (record {
          cqe = cqe;
          kernel_buf = some (lent base ptr p.bid cqe);
          user_data = cqe.user_data;
        })
  arrival_accepted run head p rest cqe r announces =
      let (c, f, posted_eq, _) = Runs-follows r in
      announced socket lib grow is_reader run c p rest cqe f posted_eq announces

  -- In every such run no buffer is with the program twice: the buffers that the stream's readers hold and
  -- those of the completions that wait have different ids, and are 1024 at most.
  pub buffers_held_once :
      (run : Running S T W) (head : ℕ) (posted : List Posted)
      → Runs socket lib grow id ptr base start run head posted
      → (ws : WebSocket S T W) × (stream : TcpStream S) × (held : List KernelBuffer) × (get_elem?
            run.streams id
          ≡ some ws)
        × (ws.stream ≡ plain stream)
        × (bufs stream.inner.buf_vec ≡ map some held)
        × (length (ids_of held posted) ≤ 1024)
        × ((i j : ℕ)
            → i < j
            → j < length (ids_of held posted)
            → get_elem? (ids_of held posted) i ≢ get_elem? (ids_of held posted) j)
  buffers_held_once run head posted r =
      let (c, f, posted_eq, _) = Runs-follows r in
      let same : outstanding c ≡ ids_of c.lent posted = ap (ids_of c.lent) posted_eq in
      (
        f.ws,
        f.stream,
        c.lent,
        f.found,
        f.is_plain,
        f.in_step.same_bufs,
        subst (λ l. length l ≤ 1024) same (sound_few c f.sound),
        subst (λ l. (i j : ℕ) → i < j → j < length l → get_elem? l i ≢ get_elem? l j) same
            (sound_once c f.sound),
      )
