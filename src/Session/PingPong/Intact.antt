-- ===== src/Session/PingPong/Intact.antt =====
-- src/ping_pong.rs with the whole crate below it: what becomes of the bytes that the kernel puts in a
-- stream's buffers.
pub mod Handling
pub mod Order
pub mod Batch
use uring_ws.Base.{
  ℕ, true, ◌+◌, ◌-◌, ◌*◌, ◌≡◌, ◌≢◌, ◌≤◌, ◌%◌, refl, sym, ◌∙◌, ap, ap₂, subst, arith, some, Option,
  List, [], ◌∷◌, ◌++◌, append-nil, append_assoc, get_elem?, set, get_elem?-set_self,
  lt_length_of_get_elem?, ok, Io,
}
use uring_ws.UserData.{owner_of, event_of}
use uring_ws.Memory.{Memory, IoBuf, BufRing}
use uring_ws.BufRing.{tail_of}
use uring_ws.BufRing.Cycle.{Posted, Cycle, All}
use uring_ws.BufRing.Cycle.Apart.{head-Fillable}
use uring_ws.Ring.{IoUring}
use uring_ws.Cqe.{Cqe}
use uring_ws.ReadBuf.{slice}
use uring_ws.ReadBuf.Reader.{IsReadable}
use uring_ws.ReadBuf.Stream.{stream}
use uring_ws.ReadBuf.Untouched.{
  Writes, arrived, arrived-append, stream-append, arrived_untouched, stream_untouched,
}
use uring_ws.Net.{TcpStream, Socket, write}
use uring_ws.Net.Taken.{Takes-in_order}
use uring_ws.Net.Write.{write_nonblocking_stream}
use uring_ws.Session.{WebSocket, Tungstenite, Running, plain}
use uring_ws.Session.PingPong.Loop.{Handled, handle_cqe-Handled}
use uring_ws.Session.PingPong.Buffers.{IsReader, Follows, Announces, plain_unique, Handled-found}
use uring_ws.Session.PingPong.Follow.{recv-Received, send-Sent}
use uring_ws.Session.PingPong.Runs.{Opened}
use uring_ws.Session.PingPong.Carried.{
  IsReaderOf, IsReaderOf-IsReader, Carries, begins_empty, fills_with, moves_on, receives_next,
  sends_done, writes_one, Carries-Runs,
}
use uring_ws.Session.PingPong.Arrival.{Runs-follows}

-- The bytes that wait for the library: those in the readers, then those in buffers whose completions
-- wait.
abbrev pub waiting : {S : Type 0} → (ℕ → ℕ) → ℕ → TcpStream S → List Posted → List ℕ
waiting bytes base s posted = stream bytes s.inner.buf_vec ++ arrived bytes base posted

-- The stream of owner `id`, where all bytes put in buffers are read or wait.
abbrev pub IsIntact :
    {S T W : Type 0} → (id base : ℕ) → Running S T W → List Posted → (put got : List ℕ) → Type 0
IsIntact {S} {T} {W} id base run posted put got =
    (ws : WebSocket S T W) × (s : TcpStream S) × (get_elem? run.streams id ≡ some ws)
    × (ws.stream ≡ plain s)
    × (put ≡ got ++ waiting run.mem.bytes base s posted)

-- The stream that a cycle follows is the one.
pub at_stream :
    {S T W : Type 0} (id base : ℕ) (run : Running S T W) (posted : List Posted) (put got : List ℕ)
    (ws : WebSocket S T W) (s : TcpStream S)
    → IsIntact id base run posted put got
    → get_elem? run.streams id ≡ some ws
    → ws.stream ≡ plain s
    → put ≡ got ++ waiting run.mem.bytes base s posted
at_stream id base run posted put got ws s (ws0, s0, found0, plain0, whole) found is_plain =
    whole
    ∙ ap (λ s. got ++ waiting run.mem.bytes base s posted)
        (plain_unique run.streams id ws0 ws s0 s found0 found plain0 is_plain)

module _ {S T W : Type 0} {id ptr base : ℕ} where
  pub fill-IsIntact :
      (run : Running S T W) (posted : List Posted) (put got : List ℕ) (c : Cycle) (ring : BufRing)
      (buf : IoBuf) (data_len : ℕ) (bytes : ℕ → ℕ)
      → (f : Follows id ptr base run c) → c.posted ≡ posted
      → IsIntact id base run posted put got
      → run.mem.rings ptr ≡ some ring
      → c.head ≢ tail_of ring
      → get_elem? ring (c.head % 1024) ≡ some buf
      → data_len ≤ buf.len
      → Writes buf.addr data_len run.mem.bytes bytes
      → IsIntact id base
          (record run { mem = record (run.mem) { bytes = bytes } })
          (posted ++ (record { bid = buf.bid; data_len = data_len } ∷ []))
          (put ++ slice bytes buf.addr data_len)
          got
  fill-IsIntact run posted put got c ring buf data_len bytes f posted_eq intact there ne found fits
        writes =
      let free =
        head-Fillable c ring buf f.entry f.sound (ap (λ m. m.rings ptr) f.in_step.same_mem ∙ there)
          ne found in
      let small : data_len ≤ 1500 = omega (arith, fits, free.len_lem) in
      let writes' : Writes (base + buf.bid * 1500) data_len run.mem.bytes bytes =
        subst (λ a. Writes a data_len run.mem.bytes bytes) free.addr_lem writes in
      let st = stream bytes f.stream.inner.buf_vec in
      let ar = arrived bytes base posted in
      let new = slice bytes buf.addr data_len in
      let st_same : st ≡ stream run.mem.bytes f.stream.inner.buf_vec =
        stream_untouched base buf.bid data_len run.mem.bytes bytes small writes' ptr
          f.stream.inner.buf_vec c.lent f.in_step.same_bufs f.in_step.readable f.sound.lent_sound
          free.not_lent in
      let ar_same : ar ≡ arrived run.mem.bytes base posted =
        arrived_untouched base buf.bid data_len run.mem.bytes bytes small writes' posted
          (subst (All _) posted_eq free.not_posted)
          (subst (All _) posted_eq f.sound.posted_sound) in
      let last : arrived bytes base (posted ++ (record { bid = buf.bid; data_len = data_len } ∷ []))
          ≡ ar ++ new =
        arrived-append bytes base posted (record { bid = buf.bid; data_len = data_len } ∷ [])
        ∙ ap (◌++◌ ar) (
            append-nil (slice bytes (base + buf.bid * 1500) data_len)
            ∙ ap (λ a. slice bytes a data_len) (sym free.addr_lem)) in
      (
        f.ws,
        f.stream,
        f.found,
        f.is_plain,
        ap (λ l. l ++ new)
              (at_stream id base run posted put got f.ws f.stream intact f.found f.is_plain
                ∙ ap₂ (λ a b. got ++ (a ++ b)) (sym st_same) (sym ar_same))
            ∙ append_assoc got (st ++ ar) new
            ∙ ap (◌++◌ got) (append_assoc st ar new)
            ∙ ap (λ l. got ++ (st ++ l)) (sym last),
      )
