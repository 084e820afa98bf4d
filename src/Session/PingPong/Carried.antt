-- ===== src/Session/PingPong/Carried.antt =====
-- src/ping_pong.rs with the whole crate below it: the runs of the program and the kernel over one stream,
-- with the bytes that the kernel has put in buffers and those that the websocket library has read.
use uring_ws.Base.{
  ℕ, ◌+◌, ◌≡◌, ◌≢◌, ◌≤◌, ◌%◌, some, List, [], ◌∷◌, ◌++◌, get_elem?, set, u16, ok, Io,
}
use uring_ws.UserData.{owner_of, event_of}
use uring_ws.Memory.{Memory, IoBuf, BufRing}
use uring_ws.BufRing.{tail_of}
use uring_ws.BufRing.Cycle.{Posted}
use uring_ws.Ring.{IoUring}
use uring_ws.Cqe.{Cqe}
use uring_ws.ReadBuf.{slice}
use uring_ws.ReadBuf.Untouched.{Writes}
use uring_ws.Net.{TcpStream, Socket, write}
use uring_ws.Net.Taken.{Takes, Takes-Reads}
use uring_ws.Session.{WebSocket, FrameRead, Tungstenite, Running, plain}
use uring_ws.Session.PingPong.{handle_cqe}
use uring_ws.Session.PingPong.Loop.{handle_cqe-Handled}
use uring_ws.Session.PingPong.Buffers.{IsReader, Announces}
use uring_ws.Session.PingPong.Runs.{Runs, begins, fills, moves, receives, sends, writes}

module _ {S T W : Type 0} (socket : Socket S) (lib : Tungstenite S T W)
    (takes : W → TcpStream S → Memory → List ℕ) where
  -- `read_message_frame` of tungstenite takes a `Read`: it does nothing to the stream but read from it,
  -- and `takes` are the bytes that these reads give it.
  abbrev pub IsReaderOf : Type 0
  IsReaderOf =
      (h : W) (s : TcpStream S) (m : Memory) (msg : FrameRead) (h' : W) (s' : TcpStream S)
      (m' : Memory)
      → lib.read_message_frame h s m ≡ ok (msg, h', s', m')
      → Takes socket s m s' m' (takes h s m)

  pub IsReaderOf-IsReader : IsReaderOf → IsReader socket lib
  IsReaderOf-IsReader reader h s m msg h' s' m' e = Takes-Reads socket (reader h s m msg h' s' m' e)

  module _ (grow : ℕ → ℕ) (id ptr base : ℕ) (start : Running S T W) where
    -- The bytes that the library reads while a completion is handled.
    abbrev pub taken :
        (run run' : Running S T W) (cqe : Cqe)
        → handle_cqe lib grow (some cqe) run ≡ ok run'
        → List ℕ
    taken run run' cqe handled =
        let h = handle_cqe-Handled lib grow (some cqe) run run' handled in
        takes h.handler h.completed run.mem

    -- As `Runs`, but the kernel writes only what it fills a buffer with, and two lists tell the bytes:
    -- first all that the kernel has put in buffers, then all that the library has read.
    pub data Carries : Running S T W → ℕ → List Posted → List ℕ → List ℕ → Type 0 where
      begins_empty : Carries start 0 [] [] []
      fills_with :
          {run : Running S T W} {head : ℕ} {posted : List Posted} {put got : List ℕ}
          (ring : BufRing) (buf : IoBuf) (data_len : ℕ) (bytes : ℕ → ℕ)
          → Carries run head posted put got
          → run.mem.rings ptr ≡ some ring
          → head ≢ tail_of ring
          → get_elem? ring (head % 1024) ≡ some buf
          → data_len ≤ buf.len
          → Writes buf.addr data_len run.mem.bytes bytes
          → Carries
              (record run { mem = record (run.mem) { bytes = bytes } })
              (u16 (head + 1))
              (posted ++ (record { bid = buf.bid; data_len = data_len } ∷ []))
              (put ++ slice bytes buf.addr data_len)
              got
      moves_on :
          {run : Running S T W} {head : ℕ} {posted : List Posted} {put got : List ℕ}
          (ring : IoUring)
          → Carries run head posted put got
          → Carries (record run { ring = ring }) head posted put got
      receives_next :
          {run : Running S T W} {head : ℕ} {p : Posted} {rest : List Posted} {put got : List ℕ}
          (run' : Running S T W) (cqe : Cqe)
          → Carries run head (p ∷ rest) put got
          → Announces id p cqe
          → (handled : handle_cqe lib grow (some cqe) run ≡ ok run')
          → Carries run' head rest put (got ++ taken run run' cqe handled)
      sends_done :
          {run : Running S T W} {head : ℕ} {posted : List Posted} {put got : List ℕ}
          (run' : Running S T W) (cqe : Cqe)
          → Carries run head posted put got
          → owner_of cqe.user_data ≡ id
          → event_of cqe.user_data ≡ 0
          → (handled : handle_cqe lib grow (some cqe) run ≡ ok run')
          → Carries run' head posted put (got ++ taken run run' cqe handled)
      writes_one :
          {run : Running S T W} {head : ℕ} {posted : List Posted} {put got : List ℕ}
          (ws : WebSocket S T W) (stream stream' : TcpStream S) (msg_waitall data_ptr : ℕ)
          (buf : List ℕ) (ring' : IoUring) (n : Io ℕ) (handlers : List W)
          → Carries run head posted put got
          → get_elem? run.streams id ≡ some ws
          → ws.stream ≡ plain stream
          → write socket msg_waitall data_ptr buf run.ring stream ≡ ok (stream', ring', n)
          → Carries
              (record run {
                ring = ring';
                streams = set run.streams id (record ws { stream = plain stream' });
                handlers = handlers;
              })
              head
              posted
              put
              got

    pub Carries-Runs :
        {run : Running S T W} {head : ℕ} {posted : List Posted} {put got : List ℕ}
        → Carries run head posted put got
        → Runs socket lib grow id ptr base start run head posted
    Carries-Runs begins_empty = begins
    Carries-Runs (fills_with ring buf data_len bytes r there ne found fits _) =
        fills ring buf data_len bytes (Carries-Runs r) there ne found fits
    Carries-Runs (moves_on ring r) = moves ring (Carries-Runs r)
    Carries-Runs (receives_next run' cqe r announces handled) =
        receives run' cqe (Carries-Runs r) announces handled
    Carries-Runs (sends_done run' cqe r owner event handled) =
        sends run' cqe (Carries-Runs r) owner event handled
    Carries-Runs
          (writes_one ws stream stream' msg_waitall data_ptr buf ring' n handlers r found is_plain
            wrote) =
        writes ws stream stream' msg_waitall data_ptr buf ring' n handlers (Carries-Runs r) found
          is_plain wrote
