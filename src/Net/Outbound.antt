-- ===== src/Net/Outbound.antt =====
-- src/net.rs with src/ring.rs and src/cqe.rs: a nonblocking stream and its submission queue over any
-- interleaving of writes, of the kernel taking entries, of completions of sends in any order, and of
-- what comes in.
pub mod Held
pub mod Kept
pub mod Order
use uring_ws.Base.{
  ℕ, zero, suc, ◌+◌, ◌≤◌, ◌≡◌, ◌⊎◌, Option, some, List, [], ◌∷◌, ◌++◌, take, length, map, u32, ok,
  Io,
}
use uring_ws.UserData.{event_of, owner_of, from_parts}
use uring_ws.Memory.{Memory}
use uring_ws.BufRing.Cycle.{All}
use uring_ws.Sqe.{Sqe, op_send}
use uring_ws.Ring.{IoUring}
use uring_ws.Ring.Slots.{in_flight, IsValid}
use uring_ws.Ring.Queue.{queued, consumed}
use uring_ws.Cqe.{Completion}
use uring_ws.Net.{TcpStream, Socket, PendingSent, remove, read, write, on_completion}
use uring_ws.Net.Write.{next_key, IsTracked}

module _ {S : Type 0} (socket : Socket S) (grow : ℕ → ℕ) (msg_waitall : ℕ) (ring0 : IoUring)
    (s0 : TcpStream S) where
  -- The messages that have been written, each with its key, the keys whose completions have been handled,
  -- and the entries that the kernel has taken.
  pub data Outbound
      : IoUring → TcpStream S → (log : PendingSent) → (completed : List ℕ) → List Sqe → Type 0 where
    begins : Outbound ring0 s0 [] [] []
    writes :
        {ring : IoUring} {s : TcpStream S} {log : PendingSent} {completed : List ℕ}
        {seen : List Sqe} (data_ptr : ℕ) (buf : List ℕ) (ring' : IoUring) (s' : TcpStream S)
        (n : Io ℕ)
        → Outbound ring s log completed seen
        → write socket msg_waitall data_ptr buf ring s ≡ ok (s', ring', n)
        → Outbound ring' s' (log ++ ((next_key s, buf) ∷ [])) completed seen
    consumes :
        {ring : IoUring} {s : TcpStream S} {log : PendingSent} {completed : List ℕ}
        {seen : List Sqe} (n : ℕ)
        → Outbound ring s log completed seen
        → n ≤ in_flight ring
        → Outbound (consumed n ring) s log completed (seen ++ take n (queued ring))
    completes :
        {ring : IoUring} {s : TcpStream S} {log : PendingSent} {completed : List ℕ}
        {seen : List Sqe} (c : Completion) (s' : TcpStream S)
        → Outbound ring s log completed seen
        → owner_of c.user_data ≡ s.owner_id
        → event_of c.user_data ≡ 0
        → on_completion grow c s ≡ ok s'
        → Outbound ring s' log (c.user_data ∷ completed) seen
    receives :
        {ring : IoUring} {s : TcpStream S} {log : PendingSent} {completed : List ℕ}
        {seen : List Sqe} (c : Completion) (s' : TcpStream S)
        → Outbound ring s log completed seen
        → owner_of c.user_data ≡ s.owner_id
        → event_of c.user_data ≡ 1
        → on_completion grow c s ≡ ok s'
        → Outbound ring s' log completed seen
    reads :
        {ring : IoUring} {s : TcpStream S} {log : PendingSent} {completed : List ℕ}
        {seen : List Sqe} (m m' : Memory) (room : ℕ) (s' : TcpStream S) (out : Io (List ℕ))
        → Outbound ring s log completed seen
        → read socket m room s ≡ ok (s', m', out)
        → Outbound ring s' log completed seen

module _ {S : Type 0} (socket : Socket S) (s0 : TcpStream S) where
  -- The entry of a message: a send on the stream's socket, of the message's length as a u32, under its
  -- key.
  pub record Submits (message : ℕ × List ℕ) (sqe : Sqe) : Type 0 where
    pub sends : sqe.opcode ≡ op_send
    pub plain_flags : sqe.flags ≡ 0
    pub on_socket : sqe.fd ≡ socket.as_raw_fd s0.raw
    pub of_length : sqe.len ≡ u32 (length (message.1))
    pub under_key : sqe.user_data ≡ message.0

  abbrev pub AllSubmit : PendingSent → List Sqe → Type 0
  AllSubmit [] [] = Unit
  AllSubmit [] (sqe ∷ sqes) = ⊥
  AllSubmit (message ∷ log) [] = ⊥
  AllSubmit (message ∷ log) (sqe ∷ sqes) = Submits message sqe × AllSubmit log sqes

abbrev pub Among : ℕ → List ℕ → Type 0
Among k [] = ⊥
Among k (j ∷ js) = (j ≡ k) ⊎ Among k js

-- A message whose completion has been handled, or whose bytes are still kept under its key.
abbrev pub Done : List ℕ → PendingSent → ℕ × List ℕ → Type 0
Done completed pending message =
    Among (message.0) completed
    ⊎ ((rest : PendingSent) × (remove (message.0) pending ≡ some (message.1, rest)))

-- The keys of `n` messages from an id on.
abbrev pub keys : (owner_id send_id n : ℕ) → List ℕ
keys owner_id send_id zero = []
keys owner_id send_id (suc n) = from_parts 0 owner_id send_id ∷ keys owner_id (u32 (send_id + 1)) n
