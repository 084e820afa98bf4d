-- ===== src/Net.antt =====
-- src/net.rs: a TCP stream whose reads and writes go through the ring once it is nonblocking.
-- The socket underneath (`std::net::TcpStream`) is a parameter: its state `S` and what it does.
pub mod Pending
pub mod Write
pub mod Complete
pub mod Reads
pub mod Taken
pub mod Ask
pub mod Room
pub mod Outbound
pub mod Todo
use uring_ws.Base.{
  ℕ, ◌+◌, ◌-◌, ◌^◌, bit_and, bit_or, u32, ltb, ◌==◌, if◌then◌else◌, not, Bool, false, Option, some,
  none, List, [], ◌∷◌, length, Result, ok, check, or_panic, ◌>>=◌, ◌>>◌, unwrap_failed, Io, done,
  fail, would_block,
}
use uring_ws.UserData
use uring_ws.UserData.{Event, from_parts, event_of, owner_of, req_of, event_from_u8, ring_pool_size}
use uring_ws.Memory.{Memory}
use uring_ws.Sqe.{io_uring_sqe_set_data}
use uring_ws.Ring.{IoUring, prep_send, modify_sqe}
use uring_ws.Cqe.{Completion, cqe_f_buffer, take_kernel_buf, drop_completion}
use uring_ws.ReadBuf.{KernelBufferVecReader, new_vec_reader}
use uring_ws.ReadBuf

-- `HashMap<UserData, Vec<u8>>`
abbrev pub PendingSent : Type 0
PendingSent = List (ℕ × List ℕ)

-- The value under a key, and the map without it.
unfoldable pub remove : ℕ → PendingSent → Option (List ℕ × PendingSent)
remove k [] = none
remove k ((j, v) ∷ m) =
    if j == k
    then some (v, m)
    else elim (remove k m) [ none ↦ none | some (w, rest) ↦ some (w, (j, v) ∷ rest) ]

-- A value that stands under the key is replaced, and so dropped.
unfoldable pub insert : ℕ → List ℕ → PendingSent → PendingSent
insert k v [] = (k, v) ∷ []
insert k v ((j, w) ∷ m) = if j == k then (k, v) ∷ m else (j, w) ∷ insert k v m

pub record TcpStream (S : Type 0) : Type 0 where
  pub inner : KernelBufferVecReader
  pub owner_id : ℕ
  pub multishort_recv_id : ℕ
  pub send_id : ℕ
  pub pending_sent : PendingSent
  pub raw : S
  pub nonblocking : Bool

-- The operations of the socket that the stream calls.
pub record Socket (S : Type 0) : Type 0 where
  pub read : S → ℕ → Io (List ℕ) × S
  pub write : S → List ℕ → Io ℕ × S
  pub write_vectored : S → List (List ℕ) → Io ℕ × S
  pub flush : S → Io (Unit {0}) × S
  pub set_nonblocking : S → Bool → Io (Unit {0})
  pub set_nodelay : S → Bool → Io (Unit {0})
  pub as_raw_fd : S → ℕ

unfoldable pub new_from_std :
    {S : Type 0} → (with_capacity : ℕ → ℕ) → S → (owner_id recv_id : ℕ) → TcpStream S
new_from_std with_capacity raw owner_id recv_id = record {
  inner = new_vec_reader with_capacity ring_pool_size;
  owner_id = owner_id;
  multishort_recv_id = recv_id;
  send_id = 1000;
  pending_sent = [];
  raw = raw;
  nonblocking = false;
}

-- `x as usize` of an i32 by its bit pattern: the sign is extended.
abbrev pub as_usize : ℕ → ℕ
as_usize x = if ltb x (2 ^ 31) then x else x + (2 ^ 64 - 2 ^ 32)

module _ {S : Type 0} where
  unfoldable pub complete_send : Completion → TcpStream S → Result (TcpStream S × Completion)
  complete_send completion stream = do
    check (not (completion.cqe.res == 0))
    (pending, rest) ← or_panic unwrap_failed (remove completion.user_data stream.pending_sent)
    check (length pending == as_usize completion.cqe.res)
    ok (record stream { pending_sent = rest }, completion)

  unfoldable pub complete_recv :
      (grow : ℕ → ℕ) → Completion → TcpStream S → Result (TcpStream S × Completion)
  complete_recv grow completion stream = do
    check (req_of completion.user_data == stream.multishort_recv_id)
    check (req_of completion.user_data == stream.multishort_recv_id)
    check (not (completion.cqe.res == 0))
    check (not (bit_and completion.cqe.flags cqe_f_buffer == 0))
    let (kernel_buf, taken) = take_kernel_buf completion
    read_buf ← or_panic unwrap_failed kernel_buf
    inner ← ReadBuf.push grow read_buf stream.inner
    ok (record stream { inner = inner }, taken)

  unfoldable pub complete_event :
      (grow : ℕ → ℕ) → Completion → TcpStream S → Event → Result (TcpStream S × Completion)
  unfolding complete_send complete_recv
  complete_event grow completion stream Event.send = complete_send completion stream
  complete_event grow completion stream Event.multishort_recv = complete_recv grow completion stream

  -- The completion is dropped at the end, which panics if a buffer is left in it.
  unfoldable pub on_completion : (grow : ℕ → ℕ) → Completion → TcpStream S → Result (TcpStream S)
  unfolding complete_event
  on_completion grow completion stream = do
    check (owner_of completion.user_data == stream.owner_id)
    event ← event_from_u8 (event_of completion.user_data)
    (stream', left) ← complete_event grow completion stream event
    drop_completion left
    ok stream'

  unfoldable pub next_send_id : TcpStream S → ℕ × TcpStream S
  next_send_id stream = (stream.send_id, record stream { send_id = u32 (stream.send_id + 1) })

  module _ (socket : Socket S) where
    unfoldable pub as_raw_fd : TcpStream S → ℕ
    as_raw_fd stream = socket.as_raw_fd stream.raw

    unfoldable pub set_nonblocking : Bool → TcpStream S → Io (Unit {0}) × TcpStream S
    set_nonblocking v stream = elim (socket.set_nonblocking stream.raw v) [
      | done _ ↦ (done tt, record stream { nonblocking = v })
      | fail e ↦ (fail e, stream)
    ]

    unfoldable pub set_nodelay : Bool → TcpStream S → Io (Unit {0})
    set_nodelay v stream = socket.set_nodelay stream.raw v

    unfoldable pub read : Memory → ℕ → TcpStream S → Result (TcpStream S × Memory × Io (List ℕ))
    read mem room stream =
        if not stream.nonblocking
        then (let (got, raw) = socket.read stream.raw room in
            ok (record stream { raw = raw }, mem, got))
        else (do
          (inner, mem', out) ← ReadBuf.read mem stream.inner room
          ok (
            record stream { inner = inner },
            mem',
            if length out == 0 then fail would_block else done out,
          ))

    -- `data_ptr` is where the allocator has put the copy, and `msg_waitall` is libc's constant.
    unfoldable pub write_nonblocking :
        (msg_waitall data_ptr : ℕ)
        → List ℕ
        → IoUring
        → TcpStream S
        → Result (TcpStream S × IoUring × Io ℕ)
    unfolding as_raw_fd next_send_id
    write_nonblocking msg_waitall data_ptr buf ring stream = do
      check (ltb 0 (length buf))
      let data_len = length buf
      (ring', sqe) ← prep_send (as_raw_fd stream) data_ptr data_len (bit_or 0 msg_waitall) ring
      let (id, stream') = next_send_id stream
      let user_data = from_parts (UserData.event_code Event.send) stream.owner_id id
      ring'' ← modify_sqe (λ e. ok (io_uring_sqe_set_data user_data e)) sqe ring'
      ok (
        record stream' { pending_sent = insert user_data buf stream'.pending_sent },
        ring'',
        done data_len,
      )

    unfoldable pub write :
        (msg_waitall data_ptr : ℕ)
        → List ℕ
        → IoUring
        → TcpStream S
        → Result (TcpStream S × IoUring × Io ℕ)
    unfolding write_nonblocking
    write msg_waitall data_ptr buf ring stream =
        if not stream.nonblocking
        then (let (n, raw) = socket.write stream.raw buf in
            ok (record stream { raw = raw }, ring, n))
        else write_nonblocking msg_waitall data_ptr buf ring stream

    unfoldable pub write_vectored : List (List ℕ) → TcpStream S → Result (TcpStream S × Io ℕ)
    write_vectored bufs stream = do
      check (not stream.nonblocking)
      let (n, raw) = socket.write_vectored stream.raw bufs
      ok (record stream { raw = raw }, n)

    unfoldable pub flush : TcpStream S → TcpStream S × Io (Unit {0})
    flush stream =
        if not stream.nonblocking
        then (let (r, raw) = socket.flush stream.raw in (record stream { raw = raw }, r))
        else (stream, done tt)
