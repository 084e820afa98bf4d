-- ===== src/Net/Complete.antt =====
-- src/net.rs: what a completion does to the stream that owns it.
use uring_ws.Base.{
  ℕ, ◌%◌, ◌^◌, ◌≤◌, ◌<◌, ◌≡◌, ◌≢◌, ◌⊎◌, inl, inr, refl, arith, ◌==◌, ◌↔◌, Option-cases,
  Result-cases, Bool-cases, some, none, List, length, bit_and_mask, ok, panic, assertion_failed,
  Panic, Io, true,
}
use uring_ws.UserData.{event_of, owner_of, req_of, event_from_u8}
use uring_ws.Ring.{IoUring}
use uring_ws.BufRing.{KernelBuffer}
use uring_ws.Cqe.{Completion, take_kernel_buf, drop_completion}
use uring_ws.ReadBuf.{push}
use uring_ws.ReadBuf.Queue.{queued_behind, push_fitting, push_fitted}
use uring_ws.Net.{TcpStream, Socket, write, PendingSent, on_completion, remove, as_usize}
use uring_ws.Net.Pending.{Recent-fresh, insert_fresh}
use uring_ws.Net.Write.{next_key, next_key_fields, after_write, IsTracked, write_nonblocking_stream}

module _ {S : Type 0} (grow : ℕ → ℕ) where
  -- A completion that belongs to another stream, or whose word names no event, is a panic.
  pub on_completion_misdirected :
      (c : Completion) (stream : TcpStream S)
      → (owner_of c.user_data ≢ stream.owner_id) ⊎ (2 ≤ event_of c.user_data)
      → (on_completion grow c stream ≡ panic assertion_failed)
        ⊎ (on_completion grow c stream ≡ panic Panic.unknown_event)
  unfolding on_completion event_from_u8
  on_completion_misdirected c stream why =
      elim (Bool-cases (owner_of c.user_data == stream.owner_id)) [
        | inl same ↦ inr (ground arith)
        | inr other ↦ inl (ground arith)
      ]

  -- What makes the completion of a send acceptable.
  pub record SendAccepted (c : Completion) (stream stream' : TcpStream S) : Type 0 where
    pub message : List ℕ
    pub rest : PendingSent
    pub found : remove c.user_data stream.pending_sent ≡ some (message, rest)
    pub not_zero : c.cqe.res ≢ 0
    pub whole : length message ≡ as_usize c.cqe.res
    pub no_buffer : c.kernel_buf ≡ none
    pub result : stream' ≡ record stream { pending_sent = rest }

  accepts_send :
      (c : Completion) (stream stream' : TcpStream S)
      → owner_of c.user_data ≡ stream.owner_id
      → event_of c.user_data ≡ 0
      → SendAccepted c stream stream'
      → on_completion grow c stream ≡ ok stream'
  unfolding on_completion event_from_u8 drop_completion
  accepts_send c stream stream' owner event a =
      ground (arith, owner, event, a.found, a.not_zero, a.whole, a.no_buffer, a.result)

  accepted_send :
      (c : Completion) (stream stream' : TcpStream S)
      → owner_of c.user_data ≡ stream.owner_id
      → event_of c.user_data ≡ 0
      → on_completion grow c stream ≡ ok stream'
      → SendAccepted c stream stream'
  unfolding on_completion event_from_u8 drop_completion
  accepted_send c stream stream' owner event e =
      elim (Option-cases (remove c.user_data stream.pending_sent)) [
        | inl gone ↦ absurd (ground (arith, gone))
        | inr ((message, rest), found) ↦ record {
          message = message;
          rest = rest;
          found = found;
          not_zero = ground (arith, found);
          whole = ground (arith, found);
          no_buffer = ground (arith, found);
          result = ground (arith, found);
        }
      ]

  -- A send's completion is accepted exactly when a message is pending under its word, its result is that
  -- message's whole length and not zero, and no buffer comes with it; it then takes that message out of
  -- the pending ones and changes nothing else.
  pub on_completion_send :
      (c : Completion) (stream stream' : TcpStream S)
      → owner_of c.user_data ≡ stream.owner_id
      → event_of c.user_data ≡ 0
      → (on_completion grow c stream ≡ ok stream') ↔ SendAccepted c stream stream'
  on_completion_send c stream stream' owner event =
      (accepted_send c stream stream' owner event, accepts_send c stream stream' owner event)

  -- What makes the completion of a receive acceptable.
  pub record RecvAccepted (c : Completion) (stream stream' : TcpStream S) : Type 0 where
    pub kb : KernelBuffer
    pub held : c.kernel_buf ≡ some kb
    pub same_req : req_of c.user_data ≡ stream.multishort_recv_id
    pub not_zero : c.cqe.res ≢ 0
    pub flagged : c.cqe.flags % 2 ≡ 1
    pub fits :
        length (queued_behind grow kb stream.inner).buf_vec
        ≤ (queued_behind grow kb stream.inner).capacity
    pub result : stream' ≡ record stream { inner = queued_behind grow kb stream.inner }

  accepts_recv :
      (c : Completion) (stream stream' : TcpStream S)
      → owner_of c.user_data ≡ stream.owner_id
      → event_of c.user_data ≡ 1
      → RecvAccepted c stream stream'
      → on_completion grow c stream ≡ ok stream'
  unfolding on_completion event_from_u8 drop_completion take_kernel_buf
  accepts_recv c stream stream' owner event a = ground (
    arith,
    bit_and_mask 1 c.cqe.flags,
    owner,
    event,
    a.held,
    a.same_req,
    a.not_zero,
    a.flagged,
    push_fitting grow a.kb stream.inner a.fits,
    a.result,
  )

  accepted_recv :
      (c : Completion) (stream stream' : TcpStream S)
      → owner_of c.user_data ≡ stream.owner_id
      → event_of c.user_data ≡ 1
      → on_completion grow c stream ≡ ok stream'
      → RecvAccepted c stream stream'
  unfolding on_completion event_from_u8 drop_completion take_kernel_buf
  accepted_recv c stream stream' owner event e = elim (Option-cases c.kernel_buf) [
    | inl gone ↦ absurd (ground (arith, gone))
    | inr (kb, held) ↦ elim (Result-cases (push grow kb stream.inner)) [
      | inr (p, lost) ↦ absurd (ground (arith, held, lost))
      | inl (inner, pushed) ↦ record {
        kb = kb;
        held = held;
        same_req = ground (arith, held);
        not_zero = ground (arith, held);
        flagged = ground (arith, held, bit_and_mask 1 c.cqe.flags);
        fits = (push_fitted grow kb stream.inner inner pushed).0;
        result = ground (arith, held, pushed, (push_fitted grow kb stream.inner inner pushed).1);
      }
    ]
  ]

  -- A receive's completion is accepted exactly when it carries a buffer, as its flags say, with a result
  -- that is not zero, and names the stream's receive, and the deque of readers, grown if it was full,
  -- holds one more; the stream then has an unread reader of that buffer behind all its readers, in that
  -- deque, and nothing else of it changes.
  pub on_completion_recv :
      (c : Completion) (stream stream' : TcpStream S)
      → owner_of c.user_data ≡ stream.owner_id
      → event_of c.user_data ≡ 1
      → (on_completion grow c stream ≡ ok stream') ↔ RecvAccepted c stream stream'
  on_completion_recv c stream stream' owner event =
      (accepted_recv c stream stream' owner event, accepts_recv c stream stream' owner event)

  filed_then_complete :
      (w : ℕ) (buf : List ℕ) (flags : ℕ) (stream : TcpStream S)
      → IsTracked w stream
      → 0 < length buf
      → length buf < 2 ^ 31
      → on_completion grow
          (record {
            cqe = record { user_data = next_key stream; res = length buf; flags = flags };
            kernel_buf = none;
            user_data = next_key stream;
          })
          (after_write buf stream)
        ≡ ok (record (after_write buf stream) { pending_sent = stream.pending_sent })
  filed_then_complete w buf flags stream t pos small =
      let (event, owner, id) = next_key_fields stream t.owner_word t.id_word in
      let absent =
        Recent-fresh w stream.send_id (next_key stream) stream.pending_sent t.id_word t.window id
          t.recent in
      accepts_send _ (after_write buf stream) _ owner event (record {
        message = buf;
        rest = stream.pending_sent;
        found = (insert_fresh (next_key stream) buf stream.pending_sent absent).1;
        not_zero = omega arith;
        whole = ground arith;
        no_buffer = refl;
        result = refl;
      })

  -- A completed write leaves no trace: after a nonblocking write of a tracked stream has returned, the
  -- completion of that send, with the message's length as its result, brings back the pending messages
  -- as they were before the write.
  pub write_then_complete :
      (socket : Socket S) (msg_waitall data_ptr w : ℕ) (buf : List ℕ) (flags : ℕ)
      (ring ring' : IoUring) (stream stream' : TcpStream S) (n : Io ℕ)
      → IsTracked w stream
      → stream.nonblocking ≡ true
      → write socket msg_waitall data_ptr buf ring stream ≡ ok (stream', ring', n)
      → length buf < 2 ^ 31
      → on_completion grow
          (record {
            cqe = record { user_data = next_key stream; res = length buf; flags = flags };
            kernel_buf = none;
            user_data = next_key stream;
          })
          stream'
        ≡ ok (record stream' { pending_sent = stream.pending_sent })
  write_then_complete socket msg_waitall data_ptr w buf flags ring ring' stream stream' n t nb e
        small =
      let (pos, after) =
        write_nonblocking_stream socket msg_waitall data_ptr buf ring ring' stream stream' n nb e in
      rw after (filed_then_complete w buf flags stream t pos small)
