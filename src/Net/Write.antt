-- ===== src/Net/Write.antt =====
-- src/net.rs: a nonblocking write queues one submission and keeps its bytes until the completion.
use uring_ws.Base.{
  ℕ, ◌+◌, ◌%◌, ◌^◌, ◌<◌, ◌≡◌, arith, ◌==◌, ◌⊎◌, inl, inr, Bool-cases, true, List, [], ◌∷◌, ◌++◌,
  u32, length, bit_or, get_elem?-set_self, set-set, sym, ap, check, ltb, >>=-cases_ok, Io, ok,
  panic, unwrap_failed, assertion_failed, done,
}
use uring_ws.UserData.{from_parts, event_of, owner_of, event_code}
use uring_ws.UserData.Fields.{from_parts_as_sum, from_parts_fields}
use uring_ws.Sqe.{Sqe, io_uring_initialize_sqe, io_uring_sqe_set_data, send}
use uring_ws.Ring.{IoUring, modify_sqe, prep_send}
use uring_ws.Ring.Slots.{in_flight, IsValid, next_slot, next_slot-lt, appended, appended-IsValid}
use uring_ws.Ring.Queue.{queued, queued-appended, prep_send_room, prep_send_full}
use uring_ws.Net.{TcpStream, Socket, write, write_nonblocking, next_send_id, as_raw_fd, insert}
use uring_ws.Net.Pending.{Recent, Recent-next, Recent-append, Recent-fresh, insert_fresh}

-- The word that names the next message of a stream.
abbrev pub next_key : {S : Type 0} → TcpStream S → ℕ
next_key stream = from_parts 0 stream.owner_id stream.send_id

-- The stream after a write of `buf`.
abbrev pub after_write : {S : Type 0} → List ℕ → TcpStream S → TcpStream S
after_write buf stream = record stream {
  send_id = u32 (stream.send_id + 1);
  pending_sent = insert (from_parts 0 stream.owner_id stream.send_id) buf stream.pending_sent;
}

-- The entry that a write fills, over a slot that held `old`.
abbrev pub write_entry :
    {S : Type 0} → Socket S → (msg_waitall data_ptr : ℕ) → List ℕ → TcpStream S → Sqe → Sqe
write_entry socket msg_waitall data_ptr buf stream old =
    io_uring_sqe_set_data (from_parts 0 stream.owner_id stream.send_id) (
      send (socket.as_raw_fd stream.raw) data_ptr (u32 (length buf)) (bit_or 0 msg_waitall)
        (io_uring_initialize_sqe old))

set_data_appended :
    (ring : IoUring) (entry : Sqe) (user_data : ℕ)
    → IsValid ring
    → modify_sqe
        (λ e. ok (io_uring_sqe_set_data user_data e))
        (next_slot ring)
        (appended ring entry)
      ≡ ok (appended ring (io_uring_sqe_set_data user_data entry))
unfolding modify_sqe
set_data_appended ring entry user_data v = ground (
  arith,
  get_elem?-set_self ring.sqes (next_slot ring) entry,
  next_slot-lt v,
  set-set ring.sqes (next_slot ring) entry (io_uring_sqe_set_data user_data entry),
)

module _ {S : Type 0} (socket : Socket S) (msg_waitall data_ptr : ℕ) (buf : List ℕ) where
  -- A nonblocking write of a message, with room in the queue, appends one submission: a send of the
  -- copy's bytes under the next key. It reports the whole message as written, files the copy under
  -- that key and moves on to the next id.
  pub write_queues_message :
      (ring : IoUring) (stream : TcpStream S)
      → stream.nonblocking ≡ true
      → 0 < length buf
      → IsValid ring
      → in_flight ring < ring.ring_entries
      → (ring' : IoUring) × (old : Sqe) × (write socket msg_waitall data_ptr buf ring stream
          ≡ ok (after_write buf stream, ring', done (length buf)))
        × IsValid ring'
        × (queued ring'
            ≡ queued ring ++ (write_entry socket msg_waitall data_ptr buf stream old ∷ []))
  unfolding write event_code
  write_queues_message ring stream nb pos v room =
      let (old, sent) =
        prep_send_room (socket.as_raw_fd stream.raw) data_ptr (length buf) (bit_or 0 msg_waitall) v
          room in
      let entry =
        send (socket.as_raw_fd stream.raw) data_ptr (u32 (length buf)) (bit_or 0 msg_waitall)
          (io_uring_initialize_sqe old) in
      let new = write_entry socket msg_waitall data_ptr buf stream old in
      (
        appended ring new,
        old,
        ground (
          arith,
          nb,
          pos,
          sent,
          set_data_appended ring entry (from_parts 0 stream.owner_id stream.send_id) v,
        ),
        (appended-IsValid new v room).0,
        queued-appended new v room,
      )

  -- A nonblocking write panics on an empty message, and on a full submission queue.
  pub write_refused :
      (ring : IoUring) (stream : TcpStream S)
      → stream.nonblocking ≡ true
      → IsValid ring
      → (length buf ≡ 0) ⊎ (in_flight ring ≡ ring.ring_entries)
      → ((length buf ≡ 0)
          × (write socket msg_waitall data_ptr buf ring stream ≡ panic assertion_failed))
        ⊎ ((0 < length buf)
            × (write socket msg_waitall data_ptr buf ring stream ≡ panic unwrap_failed))
  unfolding write
  write_refused ring stream nb v why = elim (Bool-cases (length buf == 0)) [
    | inl empty ↦ inl (ground arith, ground (arith, nb))
    | inr some_bytes ↦
        let full : in_flight ring ≡ ring.ring_entries = ground arith in
        let stuck =
          prep_send_full (socket.as_raw_fd stream.raw) data_ptr (length buf) (bit_or 0 msg_waitall)
            v full in
        inr (ground arith, ground (arith, nb, stuck))
  ]

-- What a nonblocking write that returns has done to the stream.
pub write_nonblocking_stream :
    {S : Type 0} (socket : Socket S) (msg_waitall data_ptr : ℕ) (buf : List ℕ)
    (ring ring' : IoUring) (stream stream' : TcpStream S) (n : Io ℕ)
    → stream.nonblocking ≡ true
    → write socket msg_waitall data_ptr buf ring stream ≡ ok (stream', ring', n)
    → (0 < length buf) × (stream' ≡ after_write buf stream)
unfolding write write_nonblocking next_send_id event_code
write_nonblocking_stream socket msg_waitall data_ptr buf ring ring' stream stream' n nb e =
    let sent : write_nonblocking socket msg_waitall data_ptr buf ring stream
        ≡ ok (stream', ring', n) =
      ground (arith, nb, e) in
    >>=-cases_ok (check (ltb 0 (length buf))) _ sent λ _ some_bytes e1.
      >>=-cases_ok
        (prep_send (as_raw_fd socket stream) data_ptr (length buf) (bit_or 0 msg_waitall) ring) _ e1
        λ (slot : IoUring × ℕ) taken e2.
          >>=-cases_ok
            (modify_sqe
              (λ s. ok (io_uring_sqe_set_data (from_parts 0 stream.owner_id stream.send_id) s))
              slot.1 slot.0)
            _ e2
            λ ring'' filed e3. (
              ground (arith, some_bytes),
              ap (λ r. elim r [ ok x ↦ x.0 | panic p ↦ stream ]) (sym e3),
            )

-- A stream whose pending messages were all given their ids within the last `w` sends.
pub record IsTracked {S : Type 0} (w : ℕ) (stream : TcpStream S) : Type 0 where
  pub owner_word : stream.owner_id < 2 ^ 16
  pub id_word : stream.send_id < 2 ^ 32
  pub window : w < 2 ^ 32
  pub recent : Recent w stream.send_id stream.pending_sent

pub next_key_fields :
    {S : Type 0} (stream : TcpStream S)
    → stream.owner_id < 2 ^ 16
    → stream.send_id < 2 ^ 32
    → (event_of (next_key stream) ≡ 0)
      × (owner_of (next_key stream) ≡ stream.owner_id)
      × (next_key stream % 2 ^ 32 ≡ stream.send_id)
next_key_fields stream ho hs =
    let fields = from_parts_fields 0 stream.owner_id stream.send_id (omega arith) ho hs in
    let sum = from_parts_as_sum 0 stream.owner_id stream.send_id (omega arith) ho hs in
    (fields.0, fields.1, omega (arith, sum))

after_write-IsTracked :
    {S : Type 0} (w : ℕ) (buf : List ℕ) (stream : TcpStream S)
    → IsTracked w stream
    → w + 1 < 2 ^ 32
    → IsTracked (w + 1) (after_write buf stream)
      × ((after_write buf stream).pending_sent
          ≡ stream.pending_sent ++ ((next_key stream, buf) ∷ []))
after_write-IsTracked w buf stream t room =
    let (_, _, id) = next_key_fields stream t.owner_word t.id_word in
    let absent =
      Recent-fresh w stream.send_id (next_key stream) stream.pending_sent t.id_word t.window id
        t.recent in
    let grown = (insert_fresh (next_key stream) buf stream.pending_sent absent).0 in
    (
      record {
        owner_word = t.owner_word;
        id_word = omega arith;
        window = room;
        recent = rw grown (
            Recent-append (w + 1) (u32 (stream.send_id + 1)) (next_key stream) buf
              stream.pending_sent (omega (arith, id, t.id_word)) (omega (arith, id, t.id_word))
              (Recent-next w stream.send_id stream.pending_sent t.id_word room t.recent));
      },
      grown,
    )

-- While fewer than 2^32 - 1 sends separate the oldest pending message from the newest, a nonblocking write
-- of a tracked stream that returns adds its message, under the stream's next key, to the pending ones,
-- keeps every one of those with its bytes, and leaves the stream tracked.
pub write-IsTracked :
    {S : Type 0} (socket : Socket S) (msg_waitall data_ptr w : ℕ) (buf : List ℕ)
    (ring ring' : IoUring) (stream stream' : TcpStream S) (n : Io ℕ)
    → IsTracked w stream
    → w + 1 < 2 ^ 32
    → stream.nonblocking ≡ true
    → write socket msg_waitall data_ptr buf ring stream ≡ ok (stream', ring', n)
    → IsTracked (w + 1) stream'
      × (stream'.pending_sent ≡ stream.pending_sent ++ ((next_key stream, buf) ∷ []))
write-IsTracked socket msg_waitall data_ptr w buf ring ring' stream stream' n t room nb e =
    rw (write_nonblocking_stream socket msg_waitall data_ptr buf ring ring' stream stream' n nb e).1
      (after_write-IsTracked w buf stream t room)
