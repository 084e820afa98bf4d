-- ===== src/Example/Receive.antt =====
-- src/examples/io_uring_probe.rs, the loop: completions are taken, what is in their buffers is decrypted and
-- handed to the frame decoder, and the buffers are given back.
use uring_ws.Base.{
  ℕ, zero, suc, ◌+◌, ◌-◌, min, ◌==◌, ltb, if◌then◌else◌, not, true, false, Option, none, some, List,
  [], ◌∷◌, ◌++◌, length, drop, get_elem?, set, Result, ok, panic, check, or_panic, ◌>>=◌, ◌>>◌,
  ◌>>>◌, u16, abs_i32, unwrap_failed, unimplemented, todo, out_of_bounds, undefined, os_error,
}
use uring_ws.UserData.{buf_size, ring_pool_size}
use uring_ws.Memory.{IoBuf, deref, store}
use uring_ws.BufRing.{io_uring_buf_ring_add}
use uring_ws.Cqe.{Cqe, is_negative, cqe_buffer_shift}
use uring_ws.ReadBuf.{slice}
use uring_ws.Frames.{WebsocketHandler, Decoder, add_data}
use uring_ws.Session.{Kernel}
use uring_ws.Example.{plain, rustls, other, Library, Running}
use uring_ws.Example.Copies.{io_uring_cq_advance, io_uring_buf_ring_advance, io_uring_buf_ring_mask}

-- The bytes with a list written from `addr` on.
abbrev pub overwrite : (ℕ → ℕ) → ℕ → List ℕ → ℕ → ℕ
overwrite bytes addr [] = bytes
overwrite bytes addr (x ∷ xs) = λ p. if p == addr then x else overwrite bytes (addr + 1) xs p

-- What the loop over the plaintext works on; `received` is the buffer's part with data, which it reuses.
pub record Reading (C D : Type 0) : Type 0 where
  pub conn : C
  pub handler : WebsocketHandler D
  pub received : List ℕ
  pub remaining : ℕ
  pub strs : List (List ℕ)

-- `fuel` bounds the calls of the decoder in one `add_data`; a result is `none` when it or the rounds of a
-- loop are used up.
module _ {S C W D I : Type 0} (lib : Library S C W) (decoder : Decoder D I)
    (lossy : List ℕ → List ℕ) (fuel : ℕ) where
  -- One round of `while remaining > 0`.
  unfoldable pub read_part : Reading C D → Result (Option (Reading C D))
  read_part r = do
    let partial_data_len = min (length r.received) r.remaining
    (plaintext, conn) ← or_panic unwrap_failed (lib.tls.read_exact r.conn partial_data_len)
    added ← add_data decoder lossy fuel plaintext r.handler
    elim added [
      | none ↦ ok none
      | some (handler, strs, partial_buf) ↦ ok (
          some (record {
            conn = conn;
            handler = handler;
            received = partial_buf ++ drop partial_data_len r.received;
            remaining = r.remaining - partial_data_len;
            strs = r.strs ++ strs;
          }))
    ]

  -- The loop, with `rounds` to go.
  unfoldable pub read_plaintext : (rounds : ℕ) → Reading C D → Result (Option (Reading C D))
  unfolding read_part
  read_plaintext zero r = if r.remaining == 0 then ok (some r) else ok none
  read_plaintext (suc rounds) r = elim (r.remaining == 0) [
    | true ↦ ok (some r)
    | false ↦
        read_part r >>= λ next. elim next [ none ↦ ok none | some r' ↦ read_plaintext rounds r' ]
  ]

  -- From `read_tls` on; there are as many rounds as bytes of plaintext.
  unfoldable pub decrypt :
      List ℕ → C → WebsocketHandler D → (strs : List (List ℕ)) → Result (Option (Reading C D))
  unfolding read_plaintext
  decrypt received conn handler strs = do
    (ret, conn1) ← or_panic unwrap_failed (lib.tls.read_tls conn received)
    check (ltb 0 ret)
    (plaintext_bytes_to_read, peer_has_closed, conn2) ←
        or_panic unwrap_failed (lib.tls.process_new_packets conn1)
    check (not peer_has_closed)
    done ← read_plaintext plaintext_bytes_to_read (record {
      conn = conn2;
      handler = handler;
      received = received;
      remaining = plaintext_bytes_to_read;
      strs = strs;
    })
    elim done [ none ↦ ok none | some r ↦ check (r.remaining == 0) >> ok (some r) ]

  -- What is done with the buffer of a completion.
  unfoldable pub receive : Cqe → IoBuf → Running S C W D → Result (Option (Running S C W D))
  unfolding decrypt
  receive cqe buf run = do
    errno ← if is_negative cqe.res then abs_i32 cqe.res else ok 0
    if is_negative cqe.res then panic (os_error errno) else ok tt
    check (ltb 0 cqe.res)
    let received = slice run.mem.bytes buf.addr cqe.res
    ws ← or_panic out_of_bounds (get_elem? run.streams cqe.user_data)
    handler ← or_panic out_of_bounds (get_elem? run.handlers cqe.user_data)
    elim ws.stream [
      | plain stream ↦ panic todo
      | other ↦ panic unimplemented
      | rustls conn stream ↦ decrypt received conn handler run.strs >>= λ read. elim read [
        | none ↦ ok none
        | some r ↦ ok (
            some (record run {
              mem = record (run.mem) { bytes = overwrite run.mem.bytes buf.addr r.received };
              streams = set run.streams cqe.user_data (record ws { stream = rustls r.conn stream });
              handlers = set run.handlers cqe.user_data r.handler;
              strs = r.strs;
            }))
      ]
    ]

  -- `buf` goes back to the kernel under the id, and the completion is done.
  unfoldable pub yield_back : IoBuf → (buffer_id : ℕ) → Running S C W D → Result (Running S C W D)
  yield_back buf buffer_id run = do
    br ← deref run.mem run.buf_ring
    mask ← io_uring_buf_ring_mask ring_pool_size
    br' ← io_uring_buf_ring_add br buf.addr buf_size (u16 buffer_id) mask 0
    ok (record run {
      mem = store run.mem run.buf_ring (io_uring_buf_ring_advance br' 1);
      ring = io_uring_cq_advance 1 run.ring;
    })

  -- The entry of the ring at a buffer's id; a null pointer to a completion is `none`.
  unfoldable pub handle_cqe : Option Cqe → Running S C W D → Result (Option (Running S C W D))
  unfolding receive yield_back
  handle_cqe ptr run = do
    cqe ← or_panic undefined ptr
    let buffer_id = cqe.flags >>> cqe_buffer_shift
    br ← deref run.mem run.buf_ring
    buf ←
        if ltb buffer_id ring_pool_size
        then or_panic undefined (get_elem? br buffer_id)
        else panic out_of_bounds
    done ← receive cqe buf run
    elim done [
      | none ↦ ok none
      | some run' ↦ yield_back buf buffer_id run' >>= λ run''. ok (some run'')
    ]

  -- `for cqe_idx in 0..rval`, with `left` to go.
  unfoldable pub handle_cqes :
      (left cqe_idx : ℕ) → List (Option Cqe) → Running S C W D → Result (Option (Running S C W D))
  unfolding handle_cqe
  handle_cqes zero cqe_idx cqe_buf run = ok (some run)
  handle_cqes (suc left) cqe_idx cqe_buf run = do
    cqe ← or_panic out_of_bounds (get_elem? cqe_buf cqe_idx)
    handled ← handle_cqe cqe run
    elim handled [ none ↦ ok none | some run' ↦ handle_cqes left (cqe_idx + 1) cqe_buf run' ]

  -- One round of the loop.
  unfoldable pub round : Kernel → Running S C W D → Result (Option (Running S C W D))
  unfolding handle_cqes
  round kernel run = do
    let (rval, submitted) = kernel.submit run.ring
    if is_negative rval then panic (os_error kernel.errno) else ok tt
    let (ready, cqe_buf) = kernel.peek_batch_cqe submitted
    handle_cqes ready 0 cqe_buf (record run {
      mem = record (run.mem) { bytes = kernel.received run.mem.bytes };
      ring = submitted;
    })
