-- ===== src/ReadBuf/Queue.antt =====
-- src/read_buf.rs, `push`: a buffer at the end of the queue of readers.
use uring_ws.Base.{
  ℕ, ◌≤◌, ◌<◌, ◌≡◌, ◌==◌, arith, if◌then◌else◌, some, [], ◌∷◌, ◌++◌, length, length-append, ok,
}
use uring_ws.BufRing.{KernelBuffer}
use uring_ws.ReadBuf.{KernelBufferVecReader, new_reader, push}

-- The readers once an unread buffer stands behind all the others.
abbrev pub queued_behind :
    (grow : ℕ → ℕ) → KernelBuffer → KernelBufferVecReader → KernelBufferVecReader
queued_behind grow kb v = record {
  buf_vec = v.buf_vec ++ (record { buf = some kb; claimed = 0 } ∷ []);
  capacity = if length v.buf_vec == v.capacity then grow v.capacity else v.capacity;
}

module _ (grow : ℕ → ℕ) (kb : KernelBuffer) (v : KernelBufferVecReader) where
  pub push_fitting :
      length (queued_behind grow kb v).buf_vec ≤ (queued_behind grow kb v).capacity
      → push grow kb v ≡ ok (queued_behind grow kb v)
  unfolding push new_reader
  push_fitting fits = ground (arith, fits)

  pub push_fitted :
      (v' : KernelBufferVecReader)
      → push grow kb v ≡ ok v'
      → (length (queued_behind grow kb v).buf_vec ≤ (queued_behind grow kb v).capacity)
        × (v' ≡ queued_behind grow kb v)
  unfolding push new_reader
  push_fitted v' e = (ground (arith, e), ground (arith, e))

  -- There is room where the deque grows when it is full.
  pub room_behind :
      length v.buf_vec ≤ v.capacity
      → v.capacity < grow v.capacity
      → length (queued_behind grow kb v).buf_vec ≤ (queued_behind grow kb v).capacity
  room_behind held more =
      ground (arith, length-append v.buf_vec (record { buf = some kb; claimed = 0 } ∷ []))
