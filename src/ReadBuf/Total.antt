-- ===== src/ReadBuf/Total.antt =====
-- src/read_buf.rs: when a read returns, and what the assertion of `push` says.
use native.Mathlib.Decide.{dec_lt}
use uring_ws.Base.{
  ℕ, ◌-◌, ◌≤◌, ◌<◌, ◌≡◌, refl, arith, List, [], ◌∷◌, ◌++◌, some, length, length-append, ok, panic,
  assertion_failed, if◌then◌else◌, ◌==◌,
}
use uring_ws.Memory.{Memory}
use uring_ws.BufRing.{KernelBuffer, buf_ring_add_advance}
use uring_ws.ReadBuf.{KernelBufferReader, KernelBufferVecReader, new_reader, push, read, read_front}
use uring_ws.ReadBuf.Reader.{IsReadable, read_reader_lem}
use uring_ws.ReadBuf.Stream.{read_keeps, read_drains}

-- A read with room from a queue whose first reader has bytes returns, if the buffer of that reader can
-- be given back.
pub read_total :
    (mem mem' : Memory) (v : KernelBufferVecReader) (room : ℕ) (r : KernelBufferReader)
    (rest : List KernelBufferReader)
    → (h : IsReadable r) → 0 < room
    → v.buf_vec ≡ r ∷ rest
    → buf_ring_add_advance h.kb mem ≡ ok mem'
    → (res : KernelBufferVecReader × Memory × List ℕ) × (read mem v room ≡ ok res)
read_total mem mem' v room r rest h pos front e = elim (dec_lt room (h.kb.data_len - r.claimed)) [
  | yes less ↦ (_, read_keeps mem v room r rest h pos front less)
  | no ge ↦ (_, read_drains mem v room r rest h pos front (omega arith) e)
]

-- A read into an empty buffer while bytes wait is a panic.
pub read_no_room :
    (mem : Memory) (v : KernelBufferVecReader) (r : KernelBufferReader)
    (rest : List KernelBufferReader)
    → IsReadable r
    → v.buf_vec ≡ r ∷ rest
    → read mem v 0 ≡ panic assertion_failed
unfolding read read_front
read_no_room mem v r rest h front =
    ground (arith, front, read_reader_lem mem r 0 h, h.holds, h.left)

-- The assertion "must not reallocate" of `push` never fails, also where the deque is full and has to
-- grow: with any growth that makes room, the buffer goes to the end and fits.
push_never_fails :
    (grow : ℕ → ℕ) (kb : KernelBuffer) (v : KernelBufferVecReader)
    → length v.buf_vec ≤ v.capacity
    → v.capacity < grow v.capacity
    → (v' : KernelBufferVecReader) × (push grow kb v ≡ ok v')
      × (v'.buf_vec ≡ v.buf_vec ++ (record { buf = some kb; claimed = 0 } ∷ []))
      × (length v'.buf_vec ≤ v'.capacity)
unfolding push
push_never_fails grow kb v fits more =
    let buf_vec = v.buf_vec ++ (new_reader kb ∷ []) in
    let size = length-append v.buf_vec (new_reader kb ∷ []) in
    (
      record {
        buf_vec = buf_vec;
        capacity = if length v.buf_vec == v.capacity then grow v.capacity else v.capacity;
      },
      ground (arith, size),
      refl,
      ground (arith, size),
    )
