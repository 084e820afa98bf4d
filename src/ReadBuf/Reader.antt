-- ===== src/ReadBuf/Reader.antt =====
-- src/read_buf.rs: one reader over one buffer.
use uring_ws.Base.{
  ℕ, zero, suc, ◌+◌, ◌-◌, ◌^◌, ◌<◌, ◌≡◌, refl, arith, ◌∙◌, ap, ap₂, min, some, List, length,
  length-take, take, drop, ok, ◌==◌,
}
use uring_ws.Memory.{Memory}
use uring_ws.BufRing.{KernelBuffer}
use uring_ws.ReadBuf.{slice, KernelBufferReader, read_reader, read_front}

pub length-slice : (bytes : ℕ → ℕ) (a n : ℕ) → length (slice bytes a n) ≡ n
length-slice bytes a zero = refl
length-slice bytes a (suc n) = ap suc (length-slice bytes (a + 1) n)

pub drop-slice :
    (bytes : ℕ → ℕ) (k a n : ℕ) → drop k (slice bytes a n) ≡ slice bytes (a + k) (n - k)
drop-slice bytes zero a n = ap₂ (slice bytes) {x = a} {y = a + 0} (omega arith) (omega arith)
drop-slice bytes (suc k) a zero = ap (slice bytes (a + suc k)) {x = 0} (omega arith)
drop-slice bytes (suc k) a (suc n) =
    drop-slice bytes k (a + 1) n
    ∙ ap₂ (slice bytes) {x = a + 1 + k} {y = a + suc k} (omega arith) (omega arith)

-- A reader that has bytes left.
pub record IsReadable (r : KernelBufferReader) : Type 0 where
  pub kb : KernelBuffer
  pub holds : r.buf ≡ some kb
  pub left : r.claimed < kb.data_len
  pub word : kb.data_len < 2 ^ 64

-- The bytes that a reader has not given out yet.
abbrev pub unread_from : (ℕ → ℕ) → KernelBuffer → ℕ → List ℕ
unread_from bytes kb claimed = slice bytes (kb.addr + claimed) (kb.data_len - claimed)

-- A read from a readable reader gives the bytes that come next, as many as there is room for.
pub read_reader_lem :
    (mem : Memory) (r : KernelBufferReader) (room : ℕ)
    → (h : IsReadable r)
    → let out = take room (unread_from mem.bytes h.kb r.claimed) in
      (read_reader mem r room ≡ ok (record r { claimed = r.claimed + length out }, out))
      × (length out ≡ min room (h.kb.data_len - r.claimed))
unfolding read_reader
read_reader_lem mem r room h =
    let bytes = unread_from mem.bytes h.kb r.claimed in
    let size : length (take room bytes) ≡ min room (h.kb.data_len - r.claimed) = omega (
      arith,
      length-take room bytes,
      length-slice mem.bytes (h.kb.addr + r.claimed) (h.kb.data_len - r.claimed),
    ) in
    (ground (arith, h.holds, h.left, h.word, size), size)

-- The first reader of the queue, where there is room.
pub read_front_lem :
    (mem : Memory) (r : KernelBufferReader) (room : ℕ)
    → (h : IsReadable r) → 0 < room
    → let out = take room (unread_from mem.bytes h.kb r.claimed) in
      read_front mem r room
      ≡ ok (
        record r { claimed = r.claimed + length out },
        out,
        h.kb.data_len - (r.claimed + length out) == 0,
      )
unfolding read_front
read_front_lem mem r room h pos =
    let (got, size) = read_reader_lem mem r room h in ground (arith, got, size, h.holds, h.left)
