-- ===== src/ReadBuf.antt =====
-- src/read_buf.rs: readers over the buffers that the kernel has filled.
pub mod Reader
pub mod Stream
pub mod Total
pub mod Effect
pub mod Untouched
pub mod Queue
use uring_ws.Base.{
  ℕ, zero, suc, ◌+◌, ltb, leb, ◌==◌, if◌then◌else◌, Bool, true, false, Option, some, List, [], ◌∷◌,
  ◌++◌, length, take, Result, ok, check, or_panic, ◌>>=◌, ◌>>◌, unreachable, unwrap_failed,
  add_checked, sub_checked,
}
use uring_ws.Memory.{Memory}
use uring_ws.BufRing.{KernelBuffer, buf_ring_add_advance}

-- The `n` bytes from `addr` on.
abbrev pub slice : (ℕ → ℕ) → ℕ → ℕ → List ℕ
slice bytes addr zero = []
slice bytes addr (suc n) = bytes addr ∷ slice bytes (addr + 1) n

-- `KernelBuffer::data`
unfoldable pub data_from : Memory → KernelBuffer → ℕ → Result (List ℕ)
data_from mem kb offset = do
  n ← sub_checked kb.data_len offset
  ok (slice mem.bytes (kb.addr + offset) n)

pub record KernelBufferReader : Type 0 where
  pub buf : Option KernelBuffer
  pub claimed : ℕ

unfoldable pub new_reader : KernelBuffer → KernelBufferReader
new_reader kb = record { buf = some kb; claimed = 0 }

unfoldable pub buf_ref : KernelBufferReader → Result KernelBuffer
buf_ref r = or_panic unreachable r.buf

unfoldable pub remaining : KernelBufferReader → Result ℕ
unfolding buf_ref
remaining r = do kb ← buf_ref r; sub_checked kb.data_len r.claimed

unfoldable pub commit : ℕ → KernelBufferReader → Result KernelBufferReader
unfolding buf_ref
commit len r = do
  claimed ← add_checked 64 r.claimed len
  kb ← buf_ref r
  check (leb claimed kb.data_len)
  ok (record r { claimed = claimed })

-- `Read for KernelBufferReader`, into a buffer of `room` bytes: the reader after it, and the bytes.
unfoldable pub read_reader : Memory → KernelBufferReader → ℕ → Result (KernelBufferReader × List ℕ)
unfolding buf_ref remaining commit data_from
read_reader mem r room = do
  left ← remaining r
  check (ltb 0 left)
  kb ← buf_ref r
  bytes ← data_from mem kb r.claimed
  let out = take room bytes
  r' ← commit (length out) r
  kb' ← buf_ref r'
  check (leb r'.claimed kb'.data_len)
  ok (r', out)

-- `Drop for KernelBufferReader`, with that of the buffer in it.
unfoldable pub drop_reader : KernelBufferReader → Memory → Result Memory
drop_reader r mem = do kb ← or_panic unwrap_failed r.buf; buf_ring_add_advance kb mem

pub record KernelBufferVecReader : Type 0 where
  pub buf_vec : List KernelBufferReader
  pub capacity : ℕ

-- `VecDeque::with_capacity` gives the capacity that it is asked for, or more.
unfoldable pub new_vec_reader : (with_capacity : ℕ → ℕ) → ℕ → KernelBufferVecReader
new_vec_reader with_capacity capacity = record { buf_vec = []; capacity = with_capacity capacity }

-- `grow` is the capacity that `VecDeque::push_back` moves to when it is full.
unfoldable pub push :
    (grow : ℕ → ℕ) → KernelBuffer → KernelBufferVecReader → Result KernelBufferVecReader
unfolding new_reader
push grow kb v = do
  let buf_vec = v.buf_vec ++ (new_reader kb ∷ [])
  let capacity = if length v.buf_vec == v.capacity then grow v.capacity else v.capacity
  check (leb (length buf_vec) capacity)
  ok (record { buf_vec = buf_vec; capacity = capacity })

-- The part of `Read for KernelBufferVecReader` for a first reader: whether it is drained goes with it.
unfoldable pub read_front :
    Memory → KernelBufferReader → ℕ → Result (KernelBufferReader × List ℕ × Bool)
unfolding read_reader
read_front mem r room = do
  left ← remaining r
  check (ltb 0 left)
  (r', out) ← read_reader mem r room
  check (ltb 0 (length out))
  left' ← remaining r'
  ok (r', out, left' == 0)

unfoldable pub pop_drained :
    Memory
    → KernelBufferVecReader
    → KernelBufferReader
    → List KernelBufferReader
    → Bool
    → Result (KernelBufferVecReader × Memory)
unfolding drop_reader
pop_drained mem v r rest false = ok (record v { buf_vec = r ∷ rest }, mem)
pop_drained mem v r rest true = do mem' ← drop_reader r mem; ok (record v { buf_vec = rest }, mem')

unfoldable pub read :
    Memory → KernelBufferVecReader → ℕ → Result (KernelBufferVecReader × Memory × List ℕ)
unfolding pop_drained
read mem v room = elim v.buf_vec [
  | [] ↦ ok (v, mem, [])
  | r ∷ rest ↦ (do
    (r', out, drained) ← read_front mem r room
    (v', mem') ← pop_drained mem v r' rest drained
    ok (v', mem', out))
]
