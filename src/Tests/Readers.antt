-- ===== src/Tests/Readers.antt =====
-- The readers of src/read_buf.rs on small inputs.
use uring_ws.Base.{ℕ, ◌≡◌, refl, arith, some, none, List, [], ◌∷◌, ok}
use uring_ws.Memory.{Memory, store}
use uring_ws.BufRing.{
  KernelBuffer, buf_ring_add_advance, io_uring_buf_ring_mask, io_uring_buf_ring_add,
  io_uring_buf_ring_advance,
}
use uring_ws.ReadBuf.{KernelBufferReader, KernelBufferVecReader, read, read_front}
use uring_ws.ReadBuf.Reader.{IsReadable}
use uring_ws.ReadBuf.Stream.{Delivers, read-Delivers}
use uring_ws.ReadBuf.Total.{read_total}

-- Byte `a` stands at address `a`; there are no rings.
abbrev counting : Memory
counting = record { rings = λ p. none; bytes = λ a. a }

abbrev pub kb : KernelBuffer
kb = record { addr = 100; data_len = 5; buf_ring = 8; bid = 0; bgid = 0; buf_len = 1500 }

abbrev half_read : KernelBufferReader
half_read = record { buf = some kb; claimed = 1 }

abbrev queue : KernelBufferVecReader
queue = record { buf_vec = half_read ∷ []; capacity = 1024 }

abbrev half_read-IsReadable : IsReadable half_read
half_read-IsReadable = record { kb = kb; holds = refl; left = omega arith; word = omega arith }

abbrev moved_on : KernelBufferVecReader
moved_on = record queue { buf_vec = record half_read { claimed = 4 } ∷ [] }

reads_three : read counting queue 3 ≡ ok (moved_on, counting, 101 ∷ 102 ∷ 103 ∷ [])
unfolding read read_front
reads_three = refl

read-Delivers_example : Delivers counting queue 3 moved_on counting (101 ∷ 102 ∷ 103 ∷ [])
read-Delivers_example =
    read-Delivers counting queue 3 moved_on counting (101 ∷ 102 ∷ 103 ∷ [])
      (half_read-IsReadable, tt) (omega arith) reads_three

-- A ring of one entry at address 8, and what it holds when the buffer is back.
abbrev one_ring : Memory
one_ring = record {
  rings = λ p. some (record { addr = 0; len = 0; bid = 0; resv = 0 } ∷ []);
  bytes = λ a. a;
}

abbrev given_back : Memory
given_back = store one_ring 8 (record { addr = 100; len = 1500; bid = 0; resv = 1 } ∷ [])

gives_back : buf_ring_add_advance kb one_ring ≡ ok given_back
unfolding buf_ring_add_advance io_uring_buf_ring_mask io_uring_buf_ring_add
    io_uring_buf_ring_advance
gives_back = refl

read_total_example :
    (res : KernelBufferVecReader × Memory × List ℕ) × (read one_ring queue 4096 ≡ ok res)
read_total_example =
    read_total one_ring given_back queue 4096 half_read [] half_read-IsReadable (omega arith) refl
      gives_back
