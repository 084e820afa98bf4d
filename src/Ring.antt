-- ===== src/Ring.antt =====
-- src/ring.rs: the submission queue that the crate shares with the kernel, and the head of the
-- completion queue (`io_uring_cq_advance` of src/ping_pong.rs and src/io_uring_probe_v2.rs).
-- An entry's pointer is its index in `sqes`; `khead` is the word that the kernel writes.
pub mod Slots
pub mod Queue
pub mod Traffic
use uring_ws.Base.{
  ℕ, ◌+◌, ◌-◌, ◌%◌, ◌^◌, bit_and, ◌<<<◌, u32, leb, if◌then◌else◌, Option, none, some, List,
  get_elem?, set, Result, ok, or_panic, ◌>>=◌, undefined, unwrap_failed,
}
use uring_ws.Sqe.{Sqe, io_uring_initialize_sqe, send}

pub record Sq : Type 0 where
  pub khead : ℕ
  pub sqe_tail : ℕ
  pub ring_mask : ℕ
  pub ring_entries : ℕ
  pub sqes : List Sqe

pub record IoUring : Type 0 where
  pub sq : Sq
  pub open sq use *
  pub cq_khead : ℕ

-- Writing through an entry's pointer.
unfoldable pub modify_sqe : (Sqe → Result Sqe) → ℕ → IoUring → Result IoUring
modify_sqe f idx ring = do
  sqe ← or_panic undefined (get_elem? ring.sqes idx)
  new ← f sqe
  ok (record ring { sq = record (ring.sq) { sqes = set ring.sqes idx new } })

-- `none` is `Err("sq ring entries overflow")`.
unfoldable pub io_uring_get_sqe : IoUring → Result (IoUring × Option ℕ)
unfolding modify_sqe
io_uring_get_sqe ring =
    let next = u32 (ring.sqe_tail + 1) in
    let idx = bit_and ring.sqe_tail ring.ring_mask <<< 0 in
    if leb ((next + 2 ^ 32 - ring.khead) % 2 ^ 32) ring.ring_entries
    then (do
      ring' ←
          modify_sqe (λ sqe. ok (io_uring_initialize_sqe sqe)) idx
            (record ring { sq = record (ring.sq) { sqe_tail = next } })
      ok (ring', some idx))
    else ok (ring, none)

-- `io_uring_get_sqe(…).unwrap()`
unfoldable pub get_sqe_unwrap : IoUring → Result (IoUring × ℕ)
get_sqe_unwrap ring = do
  (ring', slot) ← io_uring_get_sqe ring
  idx ← or_panic unwrap_failed slot
  ok (ring', idx)

unfoldable pub prep_send : (fd ptr len flags : ℕ) → IoUring → Result (IoUring × ℕ)
prep_send fd ptr len flags ring = do
  (ring', idx) ← get_sqe_unwrap ring
  ring'' ← modify_sqe (λ sqe. ok (send fd ptr (u32 len) flags sqe)) idx ring'
  ok (ring'', idx)

unfoldable pub io_uring_cq_advance : ℕ → IoUring → IoUring
io_uring_cq_advance nr ring = record ring { cq_khead = u32 (ring.cq_khead + nr) }
