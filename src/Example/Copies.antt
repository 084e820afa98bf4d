-- ===== src/Example/Copies.antt =====
-- src/examples/io_uring_probe.rs: the program's own copies of the functions of src/ring.rs,
-- src/buf_ring.rs and src/common.rs.
use uring_ws.Base.{
  ℕ, ◌+◌, ◌*◌, ◌^◌, ◌%◌, ◌-◌, bit_and, ◌<<<◌, u16, u32, leb, ◌==◌, if◌then◌else◌, Option, some,
  none, Result, ok, ◌>>=◌, sub_checked, Io, done, fail, raw_os, no_memory,
}
use uring_ws.Memory.{BufRing, Memory, store}
use uring_ws.Sqe.{Sqe}
use uring_ws.Ring.{IoUring, modify_sqe}
use uring_ws.BufRing.{Platform, Layout, tail_of, set_tail}

unfoldable pub io_uring_initialize_sqe : Sqe → Sqe
io_uring_initialize_sqe sqe = record sqe {
  flags = 0;
  ioprio = 0;
  msg_flags = 0;
  buf_group = 0;
  personality = 0;
  file_index = 0;
  addr3 = 0;
  pad2 = 0;
}

-- `none` is `Err("sq ring entries overflow")`.
unfoldable pub io_uring_get_sqe : IoUring → Result (IoUring × Option ℕ)
unfolding io_uring_initialize_sqe
io_uring_get_sqe ring =
    let next = u32 (ring.sqe_tail + 1) in
    let idx = bit_and ring.sqe_tail ring.ring_mask <<< 0 in
    if leb ((next + 2 ^ 32 - ring.khead) % 2 ^ 32) ring.ring_entries
    then (do
      ring' ←
          modify_sqe (λ sqe. ok (io_uring_initialize_sqe sqe)) idx
            (record ring { sq = record (ring.sq) { sqe_tail = next } })
      ok (ring', some idx))
    else ok (ring, none)

unfoldable pub io_uring_cq_advance : ℕ → IoUring → IoUring
io_uring_cq_advance nr ring = record ring { cq_khead = u32 (ring.cq_khead + nr) }

unfoldable pub io_uring_buf_ring_advance : BufRing → ℕ → BufRing
io_uring_buf_ring_advance br count = set_tail (u16 (tail_of br + count)) br

unfoldable pub io_uring_buf_ring_mask : ℕ → Result ℕ
io_uring_buf_ring_mask ring_entries = sub_checked ring_entries 1

module _ (platform : Platform) where
  -- The status is taken as the error's number as it is, without its absolute value.
  unfoldable pub rust_io_uring_setup_buf_ring : Memory → ℕ → ℕ → Io (ℕ × Memory)
  rust_io_uring_setup_buf_ring mem nentries bgid =
      let (ptr, ret, fresh) = platform.setup_buf_ring mem nentries bgid in
      if ptr == 0 then fail (raw_os ret) else done (ptr, store mem ptr fresh)

  unfoldable pub page_size : ℕ
  page_size = platform.sysconf_page_size

  unfoldable pub alloc_layout_buffers : (pool_size buf_size page_size : ℕ) → Io Layout
  alloc_layout_buffers pool_size buf_size page_size =
      elim (platform.from_size_align (pool_size * buf_size) page_size) [
        | some layout ↦ done layout
        | none ↦ fail no_memory
      ]
