-- ===== src/BufRing.antt =====
-- src/buf_ring.rs and src/common.rs: the pool of buffer groups, whose buffers the crate lends to the
-- kernel through a ring in shared memory. What liburing, the allocator and libc do is a parameter.
pub mod Places
pub mod Group
pub mod Init
pub mod Bytes
pub mod Cycle
use uring_ws.Base.{
  ℕ, zero, suc, ◌+◌, ◌*◌, bit_and, u16, u32, leb, ◌==◌, if◌then◌else◌, Option, none, some, List, [],
  ◌∷◌, get_elem?, set, Result, ok, panic, check, or_panic, ◌>>=◌, ◌>>◌, undefined, out_of_bounds,
  out_of_memory, explicit, add_checked, sub_checked, abs_i32, Io, done, fail, unwrap, raw_os,
  no_memory,
}
use uring_ws.UserData.{buf_size, ring_pool_size}
use uring_ws.Memory.{BufRing, Memory, deref, store}

pub record BufRingPool : Type 0 where
  pub buf_ring_ptrs : List ℕ

-- read_buf.rs
pub record KernelBuffer : Type 0 where
  pub addr : ℕ
  pub data_len : ℕ
  pub buf_ring : ℕ
  pub bid : ℕ
  pub bgid : ℕ
  pub buf_len : ℕ

unfoldable pub tail_of : BufRing → ℕ
tail_of [] = 0
tail_of (b ∷ bs) = b.resv

unfoldable pub set_tail : ℕ → BufRing → BufRing
set_tail t [] = []
set_tail t (b ∷ bs) = record b { resv = t } ∷ bs

unfoldable pub io_uring_buf_ring_mask : ℕ → Result ℕ
io_uring_buf_ring_mask ring_entries = sub_checked ring_entries 1

unfoldable pub io_uring_buf_ring_add : BufRing → (addr len bid mask buf_offset : ℕ) → Result BufRing
unfolding tail_of
io_uring_buf_ring_add br addr len bid mask buf_offset = do
  sum ← add_checked 32 (tail_of br) buf_offset
  let idx = bit_and sum mask
  buf ← or_panic undefined (get_elem? br idx)
  ok (set br idx (record buf { addr = addr; len = len; bid = bid }))

unfoldable pub io_uring_buf_ring_advance : BufRing → ℕ → BufRing
unfolding tail_of set_tail
io_uring_buf_ring_advance br count = set_tail (u16 (tail_of br + count)) br

unfoldable pub buf_ring_add_advance : KernelBuffer → Memory → Result Memory
buf_ring_add_advance read_buf mem = do
  br ← deref mem read_buf.buf_ring
  mask ← io_uring_buf_ring_mask ring_pool_size
  br' ← io_uring_buf_ring_add br read_buf.addr read_buf.buf_len read_buf.bid mask 0
  ok (store mem read_buf.buf_ring (io_uring_buf_ring_advance br' 1))

unfoldable pub get_read_buf :
    BufRingPool → Memory → (buffer_group_id buffer_id data_len : ℕ) → Result KernelBuffer
get_read_buf pool mem buffer_group_id buffer_id data_len = do
  ptr ← or_panic out_of_bounds (get_elem? pool.buf_ring_ptrs buffer_group_id)
  br ← deref mem ptr
  data_buf ← or_panic undefined (get_elem? br buffer_id)
  let lent : KernelBuffer = record {
    addr = data_buf.addr;
    data_len = data_len;
    buf_ring = ptr;
    bid = data_buf.bid;
    bgid = buffer_group_id;
    buf_len = data_buf.len;
  }
  if buffer_id == data_buf.bid then check (leb (u32 data_len) data_buf.len) else panic explicit
  ok lent

abbrev pub Layout : Type 0
Layout = ℕ × ℕ

-- What is outside the repository: `io_uring_setup_buf_ring` returns a pointer, the status that it
-- leaves in `ret`, and what stands at the pointer; `Layout::from_size_align`, `alloc` and `sysconf`.
pub record Platform : Type 0 where
  pub setup_buf_ring : Memory → ℕ → ℕ → ℕ × ℕ × BufRing
  pub from_size_align : ℕ → ℕ → Option Layout
  pub alloc : Layout → ℕ
  pub sysconf_page_size : ℕ

module _ (platform : Platform) where
  unfoldable pub rust_io_uring_setup_buf_ring : Memory → ℕ → ℕ → Result (Io (ℕ × Memory))
  rust_io_uring_setup_buf_ring mem nentries bgid =
      let (ptr, ret, fresh) = platform.setup_buf_ring mem nentries bgid in
      if ptr == 0
      then (do errno ← abs_i32 ret; ok (fail (raw_os errno)))
      else ok (done (ptr, store mem ptr fresh))

  unfoldable pub page_size : ℕ
  page_size = platform.sysconf_page_size

  unfoldable pub alloc_layout_buffers : (pool_size buf_size page_size : ℕ) → Io Layout
  alloc_layout_buffers pool_size buf_size page_size =
      elim (platform.from_size_align (pool_size * buf_size) page_size) [
        | some layout ↦ done layout
        | none ↦ fail no_memory
      ]

-- The loop of `new_buffer_group`, from buffer `i` on with `left` to go.
unfoldable pub add_buffers : (left i pool_size bufs_addr : ℕ) → BufRing → Result BufRing
add_buffers zero i pool_size bufs_addr br = ok br
add_buffers (suc left) i pool_size bufs_addr br = do
  mask ← io_uring_buf_ring_mask pool_size
  br' ← io_uring_buf_ring_add br (bufs_addr + i * buf_size) buf_size (u16 i) mask (u32 i)
  add_buffers left (i + 1) pool_size bufs_addr br'

-- The pool and memory after the call, and the pointer that is returned.
unfoldable pub new_buffer_group :
    Platform → BufRingPool → Memory → ℕ → Result (BufRingPool × Memory × ℕ)
new_buffer_group platform pool mem buffer_group_id = do
  reply ← rust_io_uring_setup_buf_ring platform mem ring_pool_size buffer_group_id
  (ptr, mem') ← unwrap reply
  br ← deref mem' ptr
  layout ← unwrap (alloc_layout_buffers platform ring_pool_size buf_size (page_size platform))
  let bufs_addr = platform.alloc layout
  addr ← if bufs_addr == 0 then panic out_of_memory else ok bufs_addr
  filled ← add_buffers ring_pool_size 0 ring_pool_size addr br
  let advanced = io_uring_buf_ring_advance filled ring_pool_size
  old ← or_panic out_of_bounds (get_elem? pool.buf_ring_ptrs buffer_group_id)
  ok (
    record pool { buf_ring_ptrs = set pool.buf_ring_ptrs buffer_group_id ptr },
    store mem' ptr advanced,
    ptr,
  )
