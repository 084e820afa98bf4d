-- ===== src/BufRing/Group.antt =====
-- src/buf_ring.rs: a group whose ring holds each buffer at the place of its id, and what lending a
-- buffer and giving it back do to it.
use uring_ws.Base.{
  ℕ, ◌+◌, ◌*◌, ◌%◌, ◌^◌, ◌≤◌, ◌<◌, ◌≡◌, ◌≢◌, sym, subst, arith, ◌∙◌, ap, u16, some, get_elem?, set,
  length, length-set, ok, panic, explicit,
}
use native.Mathlib.Decide.{ℕ_discrete}
use uring_ws.Memory.{IoBuf, BufRing, Memory, store}
use uring_ws.BufRing.{
  BufRingPool, KernelBuffer, tail_of, io_uring_buf_ring_mask, io_uring_buf_ring_add,
  io_uring_buf_ring_advance, buf_ring_add_advance, get_read_buf,
}
use uring_ws.BufRing.Places.{
  Holds, IsGroup, tail_of-set, tail_of-advance, length-advance, Holds-advance,
  io_uring_buf_ring_add_lem, Holds-set,
}

-- The pointer `ptr` leads to the ring of a group.
pub record GroupAt (base ptr : ℕ) (mem : Memory) : Type 0 where
  pub ring : BufRing
  pub not_null : ptr ≢ 0
  pub there : mem.rings ptr ≡ some ring
  pub group : IsGroup base ring

-- A buffer of the block, as the program holds it.
pub record IsLent (base ptr : ℕ) (kb : KernelBuffer) : Type 0 where
  pub lent_addr : kb.addr ≡ base + kb.bid * 1500
  pub lent_len : kb.buf_len ≡ 1500
  pub lent_ring : kb.buf_ring ≡ ptr
  pub lent_bid : kb.bid < 1024
  pub lent_data : kb.data_len ≤ 1500

-- A place that holds another buffer than its own is fatal to a completion that names it.
mismatch :
    (base ptr bgid i bid data_len : ℕ) (pool : BufRingPool) (mem : Memory) (ring : BufRing)
    → ptr ≢ 0
    → get_elem? pool.buf_ring_ptrs bgid ≡ some ptr
    → Holds base ring i bid
    → bid ≢ i
    → get_read_buf pool (store mem ptr ring) bgid i data_len ≡ panic explicit
unfolding get_read_buf
mismatch base ptr bgid i bid data_len pool mem ring nn e h ne =
    ground (arith, h.at_place, h.bid_lem)

-- A completion's buffer is found under its id: no panic, and the very bytes that belong to it.
pub get_read_buf_group :
    (base ptr bgid bid data_len : ℕ) (pool : BufRingPool) (mem : Memory)
    → GroupAt base ptr mem
    → get_elem? pool.buf_ring_ptrs bgid ≡ some ptr
    → bid < 1024
    → data_len ≤ 1500
    → get_read_buf pool mem bgid bid data_len
      ≡ ok (record {
        addr = base + bid * 1500;
        data_len = data_len;
        buf_ring = ptr;
        bid = bid;
        bgid = bgid;
        buf_len = 1500;
      })
unfolding get_read_buf
get_read_buf_group base ptr bgid bid data_len pool mem g e hb hd =
    let h = g.group.places bid hb in
    ground (arith, g.not_null, g.there, h.at_place, h.addr_lem, h.len_lem, h.bid_lem)

-- The ring after the buffer `bid` is added at the tail, where `old` stood, and the tail is moved on.
abbrev refilled : (base : ℕ) → BufRing → ℕ → IoBuf → BufRing
refilled base ring bid old =
    io_uring_buf_ring_advance
      (set ring (tail_of ring % 1024)
        (record old { addr = base + bid * 1500; len = 1500; bid = bid }))
      1

add_at_tail :
    (base : ℕ) (ring : BufRing) (bid : ℕ)
    → length ring ≡ 1024
    → tail_of ring < 2 ^ 16
    → (old : IoBuf) × (io_uring_buf_ring_add ring (base + bid * 1500) 1500 bid 1023 0
        ≡ ok (
            set ring
              (tail_of ring % 1024)
              (record old { addr = base + bid * 1500; len = 1500; bid = bid })))
      × (length (refilled base ring bid old) ≡ 1024)
      × (tail_of (refilled base ring bid old) ≡ u16 (tail_of ring + 1))
add_at_tail base ring bid size word =
    let (old, e, added) =
      io_uring_buf_ring_add_lem ring (base + bid * 1500) 1500 bid 0 size word (omega arith) in
    let same : (tail_of ring + 0) % 1024 ≡ tail_of ring % 1024 = omega arith in
    let new : IoBuf = record old { addr = base + bid * 1500; len = 1500; bid = bid } in
    let mid = set ring (tail_of ring % 1024) new in
    let mid_size : length mid ≡ 1024 = length-set ring (tail_of ring % 1024) new ∙ size in
    (
      old,
      added ∙ ap (λ (i : ℕ). ok (set ring i new)) same,
      length-advance mid 1 ∙ mid_size,
      tail_of-advance mid 1 (omega arith)
          ∙ ap (λ (t : ℕ). u16 (t + 1))
              (tail_of-set ring (tail_of ring % 1024) (base + bid * 1500) 1500 bid old
                (ap (get_elem? ring) (sym same) ∙ e)),
    )

refilled-Holds :
    (base : ℕ) (ring : BufRing) (bid : ℕ) (old : IoBuf)
    → length ring ≡ 1024
    → Holds base (refilled base ring bid old) (tail_of ring % 1024) bid
      × ((j b : ℕ)
          → tail_of ring % 1024 ≢ j
          → Holds base ring j b
          → Holds base (refilled base ring bid old) j b)
refilled-Holds base ring bid old size =
    let i = tail_of ring % 1024 in
    let (here, others) = Holds-set base ring i bid old (omega arith) in
    let mid = set ring i (record old { addr = base + bid * 1500; len = 1500; bid = bid }) in
    (
      Holds-advance base mid 1 i bid here,
      λ j b ne held. Holds-advance base mid 1 j b (others j b ne held),
    )

-- The call writes what the ring-level functions give.
add_advance_mem :
    (base ptr : ℕ) (mem : Memory) (kb : KernelBuffer) (ring mid : BufRing)
    → ptr ≢ 0
    → mem.rings ptr ≡ some ring
    → IsLent base ptr kb
    → io_uring_buf_ring_add ring (base + kb.bid * 1500) 1500 kb.bid 1023 0 ≡ ok mid
    → buf_ring_add_advance kb mem ≡ ok (store mem ptr (io_uring_buf_ring_advance mid 1))
unfolding buf_ring_add_advance io_uring_buf_ring_mask
add_advance_mem base ptr mem kb ring mid nn there l added = ground arith

-- Giving back the buffer whose place the tail names keeps the group and moves the tail on.
pub give_back_group :
    (base ptr : ℕ) (mem : Memory) (kb : KernelBuffer)
    → (g : GroupAt base ptr mem) → IsLent base ptr kb
    → kb.bid ≡ tail_of g.ring % 1024
    → (ring' : BufRing) × (buf_ring_add_advance kb mem ≡ ok (store mem ptr ring'))
      × IsGroup base ring'
      × (tail_of ring' ≡ u16 (tail_of g.ring + 1))
give_back_group base ptr mem kb g l e =
    let (old, added, size, tail) = add_at_tail base g.ring kb.bid g.group.size g.group.tail_word in
    let (here, others) = refilled-Holds base g.ring kb.bid old g.group.size in
    (
      refilled base g.ring kb.bid old,
      add_advance_mem base ptr mem kb g.ring _ g.not_null g.there l added,
      record {
        size = size;
        tail_word = omega arith;
        places = λ i h. elim (ℕ_discrete (tail_of g.ring % 1024) i) [
          | yes p ↦
              subst (λ j. Holds base (refilled base g.ring kb.bid old) j j) (e ∙ p)
                (subst (λ j. Holds base (refilled base g.ring kb.bid old) j kb.bid) (sym e) here)
          | no ne ↦ others i i ne (g.group.places i h)
        ];
      },
      tail,
    )

-- A buffer given back out of turn stands at another buffer's place, and the next completion that
-- names that place is fatal.
pub give_back_out_of_turn :
    (base ptr bgid data_len : ℕ) (pool : BufRingPool) (mem : Memory) (kb : KernelBuffer)
    → (g : GroupAt base ptr mem) → get_elem? pool.buf_ring_ptrs bgid ≡ some ptr
    → IsLent base ptr kb
    → kb.bid ≢ tail_of g.ring % 1024
    → (mem' : Memory) × (buf_ring_add_advance kb mem ≡ ok mem')
      × (get_read_buf pool mem' bgid (tail_of g.ring % 1024) data_len ≡ panic explicit)
give_back_out_of_turn base ptr bgid data_len pool mem kb g e l ne =
    let (old, added, size, tail) = add_at_tail base g.ring kb.bid g.group.size g.group.tail_word in
    let (here, others) = refilled-Holds base g.ring kb.bid old g.group.size in
    (
      store mem ptr (refilled base g.ring kb.bid old),
      add_advance_mem base ptr mem kb g.ring _ g.not_null g.there l added,
      mismatch base ptr bgid (tail_of g.ring % 1024) kb.bid data_len pool mem
          (refilled base g.ring kb.bid old) g.not_null e here ne,
    )
