-- ===== src/Ring/Slots.antt =====
-- src/ring.rs: the invariant of the submission queue and the slots that `io_uring_get_sqe` gives.
use native.Mathlib.Nat.{one-le-pow, pow-le-pow_right, mod-lt}
use uring_ws.Base.{
  ℕ, ◌+◌, ◌-◌, ◌%◌, ◌^◌, ◌≤◌, ◌<◌, ◌≡◌, arith, length, get_elem?, set, bit_and, some, none, ok,
  bit_and_mask, length-set, get_elem?_total, ◌∙◌,
}
use uring_ws.Sqe.{Sqe, io_uring_initialize_sqe}
use uring_ws.Ring.{IoUring, modify_sqe, io_uring_get_sqe}

-- The entries that the crate has taken and the kernel has not consumed yet.
abbrev pub in_flight : IoUring → ℕ
in_flight ring = (ring.sqe_tail + 2 ^ 32 - ring.khead) % 2 ^ 32

-- What io_uring_queue_init sets up, and what the two ends keep.
pub record IsValid (ring : IoUring) : Type 0 where
  pub order : ℕ
  pub order_le : order ≤ 31
  pub entries : ring.ring_entries ≡ 2 ^ order
  pub mask : ring.ring_mask ≡ ring.ring_entries - 1
  pub slots : length ring.sqes ≡ ring.ring_entries
  pub head_word : ring.khead < 2 ^ 32
  pub tail_word : ring.sqe_tail < 2 ^ 32
  pub bounded : in_flight ring ≤ ring.ring_entries

-- The slot of the entry that is taken next.
abbrev pub next_slot : IoUring → ℕ
next_slot ring = ring.sqe_tail % ring.ring_entries

pub entries_bounds :
    {ring : IoUring} → IsValid ring → (0 < ring.ring_entries) × (ring.ring_entries ≤ 2 ^ 31)
entries_bounds {ring} v = omega (
  arith,
  v.entries,
  one-le-pow v.order 2 (omega arith),
  pow-le-pow_right {n = 2} (omega arith) v.order_le,
)

mask_index : {ring : IoUring} → IsValid ring → bit_and ring.sqe_tail ring.ring_mask ≡ next_slot ring
mask_index {ring} v = rw (v.mask, v.entries) (bit_and_mask v.order ring.sqe_tail)

pub next_slot-lt : {ring : IoUring} → IsValid ring → next_slot ring < length ring.sqes
next_slot-lt {ring} v = omega (arith, v.slots, mod-lt ring.sqe_tail (entries_bounds v).0)

-- The ring after its next slot is taken and holds `new`.
abbrev pub appended : IoUring → Sqe → IoUring
appended ring new = record ring {
  sq = record (ring.sq) {
    sqe_tail = (ring.sqe_tail + 1) % 2 ^ 32;
    sqes = set ring.sqes (next_slot ring) new;
  };
}

abbrev pub taken : IoUring → Sqe → IoUring
taken ring old = appended ring (io_uring_initialize_sqe old)

pub io_uring_get_sqe_room :
    {ring : IoUring}
    → IsValid ring
    → in_flight ring < ring.ring_entries
    → (s : Sqe) × (get_elem? ring.sqes (next_slot ring) ≡ some s)
      × (io_uring_get_sqe ring ≡ ok (taken ring s, some (next_slot ring)))
unfolding io_uring_get_sqe modify_sqe
io_uring_get_sqe_room {ring} v h =
    let (s, e) = get_elem?_total ring.sqes (next_slot ring) (next_slot-lt v) in
    (s, e, ground (arith, e, mask_index v, entries_bounds v))

pub io_uring_get_sqe_full :
    {ring : IoUring}
    → IsValid ring
    → in_flight ring ≡ ring.ring_entries
    → io_uring_get_sqe ring ≡ ok (ring, none)
unfolding io_uring_get_sqe
io_uring_get_sqe_full {ring} v h = ground (arith, entries_bounds v)

pub appended-IsValid :
    {ring : IoUring} (new : Sqe)
    → IsValid ring
    → in_flight ring < ring.ring_entries
    → IsValid (appended ring new) × (in_flight (appended ring new) ≡ in_flight ring + 1)
appended-IsValid {ring} new v h = (
  record {
    order = v.order;
    order_le = v.order_le;
    entries = v.entries;
    mask = v.mask;
    slots = length-set ring.sqes (next_slot ring) new ∙ v.slots;
    head_word = v.head_word;
    tail_word = omega arith;
    bounded = omega (arith, v.bounded, v.head_word, v.tail_word, entries_bounds v);
  },
  omega (arith, v.head_word, v.tail_word, entries_bounds v),
)
