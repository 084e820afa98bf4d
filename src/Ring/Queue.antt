-- ===== src/Ring/Queue.antt =====
-- src/ring.rs: the submission queue as a bounded FIFO of entries between the crate, which appends,
-- and the kernel, which takes from the front.
use native.Mathlib.Nat.{mod-mod_of_dvd, pow-suc}
use Prim.Native.Nat.add
use native.Mathlib.Numerals.{add-one}
use uring_ws.Base.{
  ℕ, zero, suc, ◌+◌, ◌-◌, ◌*◌, ◌%◌, ◌^◌, ◌≤◌, ◌<◌, ◌≡◌, refl, sym, arith, ◌∙◌, ap, List, [], ◌∷◌,
  ◌++◌, set, drop, window, window-set, window_congr, drop-window, u32, ok, panic, unwrap_failed,
  get_elem?-set_self, set-set,
}
use uring_ws.Sqe.{Sqe, io_uring_initialize_sqe, send}
use uring_ws.Ring.{IoUring, modify_sqe, get_sqe_unwrap, prep_send}
use uring_ws.Ring.Slots.{
  in_flight, IsValid, next_slot, entries_bounds, appended, appended-IsValid, io_uring_get_sqe_room,
  io_uring_get_sqe_full, next_slot-lt,
}

abbrev pub blank : Sqe
blank = record {
  opcode = 0;
  flags = 0;
  ioprio = 0;
  fd = 0;
  off = 0;
  addr = 0;
  len = 0;
  msg_flags = 0;
  user_data = 0;
  buf_group = 0;
  personality = 0;
  file_index = 0;
  addr3 = 0;
  pad2 = 0;
}

-- The entries that wait for the kernel, oldest first.
abbrev pub queued : IoUring → List Sqe
queued ring = window ring.sqes ring.ring_entries blank ring.khead (in_flight ring)

two_pow_dvd : (j k : ℕ) → (q : ℕ) × (2 ^ (j + k) ≡ 2 ^ k * q)
two_pow_dvd zero k = (1, ground arith)
two_pow_dvd (suc j) k =
    let (q, e) = two_pow_dvd j k in (q * 2, grind (arith, pow-suc 2 (j + k), add.suc j k))

-- A 32-bit counter that wraps keeps its place in the ring.
place :
    {ring : IoUring} (n : ℕ)
    → IsValid ring
    → (n % 2 ^ 32) % ring.ring_entries ≡ n % ring.ring_entries
place {ring} n v =
    let (q, e) = two_pow_dvd (32 - v.order) v.order in
    mod-mod_of_dvd ring.ring_entries n ∣ (
      q,
      ap (λ (t : ℕ). 2 ^ t) {x = 32} {y = 32 - v.order + v.order} (omega (arith, v.order_le))
          ∙ e
          ∙ rw v.entries,
    ) ∣₁

pub next_slot_place :
    {ring : IoUring}
    → IsValid ring
    → next_slot ring ≡ (ring.khead + in_flight ring) % ring.ring_entries
next_slot_place {ring} v =
    ap (λ (t : ℕ). t % ring.ring_entries) (omega (arith, v.head_word, v.tail_word))
    ∙ place (ring.khead + in_flight ring) v

pub queued-appended :
    {ring : IoUring} (new : Sqe)
    → IsValid ring
    → in_flight ring < ring.ring_entries
    → queued (appended ring new) ≡ queued ring ++ (new ∷ [])
queued-appended {ring} new v h =
    ap (window (set ring.sqes (next_slot ring) new) ring.ring_entries blank ring.khead)
      ((appended-IsValid new v h).1 ∙ add-one (in_flight ring))
    ∙ ap
        (λ (i : ℕ).
          window (set ring.sqes i new) ring.ring_entries blank ring.khead (suc (in_flight ring)))
        (next_slot_place v)
    ∙ window-set ring.sqes ring.ring_entries blank new ring.khead (in_flight ring)
        (omega (arith, v.slots)) h

-- A send appends one entry to the queue, filled as asked, if the queue has room, and panics if it
-- is full.
pub prep_send_room :
    (fd ptr len flags : ℕ) {ring : IoUring}
    → IsValid ring
    → in_flight ring < ring.ring_entries
    → (old : Sqe) × (let new = send fd ptr (u32 len) flags (io_uring_initialize_sqe old) in
        prep_send fd ptr len flags ring ≡ ok (appended ring new, next_slot ring))
unfolding prep_send get_sqe_unwrap modify_sqe
prep_send_room fd ptr len flags {ring} v h =
    let (s, e, taking) = io_uring_get_sqe_room v h in
    (
      s,
      rw taking (
          ground (
            arith,
            get_elem?-set_self ring.sqes (next_slot ring) (io_uring_initialize_sqe s),
            next_slot-lt v,
            set-set ring.sqes (next_slot ring) (io_uring_initialize_sqe s)
                (send fd ptr (u32 len) flags (io_uring_initialize_sqe s)),
          )),
    )

pub prep_send_full :
    (fd ptr len flags : ℕ) {ring : IoUring}
    → IsValid ring
    → in_flight ring ≡ ring.ring_entries
    → prep_send fd ptr len flags ring ≡ panic unwrap_failed
unfolding prep_send get_sqe_unwrap
prep_send_full fd ptr len flags v h = rw (io_uring_get_sqe_full v h) refl

-- What the kernel does with the queue: it takes `n` entries from the front.
abbrev pub consumed : ℕ → IoUring → IoUring
consumed n ring = record ring { sq = record (ring.sq) { khead = u32 (ring.khead + n) } }

pub consumed-IsValid :
    {ring : IoUring} (n : ℕ)
    → IsValid ring
    → n ≤ in_flight ring
    → IsValid (consumed n ring) × (in_flight (consumed n ring) ≡ in_flight ring - n)
consumed-IsValid {ring} n v h = (
  record {
    order = v.order;
    order_le = v.order_le;
    entries = v.entries;
    mask = v.mask;
    slots = v.slots;
    head_word = omega arith;
    tail_word = v.tail_word;
    bounded = omega (arith, v.bounded, v.head_word, v.tail_word, entries_bounds v);
  },
  omega (arith, v.bounded, v.head_word, v.tail_word, entries_bounds v),
)

pub queued-consumed :
    {ring : IoUring} (n : ℕ)
    → IsValid ring
    → n ≤ in_flight ring
    → queued (consumed n ring) ≡ drop n (queued ring)
queued-consumed {ring} n v h =
    window_congr ring.sqes ring.ring_entries blank (u32 (ring.khead + n)) (ring.khead + n) _
      (place (ring.khead + n) v)
    ∙ ap (window ring.sqes ring.ring_entries blank (ring.khead + n)) ((consumed-IsValid n v h).1)
    ∙ sym (drop-window ring.sqes ring.ring_entries blank n ring.khead (in_flight ring) h)
