-- ===== src/BufRing/Init.antt =====
-- src/buf_ring.rs: `new_buffer_group` lends every buffer of a fresh block to the kernel.
use uring_ws.Base.{
  ℕ, zero, suc, ◌+◌, ◌*◌, ◌%◌, ◌≤◌, ◌<◌, ◌≡◌, ◌≢◌, refl, sym, subst, arith, ◌∙◌, ap, u16, u32, some,
  get_elem?, get_elem?_total, get_elem?-none, or_panic, set, length, length-set, Result, ok, panic,
  unwrap, out_of_bounds, ◌>>=◌,
}
use native.Mathlib.Decide.{ℕ_discrete}
use uring_ws.Memory.{IoBuf, BufRing, Memory, store, deref}
use uring_ws.BufRing.{
  BufRingPool, Platform, Layout, tail_of, io_uring_buf_ring_mask, io_uring_buf_ring_add,
  io_uring_buf_ring_advance, add_buffers, new_buffer_group, rust_io_uring_setup_buf_ring,
  alloc_layout_buffers, page_size,
}
use uring_ws.BufRing.Group.{GroupAt}
use uring_ws.BufRing.Places.{
  Holds, IsGroup, Holds-set, Holds-advance, io_uring_buf_ring_add_lem, tail_of-set, tail_of-advance,
  length-advance,
}

-- The first `i` places of a ring that has not been advanced yet hold their buffers.
record Filled (base i : ℕ) (ring : BufRing) : Type 0 where
  size : length ring ≡ 1024
  tail_zero : tail_of ring ≡ 0
  places : (j : ℕ) → j < i → Holds base ring j j

add_cong :
    (base i : ℕ) (ring : BufRing) (b o : ℕ)
    → b ≡ i
    → o ≡ i
    → io_uring_buf_ring_add ring (base + i * 1500) 1500 b 1023 o
      ≡ io_uring_buf_ring_add ring (base + i * 1500) 1500 i 1023 i
add_cong base i ring b o p q = cc

add_one :
    (base i : ℕ) (ring : BufRing)
    → i < 1024
    → Filled base i ring
    → (ring' : BufRing) × (io_uring_buf_ring_add ring (base + i * 1500) 1500 (u16 i) 1023 (u32 i)
        ≡ ok ring')
      × Filled base (i + 1) ring'
add_one base i ring h f =
    let (old, e, added) =
      io_uring_buf_ring_add_lem ring (base + i * 1500) 1500 i i f.size (omega (arith, f.tail_zero))
        (omega arith) in
    let same : (tail_of ring + i) % 1024 ≡ i = omega (arith, f.tail_zero) in
    let new : IoBuf = record old { addr = base + i * 1500; len = 1500; bid = i } in
    let (here, others) = Holds-set base ring i i old (omega (arith, f.size)) in
    let narrow : io_uring_buf_ring_add ring (base + i * 1500) 1500 (u16 i) 1023 (u32 i)
        ≡ io_uring_buf_ring_add ring (base + i * 1500) 1500 i 1023 i =
      add_cong base i ring (u16 i) (u32 i) (omega arith) (omega arith) in
    (
      set ring i new,
      narrow ∙ added ∙ ap (λ (k : ℕ). ok (set ring k new)) same,
      record {
        size = length-set ring i new ∙ f.size;
        tail_zero =
            tail_of-set ring i (base + i * 1500) 1500 i old (ap (get_elem? ring) (sym same) ∙ e)
            ∙ f.tail_zero;
        places = λ j hj. elim (ℕ_discrete i j) [
          | yes p ↦ subst (λ k. Holds base (set ring i new) k k) p here
          | no ne ↦ others j j ne (f.places j (omega arith))
        ];
      },
    )

add_buffers-Filled :
    (left i base : ℕ) (ring : BufRing)
    → i + left ≡ 1024
    → Filled base i ring
    → (ring' : BufRing) × (add_buffers left i 1024 base ring ≡ ok ring') × Filled base 1024 ring'
unfolding add_buffers io_uring_buf_ring_mask
add_buffers-Filled zero i base ring e f =
    (ring, refl, subst (λ k. Filled base k ring) (omega arith) f)
add_buffers-Filled (suc left) i base ring e f =
    let (mid, added, g) = add_one base i ring (omega arith) f in
    let (ring', rest, done) = add_buffers-Filled left (i + 1) base mid (omega arith) g in
    (ring', rw added rest, done)

-- What the outside gives to a call that goes well: a ring of 1024 entries whose tail is 0, as
-- io_uring_setup_buf_ring(3) documents, and a block for the buffers.
pub record Supplied (platform : Platform) (mem : Memory) (bgid ptr base : ℕ) : Type 0 where
  pub ret : ℕ
  pub fresh : BufRing
  pub layout : Layout
  pub ring_set_up : platform.setup_buf_ring mem 1024 bgid ≡ (ptr, ret, fresh)
  pub ring_not_null : ptr ≢ 0
  pub ring_size : length fresh ≡ 1024
  pub ring_empty : tail_of fresh ≡ 0
  pub layout_lem : platform.from_size_align (1024 * 1500) (platform.sysconf_page_size) ≡ some layout
  pub block : platform.alloc layout ≡ base
  pub block_not_null : base ≢ 0

-- The call up to the pool's entry.
new_buffer_group_steps :
    (platform : Platform) (pool : BufRingPool) (mem : Memory) (bgid ptr base : ℕ)
    → (s : Supplied platform mem bgid ptr base) → (filled : BufRing)
    → add_buffers 1024 0 1024 base s.fresh ≡ ok filled
    → new_buffer_group platform pool mem bgid ≡ (
        or_panic out_of_bounds (get_elem? pool.buf_ring_ptrs bgid) >>= λ old. ok (
          record pool { buf_ring_ptrs = set pool.buf_ring_ptrs bgid ptr },
          store (store mem ptr s.fresh) ptr (io_uring_buf_ring_advance filled 1024),
          ptr,
        ))
unfolding new_buffer_group rust_io_uring_setup_buf_ring alloc_layout_buffers page_size
new_buffer_group_steps platform pool mem bgid ptr base s filled e =
    ground (arith, s.ring_set_up, s.ring_not_null, s.layout_lem, s.block, s.block_not_null)

fresh-Filled :
    (platform : Platform) (mem : Memory) (bgid ptr base : ℕ)
    → (s : Supplied platform mem bgid ptr base) → Filled base 0 s.fresh
fresh-Filled platform mem bgid ptr base s = record {
  size = s.ring_size;
  tail_zero = s.ring_empty;
  places = λ j h. absurd (omega arith);
}

advanced-IsGroup :
    (base : ℕ) (ring : BufRing)
    → Filled base 1024 ring
    → IsGroup base (io_uring_buf_ring_advance ring 1024)
      × (tail_of (io_uring_buf_ring_advance ring 1024) ≡ 1024)
advanced-IsGroup base ring f =
    let tail : tail_of (io_uring_buf_ring_advance ring 1024) ≡ 1024 =
      tail_of-advance ring 1024 (omega (arith, f.size)) ∙ omega (arith, f.tail_zero) in
    (
      record {
        size = length-advance ring 1024 ∙ f.size;
        tail_word = omega (arith, tail);
        places = λ i h. Holds-advance base ring 1024 i i (f.places i h);
      },
      tail,
    )

-- A new group lends all 1024 buffers of the block to the kernel, each at the place of its id, and
-- the pool's entry leads to it.
pub new_buffer_group_lends_all :
    (platform : Platform) (pool : BufRingPool) (mem : Memory) (bgid ptr base : ℕ)
    → Supplied platform mem bgid ptr base
    → bgid < length pool.buf_ring_ptrs
    → (mem' : Memory) × (new_buffer_group platform pool mem bgid
        ≡ ok (record { buf_ring_ptrs = set pool.buf_ring_ptrs bgid ptr }, mem', ptr))
      × (g : GroupAt base ptr mem') × (tail_of g.ring ≡ 1024)
new_buffer_group_lends_all platform pool mem bgid ptr base s h =
    let (filled, e, f) =
      add_buffers-Filled 1024 0 base s.fresh refl (fresh-Filled platform mem bgid ptr base s) in
    let (old, held) = get_elem?_total pool.buf_ring_ptrs bgid h in
    let (group, tail) = advanced-IsGroup base filled f in
    (
      store (store mem ptr s.fresh) ptr (io_uring_buf_ring_advance filled 1024),
      rw (new_buffer_group_steps platform pool mem bgid ptr base s filled e, held) refl,
      record {
        ring = io_uring_buf_ring_advance filled 1024;
        not_null = s.ring_not_null;
        there = ground arith;
        group = group;
      },
      tail,
    )

-- A last step that differs is seen after all the steps before it.
last_step :
    {A B C : Type 0} (step : Result A) (f : A → Result C) (g : A → Result B) (h : B → Result C)
    → ((a : A) → f a ≡ (g a >>= h))
    → (step >>= f) ≡ ((step >>= g) >>= h)
last_step (ok a) f g h e = e a
last_step (panic p) f g h e = refl

-- A group id beyond the pool panics only after the group has been set up in full, whatever the outside
-- gives: the call ends as it does on a pool that has the place, where that panics, and with the index
-- out of bounds where that returns.
pub new_buffer_group_out_of_range :
    (platform : Platform) (pool roomy : BufRingPool) (mem : Memory) (bgid : ℕ)
    → length pool.buf_ring_ptrs ≤ bgid
    → bgid < length roomy.buf_ring_ptrs
    → new_buffer_group platform pool mem bgid
      ≡ (new_buffer_group platform roomy mem bgid >>= λ group. panic out_of_bounds)
unfolding new_buffer_group
new_buffer_group_out_of_range platform pool roomy mem bgid beyond inside =
    let (old, held) = get_elem?_total roomy.buf_ring_ptrs bgid inside in
    last_step (rust_io_uring_setup_buf_ring platform mem 1024 bgid) _ _ _ λ reply.
      last_step (unwrap reply) _ _ _ λ made. last_step (deref made.1 made.0) _ _ _ λ br.
        last_step (unwrap (alloc_layout_buffers platform 1024 1500 (page_size platform))) _ _ _
          λ layout. last_step _ _ _ _ λ addr.
            last_step (add_buffers 1024 0 1024 addr br) _ _ _
              λ filled. (rw (get_elem?-none pool.buf_ring_ptrs bgid beyond, held) refl)
