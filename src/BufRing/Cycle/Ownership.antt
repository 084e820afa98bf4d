-- ===== src/BufRing/Cycle/Ownership.antt =====
-- src/buf_ring.rs with src/cqe.rs and src/read_buf.rs: who owns the buffers of a group, from
-- `new_buffer_group` on and over every run.
use uring_ws.Base.{
  ℕ, zero, suc, ◌+◌, ◌*◌, ◌%◌, ◌≤◌, ◌<◌, ◌≡◌, ◌≢◌, refl, sym, subst, arith, ◌∙◌, ap, ap₂, ◌^◌, some,
  List, [], ◌∷◌, ◌++◌, map, get_elem?, get_elem?-set_self, set, length, ok,
}
use uring_ws.Memory.{Memory}
use uring_ws.BufRing.{
  Platform, BufRingPool, KernelBuffer, tail_of, buf_ring_add_advance, get_read_buf,
  new_buffer_group,
}
use uring_ws.BufRing.Group.{GroupAt}
use uring_ws.BufRing.Init.{Supplied, new_buffer_group_lends_all}
use uring_ws.BufRing.Cycle.{Posted, Cycle, ids, outstanding, IsSound}
use uring_ws.BufRing.Cycle.Progress.{sound_completes, sound_drops, all_returned}
use uring_ws.BufRing.Cycle.Sound.{Reach, Reach-IsSound, length-ids}

-- A group that has just been set up: the kernel has all the buffers.
abbrev pub fresh_cycle : Memory → Cycle
fresh_cycle mem = record { mem = mem; head = 0; posted = []; lent = [] }

-- A run of a group from its creation, on a supplied platform.
pub record Runs (platform : Platform) (bgid ptr base : ℕ) (now : Cycle) : Type 0 where
  pub before : BufRingPool
  pub mem : Memory
  pub pool : BufRingPool
  pub mem' : Memory
  pub supplied : Supplied platform mem bgid ptr base
  pub in_range : bgid < length before.buf_ring_ptrs
  pub created : new_buffer_group platform before mem bgid ≡ ok (pool, mem', ptr)
  pub run : Reach pool bgid ptr base (fresh_cycle mem') now

differ : (a b : ℕ) → a ≢ b → some a ≡ some b → ⊥
differ a b ne e = ne (cc)

created_eq :
    (platform : Platform) (bgid ptr base : ℕ) (before pool : BufRingPool) (mem mem' : Memory)
    → Supplied platform mem bgid ptr base
    → bgid < length before.buf_ring_ptrs
    → new_buffer_group platform before mem bgid ≡ ok (pool, mem', ptr)
    → (get_elem? pool.buf_ring_ptrs bgid ≡ some ptr)
      × (g : GroupAt base ptr mem') × (tail_of g.ring ≡ 1024)
created_eq platform bgid ptr base before pool mem mem' s h e =
    let (mem2, made, g, tail) = new_buffer_group_lends_all platform before mem bgid ptr base s h in
    let both = sym e ∙ made in
    let pool_eq : pool.buf_ring_ptrs ≡ set before.buf_ring_ptrs bgid ptr = ground (arith, both) in
    let mem_eq : mem2 ≡ mem' = ground (arith, both) in
    let at : (g : GroupAt base ptr mem') × (tail_of g.ring ≡ 1024) =
      subst (λ m. (g : GroupAt base ptr m) × (tail_of g.ring ≡ 1024)) mem_eq (g, tail) in
    (rw pool_eq (get_elem?-set_self before.buf_ring_ptrs bgid ptr h), at.0, at.1)

pub fresh_cycle-IsSound :
    (pool : BufRingPool) (bgid ptr base : ℕ) (mem : Memory) (g : GroupAt base ptr mem)
    → tail_of g.ring ≡ 1024
    → IsSound pool bgid ptr base (fresh_cycle mem)
fresh_cycle-IsSound pool bgid ptr base mem g tail = record {
  at_ptr = g;
  head_word = omega arith;
  out = 0;
  out_le = omega arith;
  counts = omega (arith, tail);
  in_order = refl;
  lent_sound = tt;
  posted_sound = tt;
}

runs-IsSound :
    {platform : Platform} {bgid ptr base : ℕ} {now : Cycle} (r : Runs platform bgid ptr base now)
    → (get_elem? r.pool.buf_ring_ptrs bgid ≡ some ptr) × IsSound r.pool bgid ptr base now
runs-IsSound {platform} {bgid} {ptr} {base} r =
    let (entry, g, tail) =
      created_eq platform bgid ptr base r.before r.pool r.mem r.mem' r.supplied r.in_range
        r.created in
    (entry, Reach-IsSound entry (fresh_cycle-IsSound r.pool bgid ptr base r.mem' g tail) r.run)

-- In every run of a new group, the oldest completion that waits finds its buffer without a panic, and
-- is lent the buffer of its id in the block, with its full size.
pub completion_finds_buffer :
    (platform : Platform) (bgid ptr base : ℕ) (now : Cycle) (p : Posted) (rest : List Posted)
    → (r : Runs platform bgid ptr base now) → now.posted ≡ p ∷ rest
    → get_read_buf r.pool now.mem bgid p.bid p.data_len
      ≡ ok (record {
        addr = base + p.bid * 1500;
        data_len = p.data_len;
        buf_ring = ptr;
        bid = p.bid;
        bgid = bgid;
        buf_len = 1500;
      })
completion_finds_buffer platform bgid ptr base now p rest r first =
    let (entry, s) = runs-IsSound r in sound_completes now p rest entry s first

-- In every run of a new group, dropping the reader's oldest buffer gives it back without a panic.
drop_gives_back :
    (platform : Platform) (bgid ptr base : ℕ) (now : Cycle) (kb : KernelBuffer)
    (rest : List KernelBuffer)
    → Runs platform bgid ptr base now
    → now.lent ≡ kb ∷ rest
    → (mem : Memory) × (buf_ring_add_advance kb now.mem ≡ ok mem)
drop_gives_back platform bgid ptr base now kb rest r first =
    sound_drops now kb rest (runs-IsSound r).1 first

get_elem?-ids : (t n i : ℕ) → i < n → get_elem? (ids t n) i ≡ some ((t + i) % 1024)
get_elem?-ids t zero i h = absurd (omega arith)
get_elem?-ids t (suc n) zero h = ap (λ (j : ℕ). some (j % 1024)) {x = t} {y = t + 0} (omega arith)
get_elem?-ids t (suc n) (suc i) h =
    get_elem?-ids (t + 1) n i (omega arith)
    ∙ ap (λ (j : ℕ). some (j % 1024)) {x = t + 1 + i} {y = t + suc i} (omega arith)

module _ {pool : BufRingPool} {bgid ptr base : ℕ} where
  pub sound_once :
      (c : Cycle) (s : IsSound pool bgid ptr base c) (i j : ℕ)
      → i < j
      → j < length (outstanding c)
      → get_elem? (outstanding c) i ≢ get_elem? (outstanding c) j
  sound_once c s i j h hj e =
      let t = tail_of s.at_ptr.ring in
      let size : length (outstanding c) ≡ s.out = ap length s.in_order ∙ length-ids t s.out in
      differ ((t + i) % 1024) ((t + j) % 1024) (omega (arith, s.out_le)) (
        sym (get_elem?-ids t s.out i (omega arith))
        ∙ ap (λ l. get_elem? l i) (sym s.in_order)
        ∙ e
        ∙ ap (λ l. get_elem? l j) s.in_order
        ∙ get_elem?-ids t s.out j (omega arith))

  pub sound_few : (c : Cycle) → IsSound pool bgid ptr base c → length (outstanding c) ≤ 1024
  sound_few c s =
      omega (arith, s.out_le, ap length s.in_order ∙ length-ids (tail_of s.at_ptr.ring) s.out)

-- In every run of a new group, no buffer is with the program twice: the ids of the buffers that it
-- holds or that wait in completions differ, and are 1024 at most.
pub outstanding_once :
    (platform : Platform) (bgid ptr base : ℕ) (now : Cycle) (i j : ℕ)
    → Runs platform bgid ptr base now
    → i < j
    → j < length (outstanding now)
    → (get_elem? (outstanding now) i ≢ get_elem? (outstanding now) j)
      × (length (outstanding now) ≤ 1024)
outstanding_once platform bgid ptr base now i j r h hj =
    let s = (runs-IsSound r).1 in (sound_once now s i j h hj, sound_few now s)

-- From every state that a run of a new group reaches, the program can go on by its own steps until no
-- completion waits and no buffer is lent, and then the kernel has all 1024 buffers again: no run
-- loses a buffer or gets stuck.
pub every_buffer_can_return :
    (platform : Platform) (bgid ptr base : ℕ) (now : Cycle)
    → (r : Runs platform bgid ptr base now)
    → (later : Cycle) × Reach r.pool bgid ptr base now later
      × (later.posted ≡ [])
      × (later.lent ≡ [])
      × (g : GroupAt base ptr later.mem) × (tail_of g.ring % 2 ^ 16 ≡ (now.head + 1024) % 2 ^ 16)
every_buffer_can_return platform bgid ptr base now r =
    let (entry, s) = runs-IsSound r in
    let on = all_returned now entry s in
    let left : [] ≡ ids (tail_of on.sound.at_ptr.ring) on.sound.out =
      ap₂ (λ l ps. map (λ kb. kb.bid) l ++ map (λ p. p.bid) ps) (sym on.goal.1) (sym on.goal.0)
      ∙ on.sound.in_order in
    let none_out : 0 ≡ on.sound.out = ap length left ∙ length-ids _ on.sound.out in
    (
      on.later,
      on.reach,
      on.goal.0,
      on.goal.1,
      on.sound.at_ptr,
      omega (arith, none_out, on.sound.counts, on.same_head),
    )
