-- ===== src/Tests/Buffers.antt =====
-- A buffer group of src/buf_ring.rs on a small platform, and a run of it.
use uring_ws.Base.{
  ℕ, zero, suc, ◌+◌, ◌*◌, ◌%◌, ◌^◌, ◌≤◌, ◌<◌, ◌≡◌, ◌≢◌, refl, arith, ap, some, none, [], ◌∷◌,
  length, get_elem?, ok, panic, ◌>>=◌, explicit, out_of_bounds,
}
use uring_ws.Memory.{BufRing, Memory}
use uring_ws.BufRing.{
  BufRingPool, KernelBuffer, Platform, tail_of, get_read_buf, buf_ring_add_advance,
  new_buffer_group,
}
use uring_ws.BufRing.Group.{GroupAt, give_back_out_of_turn}
use uring_ws.BufRing.Places.{Holds}
use uring_ws.BufRing.Init.{Supplied, new_buffer_group_lends_all, new_buffer_group_out_of_range}
use uring_ws.BufRing.Cycle.{Posted, Cycle, outstanding, takes, completes}
use uring_ws.BufRing.Cycle.Sound.{Reach, here, next}
use uring_ws.BufRing.Cycle.Ownership.{Runs, fresh_cycle, completion_finds_buffer, outstanding_once}
use uring_ws.Cqe.{Cqe}

pub blank_ring : ℕ → BufRing
blank_ring zero = []
blank_ring (suc n) = record { addr = 0; len = 0; bid = 0; resv = 0 } ∷ blank_ring n

length-blank_ring : (n : ℕ) → length (blank_ring n) ≡ n
unfolding blank_ring
length-blank_ring zero = refl
length-blank_ring (suc n) = ap suc (length-blank_ring n)

tail_of-blank_ring : (n : ℕ) → tail_of (blank_ring n) ≡ 0
unfolding tail_of blank_ring
tail_of-blank_ring zero = refl
tail_of-blank_ring (suc n) = refl

-- Rings stand at address 8, and blocks of buffers at 4096.
abbrev pub platform : Platform
platform = record {
  setup_buf_ring = λ mem nentries bgid. (8, 0, blank_ring nentries);
  from_size_align = λ size align. some (size, align);
  alloc = λ layout. 4096;
  sysconf_page_size = 4096;
}

abbrev pub no_memory : Memory
no_memory = record { rings = λ p. none; bytes = λ a. 0 }

abbrev pub two_groups : BufRingPool
two_groups = record { buf_ring_ptrs = 0 ∷ 0 ∷ [] }

abbrev three_groups : BufRingPool
three_groups = record { buf_ring_ptrs = 0 ∷ 0 ∷ 0 ∷ [] }

pub supplied : (bgid : ℕ) → Supplied platform no_memory bgid 8 4096
supplied bgid = record {
  ret = 0;
  fresh = blank_ring 1024;
  layout = (1024 * 1500, 4096);
  ring_set_up = refl;
  ring_not_null = omega arith;
  ring_size = length-blank_ring 1024;
  ring_empty = tail_of-blank_ring 1024;
  layout_lem = refl;
  block = refl;
  block_not_null = omega arith;
}

abbrev pub pool : BufRingPool
pool = record { buf_ring_ptrs = 0 ∷ 8 ∷ [] }

new_buffer_group_lends_all_example :
    (mem' : Memory) × (new_buffer_group platform two_groups no_memory 1 ≡ ok (pool, mem', 8))
    × (g : GroupAt 4096 8 mem') × (tail_of g.ring ≡ 1024)
new_buffer_group_lends_all_example =
    new_buffer_group_lends_all platform two_groups no_memory 1 8 4096 (supplied 1) (omega arith)

new_buffer_group_out_of_range_example :
    new_buffer_group platform two_groups no_memory 2
    ≡ (new_buffer_group platform three_groups no_memory 2 >>= λ group. panic out_of_bounds)
new_buffer_group_out_of_range_example =
    new_buffer_group_out_of_range platform two_groups three_groups no_memory 2 (omega arith)
      (omega arith)

pub made :
    (mem' : Memory) × (new_buffer_group platform two_groups no_memory 1 ≡ ok (pool, mem', 8))
    × (g : GroupAt 4096 8 mem') × (tail_of g.ring ≡ 1024)
made = new_buffer_group_lends_all platform two_groups no_memory 1 8 4096 (supplied 1) (omega arith)

abbrev pub group : GroupAt 4096 8 made.0
group = made.2

abbrev pub place : (i : ℕ) → i < 1024 → Holds 4096 group.ring i i
place = group.group.places

-- The kernel fills the first two buffers; the program handles the first completion.
abbrev pub start : Cycle
start = fresh_cycle made.0

abbrev pub first_posted : Posted
first_posted = record { bid = (place 0 (omega arith)).buf.bid; data_len = 100 }

abbrev pub second_posted : Posted
second_posted = record { bid = (place 1 (omega arith)).buf.bid; data_len = 1500 }

abbrev pub one_filled : Cycle
one_filled = record start {
  mem = record (start.mem) { bytes = λ a. 7 };
  head = 1;
  posted = first_posted ∷ [];
}

abbrev pub two_filled : Cycle
two_filled = record one_filled { head = 2; posted = first_posted ∷ second_posted ∷ [] }

one_step : Reach pool 1 8 4096 start one_filled
one_step = next here (
    takes start group.ring (place 0 (omega arith)).buf 100 (λ a. 7) group.there
      (omega (arith, made.3)) (place 0 (omega arith)).at_place
      (omega (arith, (place 0 (omega arith)).len_lem)))

two_steps : Reach pool 1 8 4096 start two_filled
two_steps = next one_step (
    takes one_filled group.ring (place 1 (omega arith)).buf 1500 (λ a. 7) group.there
      (omega (arith, made.3)) (place 1 (omega arith)).at_place
      (omega (arith, (place 1 (omega arith)).len_lem)))

abbrev pub runs : (now : Cycle) → Reach pool 1 8 4096 start now → Runs platform 1 8 4096 now
runs now run = record {
  before = two_groups;
  mem = no_memory;
  pool = pool;
  mem' = made.0;
  supplied = supplied 1;
  in_range = omega arith;
  created = made.1;
  run = run;
}

abbrev pub first_buffer : KernelBuffer
first_buffer = record {
  addr = 4096 + first_posted.bid * 1500;
  data_len = 100;
  buf_ring = 8;
  bid = first_posted.bid;
  bgid = 1;
  buf_len = 1500;
}

completion_finds_buffer_example :
    get_read_buf pool two_filled.mem 1 first_posted.bid 100 ≡ ok first_buffer
completion_finds_buffer_example =
    completion_finds_buffer platform 1 8 4096 two_filled first_posted (second_posted ∷ [])
      (runs two_filled two_steps) refl

abbrev pub one_lent : Cycle
one_lent = record two_filled { posted = second_posted ∷ []; lent = first_buffer ∷ [] }

pub three_steps : Reach pool 1 8 4096 start one_lent
three_steps = next two_steps (
    completes two_filled first_posted (second_posted ∷ []) first_buffer refl (
      completion_finds_buffer platform 1 8 4096 two_filled first_posted (second_posted ∷ [])
        (runs two_filled two_steps) refl))

outstanding_once_example :
    (get_elem? (outstanding one_lent) 0 ≢ get_elem? (outstanding one_lent) 1)
    × (length (outstanding one_lent) ≤ 1024)
outstanding_once_example =
    outstanding_once platform 1 8 4096 one_lent 0 1 (runs one_lent three_steps) (omega arith)
      (omega arith)

-- Buffer 5 is given back while buffer 0 is due.
abbrev fifth : KernelBuffer
fifth = record { addr = 11596; data_len = 9; buf_ring = 8; bid = 5; bgid = 1; buf_len = 1500 }

give_back_out_of_turn_example :
    (mem' : Memory) × (buf_ring_add_advance fifth made.0 ≡ ok mem')
    × (get_read_buf pool mem' 1 (tail_of group.ring % 1024) 9 ≡ panic explicit)
give_back_out_of_turn_example =
    give_back_out_of_turn 4096 8 1 9 pool made.0 fifth group refl
      (record {
        lent_addr = refl;
        lent_len = refl;
        lent_ring = refl;
        lent_bid = omega arith;
        lent_data = omega arith;
      })
      (omega (arith, made.3))

-- Buffer 7 with 64 bytes, and more to come.
abbrev received : Cqe
received = record { user_data = 0; res = 64; flags = 7 * 2 ^ 16 + 3 }

abbrev pub zero_pool : BufRingPool
zero_pool = record { buf_ring_ptrs = 8 ∷ [] }

abbrev seventh : KernelBuffer
seventh = record { addr = 14596; data_len = 64; buf_ring = 8; bid = 7; bgid = 0; buf_len = 1500 }
