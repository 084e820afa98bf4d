-- ===== src/Cqe/Event.antt =====
-- src/cqe.rs: which completions are accepted, and what they carry.
use uring_ws.Base.{
  ℕ, ◌+◌, ◌-◌, ◌*◌, ◌/◌, ◌%◌, ◌^◌, ◌≤◌, ◌<◌, ◌≡◌, ◌≢◌, arith, true, false, ◌⊎◌, inl, inr, some,
  none, Option, bit_and, bit_and_mask, bit_and_two_pow, get_elem?, leb, ltb, ◌==◌, Bool-cases, ok,
  panic, os_error, overflow, >>=-eq-ok, Result-cases, check,
}
use uring_ws.UserData.{owner_of}
use uring_ws.Memory.{Memory}
use uring_ws.BufRing.{BufRingPool, KernelBuffer, get_read_buf}
use uring_ws.BufRing.Group.{GroupAt, get_read_buf_group}
use uring_ws.Cqe.{Cqe, Completion, attached_buf, from_raw_event}

-- `IORING_CQE_F_BUFFER` and `IORING_CQE_F_BUF_MORE`, as arithmetic.
flag_bits : (flags : ℕ) → (bit_and flags 1 ≡ flags % 2) × (bit_and flags 16 ≡ flags / 16 % 2 * 16)
flag_bits flags = (bit_and_mask 1 flags, bit_and_two_pow 4 flags)

-- A completion with a negative result is an error of the operation: it panics with the error's number
-- before any buffer is looked up (with an overflow at the one i32 that has no absolute value).
pub from_raw_event_error :
    (pool : BufRingPool) (mem : Memory) (cqe : Cqe)
    → 2 ^ 31 ≤ cqe.res
    → cqe.res < 2 ^ 32
    → ((cqe.res ≡ 2 ^ 31) × (from_raw_event pool mem (some cqe) ≡ panic overflow))
      ⊎ ((2 ^ 31 < cqe.res)
          × (from_raw_event pool mem (some cqe) ≡ panic (os_error (2 ^ 32 - cqe.res))))
unfolding from_raw_event
from_raw_event_error pool mem cqe h k = elim (Bool-cases (cqe.res == 2 ^ 31)) [
  | inl e ↦ inl (ground arith, ground arith)
  | inr ne ↦ inr (ground arith, ground arith)
]

-- What an accepted completion carries.
pub record Accepted (cqe : Cqe) (c : Completion) : Type 0 where
  pub same_cqe : c.cqe ≡ cqe
  pub same_data : c.user_data ≡ cqe.user_data
  pub no_error : cqe.res < 2 ^ 31
  pub no_more : cqe.flags / 16 % 2 ≡ 0
  pub buffer :
      ((cqe.flags % 2 ≡ 0) × (c.kernel_buf ≡ none))
      ⊎ ((kb : KernelBuffer) × (cqe.flags % 2 ≡ 1)
          × (c.kernel_buf ≡ some kb)
          × (kb.bid ≡ cqe.flags / 2 ^ 16 % 2 ^ 16)
          × (kb.bgid ≡ owner_of cqe.user_data)
          × (kb.data_len ≡ cqe.res)
          × (0 < kb.data_len))

get_read_buf_fields :
    (pool : BufRingPool) (mem : Memory) (bgid bid data_len : ℕ) (kb : KernelBuffer)
    → get_read_buf pool mem bgid bid data_len ≡ ok kb
    → (kb.bid ≡ bid) × (kb.bgid ≡ bgid) × (kb.data_len ≡ data_len)
unfolding get_read_buf
get_read_buf_fields pool mem bgid bid data_len kb e = ground arith

attached_buf_fields :
    (pool : BufRingPool) (mem : Memory) (cqe : Cqe) (o : Option KernelBuffer)
    → attached_buf pool mem cqe ≡ ok o
    → (kb : KernelBuffer) × (o ≡ some kb)
      × (kb.bid ≡ cqe.flags / 2 ^ 16 % 2 ^ 16)
      × (kb.bgid ≡ owner_of cqe.user_data)
      × (kb.data_len ≡ cqe.res)
      × (0 < kb.data_len)
unfolding attached_buf
attached_buf_fields pool mem cqe o e =
    let (_, pos, e1) = >>=-eq-ok (check (ltb 0 cqe.res)) _ e in
    let (kb, got, e2) =
      >>=-eq-ok
        (get_read_buf pool mem (owner_of cqe.user_data) (cqe.flags / 2 ^ 16 % 2 ^ 16) cqe.res) _
        e1 in
    let fields = get_read_buf_fields pool mem _ _ _ kb got in
    (kb, ground arith, fields.0, fields.1, fields.2, ground arith)

odd_of_flag : (flags : ℕ) → (bit_and flags 1 == 0) ≡ false → flags % 2 ≡ 1
odd_of_flag flags h = ground (arith, (flag_bits flags).0)

accepted_negative :
    (pool : BufRingPool) (mem : Memory) (cqe : Cqe) (c : Completion)
    → leb (2 ^ 31) cqe.res ≡ true
    → from_raw_event pool mem (some cqe) ≢ ok c
unfolding from_raw_event
accepted_negative pool mem cqe c neg e = ground arith

-- Every completion that is accepted has a result that is no error, and a buffer exactly when the
-- kernel says so: the one of the id in the flags, of its owner's group, and not empty.
pub from_raw_event-Accepted :
    (pool : BufRingPool) (mem : Memory) (cqe : Cqe) (c : Completion)
    → from_raw_event pool mem (some cqe) ≡ ok c
    → Accepted cqe c
unfolding from_raw_event
from_raw_event-Accepted pool mem cqe c e =
    let (b0, b4) = flag_bits cqe.flags in
    elim (Bool-cases (leb (2 ^ 31) cqe.res)) [
      | inl neg ↦ absurd (accepted_negative pool mem cqe c neg e)
      | inr fine ↦ elim (Bool-cases (bit_and cqe.flags 1 == 0)) [
        | inl plain ↦ record {
          same_cqe = ground arith;
          same_data = ground arith;
          no_error = ground arith;
          no_more = ground arith;
          buffer = inl (ground arith, ground arith);
        }
        | inr full ↦ elim (Result-cases (attached_buf pool mem cqe)) [
          | inl (o, got) ↦
              let (kb, some_eq, bid, bgid, len, pos) = attached_buf_fields pool mem cqe o got in
              record {
                same_cqe = ground arith;
                same_data = ground arith;
                no_error = ground arith;
                no_more = ground arith;
                buffer = inr (kb, odd_of_flag cqe.flags full, ground arith, bid, bgid, len, pos);
              }
          | inr (p, failed) ↦ absurd (ground arith)
        ]
      ]
    ]

-- With a sound group, a receive that filled a buffer of it is accepted with that very buffer.
pub from_raw_event_recv :
    (base ptr bid : ℕ) (pool : BufRingPool) (mem : Memory) (cqe : Cqe)
    → GroupAt base ptr mem
    → get_elem? pool.buf_ring_ptrs (owner_of cqe.user_data) ≡ some ptr
    → bid < 1024
    → 0 < cqe.res
    → cqe.res ≤ 1500
    → cqe.flags % 2 ≡ 1
    → cqe.flags / 16 % 2 ≡ 0
    → cqe.flags / 2 ^ 16 ≡ bid
    → from_raw_event pool mem (some cqe)
      ≡ ok (record {
        cqe = cqe;
        kernel_buf = some (record {
          addr = base + bid * 1500;
          data_len = cqe.res;
          buf_ring = ptr;
          bid = bid;
          bgid = owner_of cqe.user_data;
          buf_len = 1500;
        });
        user_data = cqe.user_data;
      })
unfolding from_raw_event attached_buf
from_raw_event_recv base ptr bid pool mem cqe g entry hb pos small flag no_more id =
    let (b0, b4) = flag_bits cqe.flags in
    let place : cqe.flags / 2 ^ 16 % 2 ^ 16 ≡ bid = omega arith in
    let found =
      get_read_buf_group base ptr (owner_of cqe.user_data) bid cqe.res pool mem g entry hb small in
    ground (arith, b0, b4, place, found)
