-- ===== src/BufRing/Places.antt =====
-- src/buf_ring.rs: what the places of a buffer ring hold, and what adding a buffer and moving the tail
-- do to them. The tail shares memory with the first entry.
use uring_ws.Base.{
  ℕ, zero, suc, ◌+◌, ◌*◌, ◌%◌, ◌^◌, ◌<◌, ◌≡◌, ◌≢◌, refl, arith, ◌∙◌, bit_and_mask, u16, some, [],
  ◌∷◌, get_elem?, set, length, get_elem?-set_self, get_elem?-set_ne, get_elem?_total, ok,
}
use uring_ws.Memory.{IoBuf, BufRing}
use uring_ws.BufRing.{tail_of, io_uring_buf_ring_add, io_uring_buf_ring_advance}

-- Place `i` of the ring holds the buffer `bid` of the block at `base`.
pub record Holds (base : ℕ) (ring : BufRing) (i bid : ℕ) : Type 0 where
  pub buf : IoBuf
  pub at_place : get_elem? ring i ≡ some buf
  pub addr_lem : buf.addr ≡ base + bid * 1500
  pub len_lem : buf.len ≡ 1500
  pub bid_lem : buf.bid ≡ bid

pub record IsGroup (base : ℕ) (ring : BufRing) : Type 0 where
  pub size : length ring ≡ 1024
  pub tail_word : tail_of ring < 2 ^ 16
  pub places : (i : ℕ) → i < 1024 → Holds base ring i i

-- The tail lies over a field of the first entry that adding a buffer leaves alone.
pub tail_of-set :
    (ring : BufRing) (i addr len bid : ℕ) (old : IoBuf)
    → get_elem? ring i ≡ some old
    → tail_of (set ring i (record old { addr = addr; len = len; bid = bid })) ≡ tail_of ring
unfolding tail_of
tail_of-set [] i addr len bid old e = refl
tail_of-set (b ∷ bs) zero addr len bid old e = ground arith
tail_of-set (b ∷ bs) (suc i) addr len bid old e = refl

pub tail_of-advance :
    (ring : BufRing) (n : ℕ)
    → 0 < length ring
    → tail_of (io_uring_buf_ring_advance ring n) ≡ u16 (tail_of ring + n)
unfolding io_uring_buf_ring_advance
tail_of-advance [] n h = absurd (omega arith)
tail_of-advance (b ∷ bs) n h = refl

pub length-advance :
    (ring : BufRing) (n : ℕ) → length (io_uring_buf_ring_advance ring n) ≡ length ring
unfolding io_uring_buf_ring_advance
length-advance [] n = refl
length-advance (b ∷ bs) n = refl

-- Moving the tail leaves what each place holds.
pub Holds-advance :
    (base : ℕ) (ring : BufRing) (n i bid : ℕ)
    → Holds base ring i bid
    → Holds base (io_uring_buf_ring_advance ring n) i bid
unfolding io_uring_buf_ring_advance
Holds-advance base [] n i bid h = h
Holds-advance base (b ∷ bs) n zero bid h = record {
  buf = record b { resv = u16 (b.resv + n) };
  at_place = refl;
  addr_lem = ground (arith, h.at_place, h.addr_lem);
  len_lem = ground (arith, h.at_place, h.len_lem);
  bid_lem = ground (arith, h.at_place, h.bid_lem);
}
Holds-advance base (b ∷ bs) n (suc i) bid h = record {
  buf = h.buf;
  at_place = h.at_place;
  addr_lem = h.addr_lem;
  len_lem = h.len_lem;
  bid_lem = h.bid_lem;
}

-- A buffer is added at the place that the tail and the offset name.
pub io_uring_buf_ring_add_lem :
    (ring : BufRing) (addr len bid offset : ℕ)
    → length ring ≡ 1024
    → tail_of ring < 2 ^ 16
    → offset < 2 ^ 16
    → let i = (tail_of ring + offset) % 1024 in
      (old : IoBuf) × (get_elem? ring i ≡ some old)
      × (io_uring_buf_ring_add ring addr len bid 1023 offset
          ≡ ok (set ring i (record old { addr = addr; len = len; bid = bid })))
unfolding io_uring_buf_ring_add
io_uring_buf_ring_add_lem ring addr len bid offset size word small =
    let i = (tail_of ring + offset) % 1024 in
    let (old, e) = get_elem?_total ring i (omega arith) in
    (old, e, ground (arith, bit_and_mask 10 (tail_of ring + offset), e))

-- Writing buffer `bid` of the block to a place: that place holds it, and the others keep theirs.
pub Holds-set :
    (base : ℕ) (ring : BufRing) (i bid : ℕ) (old : IoBuf)
    → i < length ring
    → let ring' = set ring i (record old { addr = base + bid * 1500; len = 1500; bid = bid }) in
      Holds base ring' i bid × ((j b : ℕ) → i ≢ j → Holds base ring j b → Holds base ring' j b)
Holds-set base ring i bid old h =
    let new : IoBuf = record old { addr = base + bid * 1500; len = 1500; bid = bid } in
    (
      record {
        buf = new;
        at_place = get_elem?-set_self ring i new h;
        addr_lem = refl;
        len_lem = refl;
        bid_lem = refl;
      },
      λ j b ne held. record {
        buf = held.buf;
        at_place = get_elem?-set_ne ring i j new ne ∙ held.at_place;
        addr_lem = held.addr_lem;
        len_lem = held.len_lem;
        bid_lem = held.bid_lem;
      },
    )
