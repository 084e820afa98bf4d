-- ===== src/BufRing/Bytes.antt =====
-- src/buf_ring.rs with src/sys.rs: the ring of buffers as the bytes of the union that the crate and the
-- kernel share. The ring's tail is a field of the header that lies over the first entry.
use uring_ws.Base.{
  ℕ, zero, suc, ◌+◌, ◌*◌, ◌/◌, ◌%◌, ◌^◌, ◌<◌, ◌≡◌, refl, sym, ap, arith, ◌∙◌, bit_and, u16, some,
  List, [], ◌∷◌, ◌++◌, get_elem?, set, length, ok, or_panic, or_panic-eq_ok, undefined, add_checked,
  >>=-cases_ok, ok-injective,
}
use uring_ws.Memory.{IoBuf, BufRing}
use uring_ws.BufRing.{tail_of, set_tail, io_uring_buf_ring_add, io_uring_buf_ring_advance}
use uring_ws.Abi.{struct, placed, offset_of}
use uring_ws.Abi.Buffers.{io_uring_buf, io_uring_buf_fields, io_uring_buf_ring_ty_1_ty_1_fields}

-- The `n` bytes of a word, the lowest first.
abbrev pub le_bytes : (n v : ℕ) → List ℕ
le_bytes zero v = []
le_bytes (suc n) v = v % 256 ∷ le_bytes n (v / 256)

-- The bytes with others written over them from a place on.
abbrev pub write_from : (place : ℕ) → (new bytes : List ℕ) → List ℕ
write_from zero [] bytes = bytes
write_from zero (x ∷ new) [] = []
write_from zero (x ∷ new) (b ∷ bytes) = x ∷ write_from zero new bytes
write_from (suc place) new [] = []
write_from (suc place) new (b ∷ bytes) = b ∷ write_from place new bytes

abbrev pub entry_bytes : IoBuf → List ℕ
entry_bytes b = le_bytes 8 b.addr ++ le_bytes 4 b.len ++ le_bytes 2 b.bid ++ le_bytes 2 b.resv

abbrev pub ring_bytes : BufRing → List ℕ
ring_bytes [] = []
ring_bytes (b ∷ bs) = entry_bytes b ++ ring_bytes bs

-- The word of two bytes at a place.
abbrev pub word_from : (place : ℕ) → List ℕ → ℕ
word_from zero [] = 0
word_from zero (a ∷ []) = a
word_from zero (a ∷ b ∷ bytes) = a + 256 * b
word_from (suc place) [] = 0
word_from (suc place) (b ∷ bytes) = word_from place bytes

write_from-append :
    (xs ys new : List ℕ) (place : ℕ)
    → write_from (length xs + place) new (xs ++ ys) ≡ xs ++ write_from place new ys
write_from-append [] ys new place =
    ap (λ (p : ℕ). write_from p new ys) {x = 0 + place} {y = place} (omega arith)
write_from-append (x ∷ xs) ys new place =
    ap (λ (p : ℕ). write_from p new (x ∷ (xs ++ ys))) {x = suc (length xs) + place}
      {y = suc (length xs + place)} (omega arith)
    ∙ ap (◌∷◌ x) (write_from-append xs ys new place)

set_bytes :
    (br : BufRing) (i addr len bid : ℕ) (old : IoBuf)
    → get_elem? br i ≡ some old
    → ring_bytes (set br i (record old { addr = addr; len = len; bid = bid }))
      ≡ write_from (i * 16) (le_bytes 8 addr ++ le_bytes 4 len ++ le_bytes 2 bid) (ring_bytes br)
set_bytes [] i addr len bid old e = absurd (cc)
set_bytes (b ∷ bs) zero addr len bid old e =
    let same : b ≡ old = cc in
    ap
      (λ (r : ℕ).
        le_bytes 8 addr ++ le_bytes 4 len ++ le_bytes 2 bid ++ le_bytes 2 r ++ ring_bytes bs)
      (ap (λ (o : IoBuf). o.resv) (sym same))
set_bytes (b ∷ bs) (suc i) addr len bid old e =
    let new = le_bytes 8 addr ++ le_bytes 4 len ++ le_bytes 2 bid in
    ap (◌++◌ (entry_bytes b)) (set_bytes bs i addr len bid old e)
    ∙ sym (write_from-append (entry_bytes b) (ring_bytes bs) new (i * 16))
    ∙ ap (λ (p : ℕ). write_from p new (ring_bytes (b ∷ bs))) {x = 16 + i * 16} {y = suc i * 16}
        (omega arith)

tail_bytes : (br : BufRing) → tail_of br < 2 ^ 16 → word_from 14 (ring_bytes br) ≡ tail_of br
unfolding tail_of
tail_bytes [] small = refl
tail_bytes (b ∷ bs) small = omega arith

advance_bytes :
    (br : BufRing) (count : ℕ)
    → ring_bytes (io_uring_buf_ring_advance br count)
      ≡ write_from 14 (le_bytes 2 (u16 (tail_of br + count))) (ring_bytes br)
unfolding io_uring_buf_ring_advance set_tail tail_of
advance_bytes [] count = refl
advance_bytes (b ∷ bs) count = refl

add_bytes :
    (br br' : BufRing) (addr len bid mask buf_offset : ℕ)
    → io_uring_buf_ring_add br addr len bid mask buf_offset ≡ ok br'
    → ring_bytes br'
      ≡ write_from
          (bit_and (tail_of br + buf_offset) mask * 16)
          (le_bytes 8 addr ++ le_bytes 4 len ++ le_bytes 2 bid)
          (ring_bytes br)
unfolding io_uring_buf_ring_add
add_bytes br br' addr len bid mask buf_offset e =
    >>=-cases_ok (add_checked 32 (tail_of br) buf_offset) _ e λ sum fits e1.
      let sum_eq : tail_of br + buf_offset ≡ sum = ground (arith, fits) in
      >>=-cases_ok (or_panic undefined (get_elem? br (bit_and sum mask))) _ e1 λ old found e2.
        ap ring_bytes (sym (ok-injective _ _ e2))
        ∙ set_bytes br (bit_and sum mask) addr len bid old (or_panic-eq_ok _ _ found)
        ∙ ap
            (λ (i : ℕ).
              write_from (bit_and i mask * 16) (le_bytes 8 addr ++ le_bytes 4 len ++ le_bytes 2 bid)
                (ring_bytes br))
            (sym sum_eq)

-- On the bytes of the union, with the sizes and offsets that the declarations have: the tail is the
-- word at the offset of `tail` in the header, adding a buffer writes its address, length and id from
-- the start of the entry at the masked tail on, the entry's other bytes staying as they are, and
-- advancing writes the new tail at the offset of `tail` alone.
pub add_advance_bytes :
    (br br' : BufRing) (addr len bid mask buf_offset count : ℕ)
    → tail_of br < 2 ^ 16
    → io_uring_buf_ring_add br addr len bid mask buf_offset ≡ ok br'
    → (tail_at : ℕ) × (offset_of "tail" (placed struct io_uring_buf_ring_ty_1_ty_1_fields)
        ≡ some tail_at)
      × (offset_of "resv" (placed struct io_uring_buf_fields) ≡ some tail_at)
      × (word_from tail_at (ring_bytes br) ≡ tail_of br)
      × (ring_bytes br'
          ≡ write_from
              (bit_and (tail_of br + buf_offset) mask * io_uring_buf.size)
              (le_bytes 8 addr ++ le_bytes 4 len ++ le_bytes 2 bid)
              (ring_bytes br))
      × (ring_bytes (io_uring_buf_ring_advance br' count)
          ≡ write_from tail_at (le_bytes 2 (u16 (tail_of br' + count))) (ring_bytes br'))
add_advance_bytes br br' addr len bid mask buf_offset count small e = (
  14,
  refl,
  refl,
  tail_bytes br small,
  add_bytes br br' addr len bid mask buf_offset e,
  advance_bytes br' count,
)
