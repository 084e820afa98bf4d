-- ===== src/BufRing/Cycle/Apart.antt =====
-- src/buf_ring.rs with src/read_buf.rs: the buffer that the kernel fills next is none of those that the
-- program still has.
use mathlib.Core.List.{map-append}
use uring_ws.Base.{
  ℕ, suc, ◌+◌, ◌*◌, ◌%◌, ◌<◌, ◌≡◌, ◌≢◌, refl, sym, arith, ◌∙◌, ap, some, List, [], ◌∷◌, ◌++◌, map,
  get_elem?, get_elem?-snoc, length, length-append, append_assoc,
}
use uring_ws.Memory.{IoBuf, BufRing}
use uring_ws.BufRing.{BufRingPool, KernelBuffer, tail_of}
use uring_ws.BufRing.Cycle.{Posted, Cycle, outstanding, All, takes, IsSound}
use uring_ws.BufRing.Cycle.Sound.{Step-IsSound, found_at}
use uring_ws.BufRing.Cycle.Ownership.{sound_once}

-- Where the last of a list differs from all before it.
last_differs :
    (l : List ℕ) (b : ℕ)
    → ((i : ℕ) → i < length l → get_elem? (l ++ (b ∷ [])) i ≢ some b)
    → All (λ x. x ≢ b) l
last_differs [] b h = tt
last_differs (x ∷ l) b h =
    (λ e. h 0 (omega arith) (ap some e), last_differs l b (λ i lt. h (suc i) (omega arith)))

All-append_left : (P : ℕ → Type 0) (xs ys : List ℕ) → All P (xs ++ ys) → All P xs × All P ys
All-append_left P [] ys h = (tt, h)
All-append_left P (x ∷ xs) ys h =
    let (left, right) = All-append_left P xs ys h.1 in ((h.0, left), right)

All-map {ℓ} :
    {A : Type ℓ} (P : ℕ → Type 0) (f : A → ℕ) (xs : List A)
    → All P (map f xs)
    → All (λ a. P (f a)) xs
All-map P f [] h = tt
All-map P f (x ∷ xs) h = (h.0, All-map P f xs h.1)

-- The buffer at the kernel's head: where its bytes are, and that the program does not have it.
pub record Fillable (base : ℕ) (c : Cycle) (buf : IoBuf) : Type 0 where
  pub addr_lem : buf.addr ≡ base + buf.bid * 1500
  pub len_lem : buf.len ≡ 1500
  pub not_lent : All (λ (kb : KernelBuffer). kb.bid ≢ buf.bid) c.lent
  pub not_posted : All (λ (p : Posted). p.bid ≢ buf.bid) c.posted

pub head-Fillable :
    {pool : BufRingPool} {bgid ptr base : ℕ} (c : Cycle) (ring : BufRing) (buf : IoBuf)
    → get_elem? pool.buf_ring_ptrs bgid ≡ some ptr
    → IsSound pool bgid ptr base c
    → c.mem.rings ptr ≡ some ring
    → c.head ≢ tail_of ring
    → get_elem? ring (c.head % 1024) ≡ some buf
    → Fillable base c buf
head-Fillable {pool} {bgid} {ptr} {base} c ring buf entry s there ne found =
    let (same, bid_eq, len_eq, addr_eq) =
      found_at base ptr (c.head % 1024) c.mem ring buf s.at_ptr (omega arith) there found in
    let s' = Step-IsSound entry s (takes c ring buf 0 c.mem.bytes there ne found (omega arith)) in
    let d : Cycle = record c {
      posted = c.posted ++ (record { bid = buf.bid; data_len = 0 } ∷ []);
    } in
    let split : outstanding d ≡ outstanding c ++ (buf.bid ∷ []) =
      ap (◌++◌ (map (λ kb. kb.bid) c.lent)) (map-append (λ (p : Posted). p.bid) c.posted _)
      ∙ sym (append_assoc (map (λ kb. kb.bid) c.lent) (map (λ p. p.bid) c.posted) (buf.bid ∷ [])) in
    let others : All (λ x. x ≢ buf.bid) (outstanding c) =
      last_differs (outstanding c) buf.bid (λ i lt e.
        sound_once _ s' i (length (outstanding c)) lt
          (omega (arith, ap length split, length-append (outstanding c) (buf.bid ∷ [])))
          (ap (λ l. get_elem? l i) split
            ∙ e
            ∙ sym (get_elem?-snoc (outstanding c) buf.bid (length (outstanding c)) refl)
            ∙ ap (λ l. get_elem? l (length (outstanding c))) (sym split))) in
    let (held, waiting) =
      All-append_left _ (map (λ kb. kb.bid) c.lent) (map (λ p. p.bid) c.posted) others in
    record {
      addr_lem = omega (arith, addr_eq, bid_eq);
      len_lem = len_eq;
      not_lent = All-map _ (λ kb. kb.bid) c.lent held;
      not_posted = All-map _ (λ p. p.bid) c.posted waiting;
    }
