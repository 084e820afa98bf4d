-- ===== src/BufRing/Cycle/Sound.antt =====
-- src/buf_ring.rs with src/cqe.rs and src/read_buf.rs: every step keeps the group sound, and no
-- step of the program panics.
use mathlib.Core.List.{map-append}
use uring_ws.Base.{
  ℕ, zero, suc, ◌+◌, ◌*◌, ◌%◌, ◌^◌, ◌≤◌, ◌<◌, ◌≡◌, ◌≢◌, refl, sym, subst, arith, ◌∙◌, ap, ap₂, u16,
  some, List, [], ◌∷◌, ◌++◌, map, get_elem?, length, append_assoc, ok,
}
use uring_ws.Memory.{IoBuf, BufRing, Memory, store}
use uring_ws.BufRing.{BufRingPool, KernelBuffer, tail_of, buf_ring_add_advance, get_read_buf}
use uring_ws.BufRing.Group.{GroupAt, IsLent, get_read_buf_group, give_back_group}
use uring_ws.BufRing.Cycle.{Posted, Cycle, ids, All, Step, takes, completes, drops, IsSound}

pub ids_congr : (a b n : ℕ) → a % 1024 ≡ b % 1024 → ids a n ≡ ids b n
ids_congr a b zero h = refl
ids_congr a b (suc n) h = ap₂ ◌∷◌ h (ids_congr (a + 1) (b + 1) n (omega arith))

ids_snoc : (t n : ℕ) → ids t (suc n) ≡ ids t n ++ (((t + n) % 1024) ∷ [])
ids_snoc t zero = ap (λ (i : ℕ). i % 1024 ∷ []) {x = t} {y = t + 0} (omega arith)
ids_snoc t (suc n) =
    ap (λ (l : List ℕ). (t % 1024) ∷ l)
      (ids_snoc (t + 1) n
        ∙ ap (λ (i : ℕ). ids (t + 1) n ++ (i % 1024 ∷ [])) {x = t + 1 + n} {y = t + suc n}
            (omega arith))

pub ids_uncons :
    (t n b : ℕ) (bs : List ℕ)
    → b ∷ bs ≡ ids t n
    → (m : ℕ) × (n ≡ suc m) × (b ≡ t % 1024) × (bs ≡ ids (t + 1) m)
ids_uncons t zero b bs h = absurd (cc)
ids_uncons t (suc n) b bs h = (n, refl, cc, cc)

pub length-ids : (t n : ℕ) → length (ids t n) ≡ n
length-ids t zero = refl
length-ids t (suc n) = ap suc (length-ids (t + 1) n)

pub All-snoc {ℓ κ} :
    {A : Type ℓ} (P : A → Type κ) (xs : List A) (a : A) → All P xs → P a → All P (xs ++ (a ∷ []))
All-snoc P [] a h p = (p, tt)
All-snoc P (x ∷ xs) a h p = (h.0, All-snoc P xs a h.1 p)

-- What the kernel finds at a place.
pub found_at :
    (base ptr i : ℕ) (mem : Memory) (ring : BufRing) (buf : IoBuf)
    → (g : GroupAt base ptr mem) → i < 1024
    → mem.rings ptr ≡ some ring
    → get_elem? ring i ≡ some buf
    → (ring ≡ g.ring) × (buf.bid ≡ i) × (buf.len ≡ 1500) × (buf.addr ≡ base + i * 1500)
found_at base ptr i mem ring buf g h there found =
    let held = g.group.places i h in
    let same : ring ≡ g.ring = ground (arith, g.there) in
    let buf_eq : buf ≡ held.buf = ground (arith, held.at_place, same) in
    (
      same,
      ground (arith, held.bid_lem, buf_eq),
      ground (arith, held.len_lem, buf_eq),
      ground (arith, held.addr_lem, buf_eq),
    )

IsLent-fields :
    {base ptr bgid : ℕ} (kb : KernelBuffer) (p : Posted)
    → p.bid < 1024
    → p.data_len ≤ 1500
    → ok kb
      ≡ ok (record {
        addr = base + p.bid * 1500;
        data_len = p.data_len;
        buf_ring = ptr;
        bid = p.bid;
        bgid = bgid;
        buf_len = 1500;
      })
    → IsLent base ptr kb
IsLent-fields kb p h small e = ground arith

module _ {pool : BufRingPool} {bgid ptr base : ℕ} where
  takes-IsSound :
      (c : Cycle) (ring : BufRing) (buf : IoBuf) (data_len : ℕ) (bytes : ℕ → ℕ)
      → IsSound pool bgid ptr base c
      → c.mem.rings ptr ≡ some ring
      → c.head ≢ tail_of ring
      → get_elem? ring (c.head % 1024) ≡ some buf
      → data_len ≤ buf.len
      → IsSound pool bgid ptr base (record c {
        mem = record (c.mem) { bytes = bytes };
        head = u16 (c.head + 1);
        posted = c.posted ++ (record { bid = buf.bid; data_len = data_len } ∷ []);
      })
  takes-IsSound c ring buf data_len bytes s there ne found fits =
      let (same, bid_eq, len_eq, _) =
        found_at base ptr (c.head % 1024) c.mem ring buf s.at_ptr (omega arith) there found in
      let t = tail_of s.at_ptr.ring in
      let ne' : c.head ≢ t = λ e. ne (e ∙ ap tail_of (sym same)) in
      let word : t < 2 ^ 16 = s.at_ptr.group.tail_word in
      let bid_place : (t + s.out) % 1024 ≡ buf.bid = omega (arith, s.counts, bid_eq) in
      record {
        at_ptr = record {
          ring = s.at_ptr.ring;
          not_null = s.at_ptr.not_null;
          there = s.at_ptr.there;
          group = s.at_ptr.group;
        };
        head_word = omega arith;
        out = suc (s.out);
        out_le = omega (arith, s.counts, s.out_le, s.head_word);
        counts = omega (arith, s.counts);
        in_order =
            ap (◌++◌ (map (λ kb. kb.bid) c.lent)) (map-append (λ (p : Posted). p.bid) c.posted _)
            ∙ sym (
                append_assoc (map (λ kb. kb.bid) c.lent) (map (λ p. p.bid) c.posted) (buf.bid ∷ []))
            ∙ ap (λ l. l ++ (buf.bid ∷ [])) s.in_order
            ∙ ap (λ (b : ℕ). ids t s.out ++ (b ∷ [])) (sym bid_place)
            ∙ sym (ids_snoc t s.out);
        lent_sound = s.lent_sound;
        posted_sound =
            All-snoc _ c.posted (record { bid = buf.bid; data_len = data_len }) s.posted_sound
              (omega (arith, bid_eq), omega (arith, len_eq));
      }

  completes-IsSound :
      (c : Cycle) (p : Posted) (rest : List Posted) (kb : KernelBuffer)
      → get_elem? pool.buf_ring_ptrs bgid ≡ some ptr
      → IsSound pool bgid ptr base c
      → c.posted ≡ p ∷ rest
      → get_read_buf pool c.mem bgid p.bid p.data_len ≡ ok kb
      → IsSound pool bgid ptr base (record c { posted = rest; lent = c.lent ++ (kb ∷ []) })
  completes-IsSound c p rest kb entry s first got =
      let sound : All (λ (p : Posted). (p.bid < 1024) × (p.data_len ≤ 1500)) (p ∷ rest) =
        subst (All _) first s.posted_sound in
      let lent_eq =
        sym got
        ∙ get_read_buf_group base ptr bgid p.bid p.data_len pool c.mem s.at_ptr entry (sound.0.0)
            (sound.0.1) in
      let bid_eq : kb.bid ≡ p.bid = ground (arith, lent_eq) in
      record {
        at_ptr = s.at_ptr;
        head_word = s.head_word;
        out = s.out;
        out_le = s.out_le;
        counts = s.counts;
        in_order =
            ap (λ l. l ++ map (λ p. p.bid) rest)
              (map-append (λ (kb : KernelBuffer). kb.bid) c.lent _)
            ∙ append_assoc (map (λ kb. kb.bid) c.lent) (kb.bid ∷ []) (map (λ p. p.bid) rest)
            ∙ ap (λ (b : ℕ). map (λ kb. kb.bid) c.lent ++ (b ∷ map (λ p. p.bid) rest)) bid_eq
            ∙ ap (λ l. map (λ kb. kb.bid) c.lent ++ map (λ p. p.bid) l) (sym first)
            ∙ s.in_order;
        lent_sound =
            All-snoc _ c.lent kb s.lent_sound (IsLent-fields kb p (sound.0.0) (sound.0.1) lent_eq);
        posted_sound = sound.1;
      }

  drops-IsSound :
      (c : Cycle) (kb : KernelBuffer) (rest : List KernelBuffer) (mem : Memory)
      → IsSound pool bgid ptr base c
      → c.lent ≡ kb ∷ rest
      → buf_ring_add_advance kb c.mem ≡ ok mem
      → IsSound pool bgid ptr base (record c { mem = mem; lent = rest })
  drops-IsSound c kb rest mem s first dropped =
      let sound : All (IsLent base ptr) (kb ∷ rest) = subst (All _) first s.lent_sound in
      let t = tail_of s.at_ptr.ring in
      let order : kb.bid ∷ (map (λ kb. kb.bid) rest ++ map (λ p. p.bid) c.posted) ≡ ids t s.out =
        ap (λ l. map (λ kb. kb.bid) l ++ map (λ p. p.bid) c.posted) (sym first) ∙ s.in_order in
      let (out, out_eq, bid_eq, order') = ids_uncons t s.out _ _ order in
      let (ring', e, group, tail) = give_back_group base ptr c.mem kb s.at_ptr sound.0 bid_eq in
      let mem_eq : mem ≡ store c.mem ptr ring' = ground (arith, dropped, e) in
      record {
        at_ptr = record {
          ring = ring';
          not_null = s.at_ptr.not_null;
          there = ground (arith, mem_eq);
          group = group;
        };
        head_word = s.head_word;
        out = out;
        out_le = omega (arith, s.out_le);
        counts = omega (arith, s.counts, tail);
        in_order = order' ∙ ids_congr (t + 1) (tail_of ring') out (omega (arith, tail));
        lent_sound = sound.1;
        posted_sound = s.posted_sound;
      }

-- Runs of the kernel and the program.
pub data Reach (pool : BufRingPool) (bgid ptr base : ℕ) (start : Cycle) : Cycle → Type 0 where
  here : Reach pool bgid ptr base start start
  next :
      {mid now : Cycle}
      → Reach pool bgid ptr base start mid
      → Step pool bgid ptr base mid now
      → Reach pool bgid ptr base start now

pub Step-IsSound :
    {pool : BufRingPool} {bgid ptr base : ℕ} {c d : Cycle}
    → get_elem? pool.buf_ring_ptrs bgid ≡ some ptr
    → IsSound pool bgid ptr base c
    → Step pool bgid ptr base c d
    → IsSound pool bgid ptr base d
Step-IsSound entry s (takes c ring buf data_len bytes there ne found fits) =
    takes-IsSound c ring buf data_len bytes s there ne found fits
Step-IsSound entry s (completes c p rest kb first got) =
    completes-IsSound c p rest kb entry s first got
Step-IsSound entry s (drops c kb rest mem first dropped) =
    drops-IsSound c kb rest mem s first dropped

pub Reach-IsSound :
    {pool : BufRingPool} {bgid ptr base : ℕ} {c d : Cycle}
    → get_elem? pool.buf_ring_ptrs bgid ≡ some ptr
    → IsSound pool bgid ptr base c
    → Reach pool bgid ptr base c d
    → IsSound pool bgid ptr base d
Reach-IsSound entry s here = s
Reach-IsSound entry s (next r st) = Step-IsSound entry (Reach-IsSound entry s r) st
