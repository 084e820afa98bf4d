-- ===== src/BufRing/Cycle/Progress.antt =====
-- src/buf_ring.rs with src/cqe.rs and src/read_buf.rs: in a sound state no step of the program panics, and
-- the program can always go on until it has returned every buffer.
use uring_ws.Base.{
  ℕ, ◌+◌, ◌*◌, ◌≤◌, ◌<◌, ◌≡◌, refl, sym, subst, ◌∙◌, ap, some, List, [], ◌∷◌, ◌++◌, map, get_elem?,
  ok,
}
use uring_ws.Memory.{Memory, store}
use uring_ws.BufRing.{BufRingPool, KernelBuffer, tail_of, buf_ring_add_advance, get_read_buf}
use uring_ws.BufRing.Group.{IsLent, get_read_buf_group, give_back_group}
use uring_ws.BufRing.Cycle.{Posted, Cycle, ids, All, IsSound, completes, drops}
use uring_ws.BufRing.Cycle.Sound.{Reach, here, next, Step-IsSound, ids_uncons}

-- A state that the program can reach by its own steps, with the kernel waiting.
pub record Onward (pool : BufRingPool) (bgid ptr base : ℕ) (c : Cycle) (P : Cycle → Type 0)
    : Type 0 where
  pub later : Cycle
  pub reach : Reach pool bgid ptr base c later
  pub sound : IsSound pool bgid ptr base later
  pub same_head : later.head ≡ c.head
  pub goal : P later

module _ {pool : BufRingPool} {bgid ptr base : ℕ} where
  -- The oldest completion that waits finds its buffer.
  pub sound_completes :
      (c : Cycle) (p : Posted) (rest : List Posted)
      → get_elem? pool.buf_ring_ptrs bgid ≡ some ptr
      → IsSound pool bgid ptr base c
      → c.posted ≡ p ∷ rest
      → get_read_buf pool c.mem bgid p.bid p.data_len
        ≡ ok (record {
          addr = base + p.bid * 1500;
          data_len = p.data_len;
          buf_ring = ptr;
          bid = p.bid;
          bgid = bgid;
          buf_len = 1500;
        })
  sound_completes c p rest entry s first =
      let sound : All (λ (p : Posted). (p.bid < 1024) × (p.data_len ≤ 1500)) (p ∷ rest) =
        subst (All _) first s.posted_sound in
      get_read_buf_group base ptr bgid p.bid p.data_len pool c.mem s.at_ptr entry sound.0.0
        sound.0.1

  -- The oldest buffer that is lent can be given back.
  pub sound_drops :
      (c : Cycle) (kb : KernelBuffer) (rest : List KernelBuffer)
      → IsSound pool bgid ptr base c
      → c.lent ≡ kb ∷ rest
      → (mem : Memory) × (buf_ring_add_advance kb c.mem ≡ ok mem)
  sound_drops c kb rest s first =
      let sound : All (IsLent base ptr) (kb ∷ rest) = subst (All _) first s.lent_sound in
      let order : kb.bid ∷ (map (λ kb. kb.bid) rest ++ map (λ p. p.bid) c.posted)
          ≡ ids (tail_of s.at_ptr.ring) s.out =
        ap (λ l. map (λ kb. kb.bid) l ++ map (λ p. p.bid) c.posted) (sym first) ∙ s.in_order in
      let (_, _, bid_eq, _) = ids_uncons (tail_of s.at_ptr.ring) s.out kb.bid _ order in
      let (ring', e, _, _) = give_back_group base ptr c.mem kb s.at_ptr sound.0 bid_eq in
      (store c.mem ptr ring', e)

  pub Reach-trans :
      {a b c : Cycle}
      → Reach pool bgid ptr base a b
      → Reach pool bgid ptr base b c
      → Reach pool bgid ptr base a c
  Reach-trans r here = r
  Reach-trans r (next r' st) = next (Reach-trans r r') st

  all_completed :
      (l : List Posted) (c : Cycle)
      → get_elem? pool.buf_ring_ptrs bgid ≡ some ptr
      → IsSound pool bgid ptr base c
      → c.posted ≡ l
      → Onward pool bgid ptr base c (λ d. d.posted ≡ [])
  all_completed [] c entry s none_left = record {
    later = c;
    reach = here;
    sound = s;
    same_head = refl;
    goal = none_left;
  }
  all_completed (p ∷ rest) c entry s first =
      let step = completes c p rest _ first (sound_completes c p rest entry s first) in
      let on = all_completed rest _ entry (Step-IsSound entry s step) refl in
      record {
        later = on.later;
        reach = Reach-trans (next here step) on.reach;
        sound = on.sound;
        same_head = on.same_head;
        goal = on.goal;
      }

  all_dropped :
      (l : List KernelBuffer) (c : Cycle)
      → get_elem? pool.buf_ring_ptrs bgid ≡ some ptr
      → IsSound pool bgid ptr base c
      → c.posted ≡ []
      → c.lent ≡ l
      → Onward pool bgid ptr base c (λ d. (d.posted ≡ []) × (d.lent ≡ []))
  all_dropped [] c entry s quiet none_left = record {
    later = c;
    reach = here;
    sound = s;
    same_head = refl;
    goal = (quiet, none_left);
  }
  all_dropped (kb ∷ rest) c entry s quiet first =
      let (mem, given) = sound_drops c kb rest s first in
      let step = drops c kb rest mem first given in
      let on = all_dropped rest _ entry (Step-IsSound entry s step) quiet refl in
      record {
        later = on.later;
        reach = Reach-trans (next here step) on.reach;
        sound = on.sound;
        same_head = on.same_head;
        goal = on.goal;
      }

  -- The program can handle every completion and return every buffer.
  pub all_returned :
      (c : Cycle)
      → get_elem? pool.buf_ring_ptrs bgid ≡ some ptr
      → IsSound pool bgid ptr base c
      → Onward pool bgid ptr base c (λ d. (d.posted ≡ []) × (d.lent ≡ []))
  all_returned c entry s =
      let first = all_completed c.posted c entry s refl in
      let second = all_dropped first.later.lent first.later entry first.sound first.goal refl in
      record {
        later = second.later;
        reach = Reach-trans first.reach second.reach;
        sound = second.sound;
        same_head = second.same_head ∙ first.same_head;
        goal = second.goal;
      }
