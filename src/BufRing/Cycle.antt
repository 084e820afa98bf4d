-- ===== src/BufRing/Cycle.antt =====
-- src/buf_ring.rs with src/cqe.rs and src/read_buf.rs: the buffers of one group on their way from
-- the kernel through completions to the reader and back. The kernel is the environment: it takes
-- the buffers in the order in which they stand in the ring and writes into them as it likes.
pub mod Sound
pub mod Progress
pub mod Ownership
pub mod Apart
use uring_ws.Base.{
  ℕ, zero, suc, ◌+◌, ◌%◌, ◌^◌, ◌≤◌, ◌<◌, ◌≡◌, ◌≢◌, u16, some, List, [], ◌∷◌, ◌++◌, map, get_elem?,
  ok,
}
use uring_ws.Memory.{IoBuf, BufRing, Memory}
use uring_ws.BufRing.{BufRingPool, KernelBuffer, tail_of, buf_ring_add_advance, get_read_buf}
use uring_ws.BufRing.Group.{GroupAt, IsLent}

-- A completion that waits: the id of its buffer and the number of bytes in it.
pub record Posted : Type 0 where
  pub bid : ℕ
  pub data_len : ℕ

pub record Cycle : Type 0 where
  pub mem : Memory
  -- the kernel's 16-bit count of the buffers that it has taken
  pub head : ℕ
  pub posted : List Posted
  -- the buffers that the reader holds, oldest first
  pub lent : List KernelBuffer

-- The ids of `n` buffers from position `t` of the ring on.
abbrev pub ids : ℕ → ℕ → List ℕ
ids t zero = []
ids t (suc n) = (t % 1024) ∷ ids (t + 1) n

abbrev pub outstanding : Cycle → List ℕ
outstanding c = map (λ kb. kb.bid) c.lent ++ map (λ p. p.bid) c.posted

abbrev pub All {ℓ κ} : {A : Type ℓ} → (A → Type κ) → List A → Type κ
All P [] = Unit
All P (x ∷ xs) = P x × All P xs

module _ (pool : BufRingPool) (bgid ptr base : ℕ) where
  pub data Step : Cycle → Cycle → Type 0 where
    -- the kernel takes the buffer at its head, fills it and posts a completion
    takes :
        (c : Cycle) (ring : BufRing) (buf : IoBuf) (data_len : ℕ) (bytes : ℕ → ℕ)
        → c.mem.rings ptr ≡ some ring
        → c.head ≢ tail_of ring
        → get_elem? ring (c.head % 1024) ≡ some buf
        → data_len ≤ buf.len
        → Step c (record c {
          mem = record (c.mem) { bytes = bytes };
          head = u16 (c.head + 1);
          posted = c.posted ++ (record { bid = buf.bid; data_len = data_len } ∷ []);
        })
    -- the program handles the oldest completion
    completes :
        (c : Cycle) (p : Posted) (rest : List Posted) (kb : KernelBuffer)
        → c.posted ≡ p ∷ rest
        → get_read_buf pool c.mem bgid p.bid p.data_len ≡ ok kb
        → Step c (record c { posted = rest; lent = c.lent ++ (kb ∷ []) })
    -- the reader has drained its oldest buffer and drops it
    drops :
        (c : Cycle) (kb : KernelBuffer) (rest : List KernelBuffer) (mem : Memory)
        → c.lent ≡ kb ∷ rest
        → buf_ring_add_advance kb c.mem ≡ ok mem
        → Step c (record c { mem = mem; lent = rest })

  -- Every buffer has one owner, and the ring's order is the order of return.
  pub record IsSound (c : Cycle) : Type 0 where
    pub at_ptr : GroupAt base ptr c.mem
    pub head_word : c.head < 2 ^ 16
    pub out : ℕ
    pub out_le : out ≤ 1024
    pub counts : (tail_of at_ptr.ring + out) % 2 ^ 16 ≡ (c.head + 1024) % 2 ^ 16
    pub in_order : outstanding c ≡ ids (tail_of at_ptr.ring) out
    pub lent_sound : All (IsLent base ptr) c.lent
    pub posted_sound : All (λ (p : Posted). (p.bid < 1024) × (p.data_len ≤ 1500)) c.posted
