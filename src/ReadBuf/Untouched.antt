-- ===== src/ReadBuf/Untouched.antt =====
-- src/read_buf.rs with src/buf_ring.rs: the bytes that wait in readers and in completions while the kernel
-- fills another buffer.
use uring_ws.Base.{
  ℕ, zero, suc, ◌+◌, ◌-◌, ◌*◌, ◌≤◌, ◌<◌, ◌≡◌, ◌≢◌, refl, sym, arith, ◌∙◌, ap, ap₂, ◌⊎◌, some, List,
  [], ◌∷◌, ◌++◌, map, append_assoc,
}
use uring_ws.BufRing.{KernelBuffer}
use uring_ws.BufRing.Group.{IsLent}
use uring_ws.BufRing.Cycle.{Posted, All}
use uring_ws.ReadBuf.{slice, KernelBufferReader}
use uring_ws.ReadBuf.Reader.{IsReadable}
use uring_ws.ReadBuf.Stream.{unread, stream}
use uring_ws.ReadBuf.Effect.{bufs}

-- Nothing but the `n` bytes from `addr` on is written.
abbrev pub Writes : (addr n : ℕ) → (before after : ℕ → ℕ) → Type 0
Writes addr n before after = (a : ℕ) → (a < addr) ⊎ (addr + n ≤ a) → after a ≡ before a

-- The bytes of the filled buffers whose completions wait, in the order of the completions.
abbrev pub arrived : (ℕ → ℕ) → ℕ → List Posted → List ℕ
arrived bytes base [] = []
arrived bytes base (p ∷ ps) = slice bytes (base + p.bid * 1500) p.data_len ++ arrived bytes base ps

pub arrived-append :
    (bytes : ℕ → ℕ) (base : ℕ) (ps qs : List Posted)
    → arrived bytes base (ps ++ qs) ≡ arrived bytes base ps ++ arrived bytes base qs
arrived-append bytes base [] qs = refl
arrived-append bytes base (p ∷ ps) qs =
    let first = slice bytes (base + p.bid * 1500) p.data_len in
    ap (◌++◌ first) (arrived-append bytes base ps qs)
    ∙ sym (append_assoc first (arrived bytes base ps) (arrived bytes base qs))

pub stream-append :
    (bytes : ℕ → ℕ) (rs qs : List KernelBufferReader)
    → stream bytes (rs ++ qs) ≡ stream bytes rs ++ stream bytes qs
stream-append bytes [] qs = refl
stream-append bytes (r ∷ rs) qs =
    ap (◌++◌ (unread bytes r)) (stream-append bytes rs qs)
    ∙ sym (append_assoc (unread bytes r) (stream bytes rs) (stream bytes qs))

slice_congr :
    (bytes bytes' : ℕ → ℕ) (addr n : ℕ)
    → ((a : ℕ) → addr ≤ a → a < addr + n → bytes' a ≡ bytes a)
    → slice bytes' addr n ≡ slice bytes addr n
slice_congr bytes bytes' addr zero h = refl
slice_congr bytes bytes' addr (suc n) h =
    ap₂ ◌∷◌ (h addr (omega arith) (omega arith))
      (slice_congr bytes bytes' (addr + 1) n (λ a low high. h a (omega arith) (omega arith)))

module _ (base bid n : ℕ) (bytes bytes' : ℕ → ℕ) (fits : n ≤ 1500)
    (writes : Writes (base + bid * 1500) n bytes bytes') where
  -- Bytes of another buffer of the block.
  elsewhere :
      (other offset size : ℕ)
      → other ≢ bid
      → offset + size ≤ 1500
      → slice bytes' (base + other * 1500 + offset) size
        ≡ slice bytes (base + other * 1500 + offset) size
  elsewhere other offset size ne small =
      slice_congr bytes bytes' (base + other * 1500 + offset) size
        (λ a low high. writes a (ground arith))

  -- The bytes of filled buffers that are not the written one.
  pub arrived_untouched :
      (ps : List Posted)
      → All (λ (p : Posted). p.bid ≢ bid) ps
      → All (λ (p : Posted). (p.bid < 1024) × (p.data_len ≤ 1500)) ps
      → arrived bytes' base ps ≡ arrived bytes base ps
  arrived_untouched [] ne hs = refl
  arrived_untouched (p ∷ ps) ne hs =
      ap₂ ◌++◌
        (ap (λ a. slice bytes' a p.data_len) {y = base + p.bid * 1500 + 0} (omega arith)
          ∙ elsewhere p.bid 0 p.data_len ne.0 (omega (arith, hs.0.1))
          ∙ ap (λ a. slice bytes a p.data_len) {y = base + p.bid * 1500} (omega arith))
        (arrived_untouched ps ne.1 hs.1)

  unread_untouched :
      (ptr : ℕ) (r : KernelBufferReader) (kb : KernelBuffer)
      → r.buf ≡ some kb
      → r.claimed ≤ kb.data_len
      → IsLent base ptr kb
      → kb.bid ≢ bid
      → unread bytes' r ≡ unread bytes r
  unread_untouched ptr r kb holds left lent ne =
      let placed : (b : ℕ → ℕ)
          → unread b r ≡ slice b (base + kb.bid * 1500 + r.claimed) (kb.data_len - r.claimed) =
        λ b.
          rw holds (ap (λ a. slice b (a + r.claimed) (kb.data_len - r.claimed)) lent.lent_addr) in
      placed bytes'
      ∙ elsewhere kb.bid r.claimed (kb.data_len - r.claimed) ne
          (omega (arith, left, lent.lent_data))
      ∙ sym (placed bytes)

  -- The bytes that wait in readers whose buffers are not the written one.
  pub stream_untouched :
      (ptr : ℕ) (rs : List KernelBufferReader) (held : List KernelBuffer)
      → bufs rs ≡ map some held
      → All IsReadable rs
      → All (IsLent base ptr) held
      → All (λ (kb : KernelBuffer). kb.bid ≢ bid) held
      → stream bytes' rs ≡ stream bytes rs
  stream_untouched ptr [] held same hs lent ne = refl
  stream_untouched ptr (r ∷ rs) [] same hs lent ne = absurd (cc)
  stream_untouched ptr (r ∷ rs) (kb ∷ held) same hs lent ne =
      let holds : r.buf ≡ some kb = cc in
      let mine : hs.0.kb ≡ kb = ground (arith, hs.0.holds) in
      ap₂ ◌++◌
        (unread_untouched ptr r kb holds (omega (arith, hs.0.left, ap (λ b. b.data_len) mine))
          lent.0 ne.0)
        (stream_untouched ptr rs held (cc) hs.1 lent.1 ne.1)
