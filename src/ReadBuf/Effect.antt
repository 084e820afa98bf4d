-- ===== src/ReadBuf/Effect.antt =====
-- src/read_buf.rs: what a read does to the buffers that the queue of readers holds.
use native.Mathlib.Decide.{dec_lt}
use uring_ws.Base.{
  ℕ, ◌-◌, ◌<◌, ◌≤◌, ◌≡◌, refl, sym, subst, arith, ◌∙◌, ap, ◌⊎◌, inl, inr, Option, some, List, [],
  ◌∷◌, map, ok, ok-injective,
}
use uring_ws.Memory.{Memory}
use uring_ws.BufRing.{KernelBuffer, buf_ring_add_advance}
use uring_ws.BufRing.Cycle.{All}
use uring_ws.ReadBuf.{KernelBufferReader, KernelBufferVecReader, read}
use uring_ws.ReadBuf.Reader.{IsReadable}
use uring_ws.ReadBuf.Stream.{read_keeps, read_drains, given_back, read-Delivers}
use uring_ws.ReadBuf.Total.{read_no_room}

-- The buffers in the readers, oldest first.
abbrev pub bufs : List KernelBufferReader → List (Option KernelBuffer)
bufs rs = map (λ r. r.buf) rs

-- The buffers and the memory stay, or the oldest buffer is given back.
abbrev pub Effect : Memory → KernelBufferVecReader → KernelBufferVecReader → Memory → Type 0
Effect mem v v' mem' =
    ((bufs v'.buf_vec ≡ bufs v.buf_vec) × (mem' ≡ mem))
    ⊎ ((kb : KernelBuffer) × (bufs v.buf_vec ≡ some kb ∷ bufs v'.buf_vec)
        × (buf_ring_add_advance kb mem ≡ ok mem'))

module _ (mem : Memory) (v : KernelBufferVecReader) (room : ℕ) where
  front-Effect :
      (res : KernelBufferVecReader × Memory × List ℕ) (r : KernelBufferReader)
      (rest : List KernelBufferReader)
      → IsReadable r
      → 0 < room
      → v.buf_vec ≡ r ∷ rest
      → read mem v room ≡ ok res
      → Effect mem v res.0 res.1
  front-Effect res r rest h pos front e = elim (dec_lt room (h.kb.data_len - r.claimed)) [
    | yes less ↦
        subst (λ t. Effect mem v t.0 t.1)
          (ok-injective _ res (sym (read_keeps mem v room r rest h pos front less) ∙ e))
          (inl (ap bufs (sym front), refl))
    | no ge ↦
        let more : h.kb.data_len - r.claimed ≤ room = omega arith in
        let (mem2, back) = given_back mem v room r rest h pos front res more e in
        subst (λ t. Effect mem v t.0 t.1)
          (ok-injective _ res (sym (read_drains mem v room r rest h pos front more back) ∙ e))
          (inr (h.kb, ap bufs front ∙ ap (λ b. b ∷ bufs rest) h.holds, back))
  ]

  by_queue :
      (res : KernelBufferVecReader × Memory × List ℕ) (l : List KernelBufferReader)
      → v.buf_vec ≡ l
      → All IsReadable l
      → read mem v room ≡ ok res
      → Effect mem v res.0 res.1 × All IsReadable res.0.buf_vec
  unfolding read
  by_queue res [] front hs e =
      subst (λ t. Effect mem v t.0 t.1 × All IsReadable t.0.buf_vec)
        (ok-injective (v, mem, []) res (ground arith))
        (inl (refl, refl), subst (All IsReadable) (sym front) tt)
  by_queue res (r ∷ rest) front hs e = elim (dec_lt 0 room) [
    | yes pos ↦ (
      front-Effect res r rest hs.0 pos front e,
      (read-Delivers mem v room res.0 res.1 res.2 (subst (All IsReadable) (sym front) hs) pos
          e).readable,
    )
    | no none ↦
        let empty : room ≡ 0 = omega arith in
        let stuck = read_no_room mem v r rest hs.0 front in absurd (cc)
  ]

-- A read of a queue of readable readers keeps them readable, and either leaves the buffers and the memory
-- as they were or gives the oldest buffer back.
pub read-Effect :
    (mem : Memory) (v : KernelBufferVecReader) (room : ℕ) (v' : KernelBufferVecReader)
    (mem' : Memory) (out : List ℕ)
    → All IsReadable v.buf_vec
    → read mem v room ≡ ok (v', mem', out)
    → Effect mem v v' mem' × All IsReadable v'.buf_vec
read-Effect mem v room v' mem' out hs e = by_queue mem v room (v', mem', out) v.buf_vec refl hs e
