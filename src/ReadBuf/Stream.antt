-- ===== src/ReadBuf/Stream.antt =====
-- src/read_buf.rs: the queue of readers as one stream of bytes.
use uring_ws.Base.{
  ℕ, ◌+◌, ◌-◌, ◌≤◌, ◌<◌, ◌≡◌, refl, sym, subst, arith, ◌∙◌, ap, ap₂, min, ◌⊎◌, inl, inr, some, none,
  List, [], ◌∷◌, ◌++◌, append-nil, append_assoc, length, length-take, take, take-append-drop, ok,
  Result-cases, ok-injective, >>=-eq-ok,
}
use native.Mathlib.Decide.{dec_lt}
use uring_ws.Memory.{Memory, deref}
use uring_ws.BufRing.{
  KernelBuffer, buf_ring_add_advance, io_uring_buf_ring_mask, io_uring_buf_ring_add,
}
use uring_ws.BufRing.Cycle.{All}
use uring_ws.ReadBuf.{slice, KernelBufferReader, KernelBufferVecReader, read}
use uring_ws.ReadBuf.Reader.{IsReadable, unread_from, length-slice, drop-slice, read_front_lem}

pub add_advance_keeps_bytes :
    (kb : KernelBuffer) (mem mem' : Memory)
    → buf_ring_add_advance kb mem ≡ ok mem'
    → mem'.bytes ≡ mem.bytes
unfolding buf_ring_add_advance
add_advance_keeps_bytes kb mem mem' e =
    let (br, _, e1) = >>=-eq-ok (deref mem kb.buf_ring) _ e in
    let (mask, _, e2) = >>=-eq-ok (io_uring_buf_ring_mask 1024) _ e1 in
    let (br', _, e3) = >>=-eq-ok (io_uring_buf_ring_add br kb.addr kb.buf_len kb.bid mask 0) _ e2 in
    ground arith

abbrev pub unread : (ℕ → ℕ) → KernelBufferReader → List ℕ
unread bytes r = elim r.buf [ none ↦ [] | some kb ↦ unread_from bytes kb r.claimed ]

-- The bytes that wait, in the order in which they have come.
abbrev pub stream : (ℕ → ℕ) → List KernelBufferReader → List ℕ
stream bytes [] = []
stream bytes (r ∷ rs) = unread bytes r ++ stream bytes rs

-- What a read may do to the queue.
pub record Delivers (mem : Memory) (v : KernelBufferVecReader) (room : ℕ)
    (v' : KernelBufferVecReader) (mem' : Memory) (out : List ℕ) : Type 0 where
  pub in_order : stream mem.bytes v.buf_vec ≡ out ++ stream mem'.bytes v'.buf_vec
  pub readable : All IsReadable v'.buf_vec
  pub progress : ((v.buf_vec ≡ []) × (out ≡ [])) ⊎ (0 < length out)
  pub fits : length out ≤ room

module _ (mem : Memory) (v : KernelBufferVecReader) (room : ℕ) (r : KernelBufferReader)
    (rest : List KernelBufferReader) (h : IsReadable r) (pos : 0 < room)
    (front : v.buf_vec ≡ r ∷ rest) where
  abbrev pub given : List ℕ
  given = take room (unread_from mem.bytes h.kb r.claimed)

  abbrev pub moved : KernelBufferReader
  moved = record r { claimed = r.claimed + length given }

  length-given : length given ≡ min room (h.kb.data_len - r.claimed)
  length-given = omega (
    arith,
    length-take room (unread_from mem.bytes h.kb r.claimed),
    length-slice mem.bytes (h.kb.addr + r.claimed) (h.kb.data_len - r.claimed),
  )

  -- The bytes of the first reader are those given and those that it keeps.
  split_front : unread mem.bytes r ≡ given ++ unread mem.bytes moved
  split_front = rw h.holds (
      sym (take-append-drop room (unread_from mem.bytes h.kb r.claimed))
      ∙ ap (◌++◌ given) (
          drop-slice mem.bytes room (h.kb.addr + r.claimed) (h.kb.data_len - r.claimed)
          ∙ rest_slice))
    where
      rest_slice :
          slice mem.bytes (h.kb.addr + r.claimed + room) (h.kb.data_len - r.claimed - room)
          ≡ unread_from mem.bytes h.kb (r.claimed + length given)
      rest_slice = elim (dec_lt (h.kb.data_len - r.claimed) room) [
        | yes p ↦
            ap (slice mem.bytes (h.kb.addr + r.claimed + room)) {y = 0} (omega arith)
            ∙ sym (
                ap (slice mem.bytes (h.kb.addr + (r.claimed + length given))) {y = 0}
                  (omega (arith, length-given, h.left)))
        | no p ↦ ap₂ (slice mem.bytes) (omega (arith, length-given)) (omega (arith, length-given))
      ]

  pub read_keeps :
      room < h.kb.data_len - r.claimed
      → read mem v room ≡ ok (record v { buf_vec = moved ∷ rest }, mem, given)
  unfolding read
  read_keeps less = ground (arith, front, read_front_lem mem r room h pos, length-given)

  pub read_drains :
      {mem' : Memory}
      → h.kb.data_len - r.claimed ≤ room
      → buf_ring_add_advance h.kb mem ≡ ok mem'
      → read mem v room ≡ ok (record v { buf_vec = rest }, mem', given)
  unfolding read
  read_drains more e =
      ground (arith, front, read_front_lem mem r room h pos, length-given, h.holds, e)

  keeps-Delivers :
      All IsReadable rest
      → room < h.kb.data_len - r.claimed
      → Delivers mem v room (record v { buf_vec = moved ∷ rest }) mem given
  keeps-Delivers others less = record {
    in_order =
        ap (stream mem.bytes) front
        ∙ ap (λ l. l ++ stream mem.bytes rest) split_front
        ∙ append_assoc given (unread mem.bytes moved) (stream mem.bytes rest);
    readable = (
      record { kb = h.kb; holds = h.holds; left = omega (arith, length-given); word = h.word },
      others,
    );
    progress = inr (omega (arith, length-given));
    fits = omega (arith, length-given);
  }

  drained_empty : h.kb.data_len - r.claimed ≤ room → unread mem.bytes moved ≡ []
  drained_empty more = rw h.holds (
      ap (slice mem.bytes (h.kb.addr + (r.claimed + length given))) {y = 0}
        (omega (arith, length-given)))

  drains-Delivers :
      {mem' : Memory}
      → All IsReadable rest
      → h.kb.data_len - r.claimed ≤ room
      → mem'.bytes ≡ mem.bytes
      → Delivers mem v room (record v { buf_vec = rest }) mem' given
  drains-Delivers {mem'} others more same = record {
    in_order =
        ap (stream mem.bytes) front
        ∙ ap (λ l. l ++ stream mem.bytes rest)
            (split_front ∙ ap (◌++◌ given) (drained_empty more) ∙ append-nil given)
        ∙ ap (λ b. given ++ stream b rest) (sym same);
    readable = others;
    progress = inr (omega (arith, length-given, h.left));
    fits = omega (arith, length-given);
  }

  -- A read that drains the first reader succeeds only if its buffer is given back.
  pub given_back :
      (res : KernelBufferVecReader × Memory × List ℕ)
      → h.kb.data_len - r.claimed ≤ room
      → read mem v room ≡ ok res
      → (mem' : Memory) × (buf_ring_add_advance h.kb mem ≡ ok mem')
  unfolding read
  given_back res more e = elim (Result-cases (buf_ring_add_advance h.kb mem)) [
    | inl found ↦ found
    | inr (p, lost) ↦
        absurd (ground (arith, front, read_front_lem mem r room h pos, length-given, h.holds, lost))
  ]

  -- The read of a first reader, on both branches.
  read_front_Delivers :
      (res : KernelBufferVecReader × Memory × List ℕ)
      → All IsReadable rest
      → read mem v room ≡ ok res
      → Delivers mem v room res.0 res.1 res.2
  read_front_Delivers res others e = elim (dec_lt room (h.kb.data_len - r.claimed)) [
    | yes less ↦
        subst (λ t. Delivers mem v room t.0 t.1 t.2)
          (ok-injective _ res (sym (read_keeps less) ∙ e)) (keeps-Delivers others less)
    | no ge ↦
        let more : h.kb.data_len - r.claimed ≤ room = omega arith in
        let (mem2, back) = given_back res more e in
        subst (λ t. Delivers mem v room t.0 t.1 t.2)
          (ok-injective _ res (sym (read_drains more back) ∙ e))
          (drains-Delivers others more (add_advance_keeps_bytes h.kb mem mem2 back))
  ]

by_front :
    (mem : Memory) (v : KernelBufferVecReader) (room : ℕ)
    (res : KernelBufferVecReader × Memory × List ℕ) (l : List KernelBufferReader)
    → v.buf_vec ≡ l
    → All IsReadable l
    → 0 < room
    → read mem v room ≡ ok res
    → Delivers mem v room res.0 res.1 res.2
unfolding read
by_front mem v room res [] front hs pos e =
    subst (λ t. Delivers mem v room t.0 t.1 t.2) (ok-injective (v, mem, []) res (ground arith))
      (record {
        in_order = refl;
        readable = subst (All IsReadable) (sym front) tt;
        progress = inl (front, refl);
        fits = omega arith;
      })
by_front mem v room res (r ∷ rest) front hs pos e =
    read_front_Delivers mem v room r rest hs.0 pos front res hs.1 e

-- A read into a buffer with room gives the bytes that come next in the stream and leaves the rest, in
-- order; it gives none only if the queue is empty, and every reader left still has bytes.
pub read-Delivers :
    (mem : Memory) (v : KernelBufferVecReader) (room : ℕ) (v' : KernelBufferVecReader)
    (mem' : Memory) (out : List ℕ)
    → All IsReadable v.buf_vec
    → 0 < room
    → read mem v room ≡ ok (v', mem', out)
    → Delivers mem v room v' mem' out
read-Delivers mem v room v' mem' out hs pos e =
    by_front mem v room (v', mem', out) v.buf_vec refl hs pos e
