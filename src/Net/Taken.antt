-- ===== src/Net/Taken.antt =====
-- src/net.rs with src/read_buf.rs: the bytes that any number of reads from a nonblocking stream give.
use native.Mathlib.Decide.{dec_lt}
use uring_ws.Base.{
  ℕ, ◌≡◌, refl, sym, ◌∙◌, ap, subst, arith, true, inl, inr, List, [], ◌∷◌, ◌++◌, append_assoc, ok,
  ok-injective, Io, done, fail,
}
use uring_ws.Memory.{Memory}
use uring_ws.BufRing.Cycle.{All}
use uring_ws.ReadBuf.{KernelBufferReader, KernelBufferVecReader}
use uring_ws.ReadBuf
use uring_ws.ReadBuf.Reader.{IsReadable}
use uring_ws.ReadBuf.Stream.{stream, add_advance_keeps_bytes, read-Delivers}
use uring_ws.ReadBuf.Effect.{Effect, read-Effect}
use uring_ws.ReadBuf.Total.{read_no_room}
use uring_ws.Net.{TcpStream, Socket, read}
use uring_ws.Net.Reads.{Reads, no_read, read_then, nonblocking_read}

-- The bytes that a read has put in the caller's buffer.
abbrev pub given : Io (List ℕ) → List ℕ
given (done out) = out
given (fail e) = []

-- Reads one after another, each of which returns, with all the bytes that they give.
pub data Takes {S : Type 0} (socket : Socket S)
    : TcpStream S → Memory → TcpStream S → Memory → List ℕ → Type 0 where
  takes_none : {s : TcpStream S} {m : Memory} → Takes socket s m s m []
  takes_then :
      {s s1 s2 : TcpStream S} {m m1 m2 : Memory} {rest : List ℕ} (room : ℕ) (out : Io (List ℕ))
      → read socket m room s ≡ ok (s1, m1, out)
      → Takes socket s1 m1 s2 m2 rest
      → Takes socket s m s2 m2 (given out ++ rest)

pub Takes-Reads :
    {S : Type 0} (socket : Socket S) {s s' : TcpStream S} {m m' : Memory} {out : List ℕ}
    → Takes socket s m s' m' out
    → Reads socket s m s' m'
Takes-Reads socket takes_none = no_read
Takes-Reads socket (takes_then room out e rest) = read_then room out e (Takes-Reads socket rest)

Effect-bytes :
    (mem mem' : Memory) (v v' : KernelBufferVecReader)
    → Effect mem v v' mem'
    → mem'.bytes ≡ mem.bytes
Effect-bytes mem mem' v v' (inl (_, still)) = ap (λ m. m.bytes) still
Effect-bytes mem mem' v v' (inr (kb, _, back)) = add_advance_keeps_bytes kb mem mem' back

-- Also a read without room takes nothing out of order: it returns from an empty queue only.
read_in_order :
    (mem mem' : Memory) (v v' : KernelBufferVecReader) (room : ℕ) (out : List ℕ)
    (l : List KernelBufferReader)
    → v.buf_vec ≡ l
    → All IsReadable l
    → ReadBuf.read mem v room ≡ ok (v', mem', out)
    → stream mem.bytes v.buf_vec ≡ out ++ stream mem'.bytes v'.buf_vec
unfolding ReadBuf.read
read_in_order mem mem' v v' room out [] front hs e =
    subst
      (λ (t : KernelBufferVecReader × Memory × List ℕ).
        stream mem.bytes v.buf_vec ≡ t.2 ++ stream t.1.bytes t.0.buf_vec)
      (ok-injective (v, mem, []) (v', mem', out) (ground (arith, front, e))) refl
read_in_order mem mem' v v' room out (r ∷ rest) front hs e = elim (dec_lt 0 room) [
  | yes pos ↦
      (read-Delivers mem v room v' mem' out (subst (All IsReadable) (sym front) hs) pos e).in_order
  | no stuck ↦
      let empty : room ≡ 0 = omega arith in
      let lost = read_no_room mem v r rest hs.0 front in absurd (cc)
]

-- What the caller of a nonblocking read gets.
given_out :
    {S : Type 0} (socket : Socket S) (s s1 : TcpStream S) (m m1 m2 : Memory) (room : ℕ)
    (out : Io (List ℕ)) (inner : KernelBufferVecReader) (got : List ℕ)
    → s.nonblocking ≡ true
    → read socket m room s ≡ ok (s1, m1, out)
    → ReadBuf.read m s.inner room ≡ ok (inner, m2, got)
    → given out ≡ got
unfolding read
given_out socket s s1 m m1 m2 room out inner [] nb e reads = ground (arith, nb, reads, e)
given_out socket s s1 m m1 m2 room out inner (b ∷ got) nb e reads = ground (arith, nb, reads, e)

-- Reads give the bytes that wait in the stream in the order in which they have come, each once, and leave
-- the rest; the buffers keep their bytes.
pub Takes-in_order :
    {S : Type 0} (socket : Socket S) {s s' : TcpStream S} {m m' : Memory} {out : List ℕ}
    → Takes socket s m s' m' out
    → All IsReadable s.inner.buf_vec
    → s.nonblocking ≡ true
    → (stream m.bytes s.inner.buf_vec ≡ out ++ stream m'.bytes s'.inner.buf_vec)
      × (m'.bytes ≡ m.bytes)
Takes-in_order socket takes_none hs nb = (refl, refl)
Takes-in_order socket {s} {s'} {m} {m'}
      (takes_then {s1 = s1} {m1 = m1} {rest = rest} room out e more) hs nb =
    let (inner, got, reads, after) = nonblocking_read socket s s1 m m1 room out nb e in
    let (effect, readable) = read-Effect m s.inner room inner m1 got hs reads in
    let (later, same) =
      Takes-in_order socket more (subst (λ t. All IsReadable t.inner.buf_vec) (sym after) readable)
        (ap (λ t. t.nonblocking) after ∙ nb) in
    (
      read_in_order m m1 s.inner inner room got s.inner.buf_vec refl hs reads
          ∙ ap (λ t. got ++ stream m1.bytes t.inner.buf_vec) (sym after)
          ∙ ap (λ l. l ++ stream m1.bytes s1.inner.buf_vec)
              (sym (given_out socket s s1 m m1 m1 room out inner got nb e reads))
          ∙ ap (◌++◌ (given out)) later
          ∙ sym (append_assoc (given out) rest (stream m'.bytes s'.inner.buf_vec)),
      same ∙ Effect-bytes m m1 s.inner inner effect,
    )
