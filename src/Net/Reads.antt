-- ===== src/Net/Reads.antt =====
-- src/net.rs with src/read_buf.rs and src/buf_ring.rs: any number of reads from a nonblocking stream, and
-- how the buffers that they give back follow the cycle of the stream's group.
use uring_ws.Base.{
  ℕ, ◌≡◌, refl, sym, ◌∙◌, ap, true, inl, inr, Option, some, List, ◌∷◌, [], map, ok, arith,
  Result-cases, subst, Io,
}
use uring_ws.Memory.{Memory}
use uring_ws.BufRing.{BufRingPool, buf_ring_add_advance}
use uring_ws.BufRing.Cycle.{Cycle, All, drops}
use uring_ws.BufRing.Cycle.Sound.{Reach, here, next}
use uring_ws.BufRing.Cycle.Progress.{Reach-trans}
use uring_ws.ReadBuf.{KernelBufferVecReader}
use uring_ws.ReadBuf
use uring_ws.ReadBuf.Reader.{IsReadable}
use uring_ws.ReadBuf.Effect.{bufs, Effect, read-Effect}
use uring_ws.Net.{TcpStream, Socket, read}

-- Reads one after another, each of which returns.
pub data Reads {S : Type 0} (socket : Socket S)
    : TcpStream S → Memory → TcpStream S → Memory → Type 0 where
  no_read : {s : TcpStream S} {m : Memory} → Reads socket s m s m
  read_then :
      {s s1 s2 : TcpStream S} {m m1 m2 : Memory} (room : ℕ) (out : Io (List ℕ))
      → read socket m room s ≡ ok (s1, m1, out)
      → Reads socket s1 m1 s2 m2
      → Reads socket s m s2 m2

-- A stream whose readers hold the buffers that a cycle has lent.
pub record InStep {S : Type 0} (c : Cycle) (s : TcpStream S) (m : Memory) : Type 0 where
  pub same_mem : c.mem ≡ m
  pub same_bufs : bufs s.inner.buf_vec ≡ map some c.lent
  pub readable : All IsReadable s.inner.buf_vec
  pub nonblocking : s.nonblocking ≡ true

-- What reads keep of a stream.
abbrev pub SameStream : {S : Type 0} → TcpStream S → TcpStream S → Type 0
SameStream s s' =
    (s'.owner_id ≡ s.owner_id)
    × (s'.multishort_recv_id ≡ s.multishort_recv_id)
    × (s'.send_id ≡ s.send_id)
    × (s'.pending_sent ≡ s.pending_sent)
    × (s'.nonblocking ≡ s.nonblocking)

pub some_uncons :
    {A : Type 0} (a : A) (l : List (Option A)) (bs : List A)
    → some a ∷ l ≡ map some bs
    → (rest : List A) × (bs ≡ a ∷ rest) × (l ≡ map some rest)
some_uncons a l [] e = absurd (cc)
some_uncons a l (b ∷ bs) e = (bs, cc, cc)

pub nonblocking_read :
    {S : Type 0} (socket : Socket S) (s s1 : TcpStream S) (m m1 : Memory) (room : ℕ)
    (out : Io (List ℕ))
    → s.nonblocking ≡ true
    → read socket m room s ≡ ok (s1, m1, out)
    → (inner : KernelBufferVecReader) × (got : List ℕ) × (ReadBuf.read m s.inner room
        ≡ ok (inner, m1, got))
      × (s1 ≡ record s { inner = inner })
unfolding read
nonblocking_read socket s s1 m m1 room out nb e =
    elim (Result-cases (ReadBuf.read m s.inner room)) [
      | inl (r, found) ↦ (r.0, r.2, ground (arith, nb, found, e), ground (arith, nb, found, e))
      | inr (p, failed) ↦ absurd (ground (arith, nb, failed, e))
    ]

module _ {S : Type 0} (socket : Socket S) {pool : BufRingPool} {bgid ptr base : ℕ} where
  -- The cycle after one read's effect on the buffers.
  Effect-follows :
      (c : Cycle) (v v' : KernelBufferVecReader) (m m' : Memory)
      → c.mem ≡ m
      → bufs v.buf_vec ≡ map some c.lent
      → Effect m v v' m'
      → (d : Cycle) × Reach pool bgid ptr base c d
        × (d.mem ≡ m')
        × (bufs v'.buf_vec ≡ map some d.lent)
        × (d.posted ≡ c.posted)
        × (d.head ≡ c.head)
  Effect-follows c v v' m m' same held (inl (kept, still)) =
      (c, here, same ∙ sym still, kept ∙ held, refl, refl)
  Effect-follows c v v' m m' same held (inr (kb, first, given)) =
      let (rest, lent_eq, rest_eq) = some_uncons kb (bufs v'.buf_vec) c.lent (sym first ∙ held) in
      (
        record c { mem = m'; lent = rest },
        next here (drops c kb rest m' lent_eq (ap (buf_ring_add_advance kb) same ∙ given)),
        refl,
        rest_eq,
        refl,
        refl,
      )

  -- Reads give the buffers back in the order in which the cycle asks for them.
  pub Reads-follow :
      {s s' : TcpStream S} {m m' : Memory} (c : Cycle)
      → Reads socket s m s' m'
      → InStep c s m
      → (d : Cycle) × Reach pool bgid ptr base c d
        × InStep d s' m'
        × SameStream s s'
        × (d.posted ≡ c.posted)
        × (d.head ≡ c.head)
  Reads-follow c no_read i = (c, here, i, (refl, refl, refl, refl, refl), refl, refl)
  Reads-follow {s} c (read_then {m = m} {m1 = m1} room out e rest) i =
      let (inner, got, reads, after) = nonblocking_read socket s _ m m1 room out i.nonblocking e in
      let (effect, readable) = read-Effect m s.inner room inner m1 got i.readable reads in
      let (c1, r1, same1, held1, posted1, head1) =
        Effect-follows c s.inner inner m m1 i.same_mem i.same_bufs effect in
      let (c2, r2, i2, stream2, posted2, head2) = Reads-follow c1 rest (record {
        same_mem = same1;
        same_bufs = ap (λ t. bufs t.inner.buf_vec) after ∙ held1;
        readable = subst (λ t. All IsReadable t.inner.buf_vec) (sym after) readable;
        nonblocking = ap (λ t. t.nonblocking) after ∙ i.nonblocking;
      }) in
      (
        c2,
        Reach-trans r1 r2,
        i2,
        (
          stream2.0 ∙ ap (λ t. t.owner_id) after,
          stream2.1 ∙ ap (λ t. t.multishort_recv_id) after,
          stream2.2 ∙ ap (λ t. t.send_id) after,
          stream2.3 ∙ ap (λ t. t.pending_sent) after,
          stream2.4 ∙ ap (λ t. t.nonblocking) after,
        ),
        posted2 ∙ posted1,
        head2 ∙ head1,
      )
