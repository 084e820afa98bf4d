-- ===== src/Net/Ask.antt =====
-- src/net.rs with src/read_buf.rs: a client that reads from a stream, and that its reads return.
use uring_ws.Base.{
  ℕ, ◌<◌, ◌≡◌, ◌==◌, refl, sym, ◌∙◌, ap, subst, arith, if◌then◌else◌, some, List, [], ◌∷◌, ◌++◌,
  length, get_elem?, Result, ok, panic, ◌>>=◌, >>=-cases_ok, Io, done, fail, would_block,
}
use uring_ws.Memory.{Memory}
use uring_ws.BufRing.{BufRingPool, buf_ring_add_advance}
use uring_ws.BufRing.Cycle.{Cycle, All, IsSound}
use uring_ws.BufRing.Cycle.Sound.{Reach-IsSound}
use uring_ws.BufRing.Cycle.Progress.{sound_drops}
use uring_ws.ReadBuf.{KernelBufferReader, KernelBufferVecReader}
use uring_ws.ReadBuf
use uring_ws.ReadBuf.Reader.{IsReadable}
use uring_ws.ReadBuf.Effect.{bufs}
use uring_ws.ReadBuf.Total.{read_total}
use uring_ws.Net.{TcpStream, Socket, read}
use uring_ws.Net.Reads.{no_read, read_then, InStep, Reads-follow, some_uncons}
use uring_ws.Net.Taken.{Takes, takes_none, takes_then, given}

-- What a client does that can only read: it has its result, or it reads into a buffer with room and goes on
-- with what it gets.
pub data Asks (R : Type 0) : Type 0 where
  answers : R → Asks R
  asks : (room : ℕ) → 0 < room → (Io (List ℕ) → Asks R) → Asks R

module _ {S : Type 0} (socket : Socket S) {pool : BufRingPool} {bgid ptr base : ℕ} where
  queue_returns :
      (c : Cycle) (s : TcpStream S) (m : Memory) (room : ℕ) (l : List KernelBufferReader)
      → s.inner.buf_vec ≡ l
      → InStep c s m
      → IsSound pool bgid ptr base c
      → 0 < room
      → (res : KernelBufferVecReader × Memory × List ℕ) × (ReadBuf.read m s.inner room ≡ ok res)
  unfolding ReadBuf.read
  queue_returns c s m room [] front i sound pos = ((s.inner, m, []), rw front refl)
  queue_returns c s m room (r ∷ rest) front i sound pos =
      let h : IsReadable r = (subst (All IsReadable) front i.readable).0 in
      let (others, lent_eq, _) =
        some_uncons h.kb (bufs rest) c.lent
          (ap (λ b. b ∷ bufs rest) (sym h.holds) ∙ ap bufs (sym front) ∙ i.same_bufs) in
      let (mem', back) = sound_drops c h.kb others sound lent_eq in
      read_total m mem' s.inner room r rest h pos front
        (ap (buf_ring_add_advance h.kb) (sym i.same_mem) ∙ back)

  -- A read with room from a stream in step with the cycle of its group returns.
  pub read_returns :
      (c : Cycle) (s : TcpStream S) (m : Memory) (room : ℕ)
      → InStep c s m
      → IsSound pool bgid ptr base c
      → 0 < room
      → (res : TcpStream S × Memory × Io (List ℕ)) × (read socket m room s ≡ ok res)
  unfolding read
  read_returns c s m room i sound pos =
      let (t, returned) = queue_returns c s m room s.inner.buf_vec refl i sound pos in
      (
        (record s { inner = t.0 }, t.1, if length t.2 == 0 then fail would_block else done t.2),
        ground (arith, i.nonblocking, returned),
      )

module _ {S R : Type 0} (socket : Socket S) where
  unfoldable pub play : Asks R → TcpStream S → Memory → Result (R × TcpStream S × Memory)
  play (answers r) s m = ok (r, s, m)
  play (asks room pos k) s m = do (s', m', out) ← read socket m room s; play (k out) s' m'

  -- The bytes that a client gets.
  unfoldable pub gets : Asks R → TcpStream S → Memory → List ℕ
  gets (answers r) s m = []
  gets (asks room pos k) s m = elim (read socket m room s) [
    | ok (s', m', out) ↦ given out ++ gets (k out) s' m'
    | panic p ↦ []
  ]

  pub play-Takes :
      (a : Asks R) (s : TcpStream S) (m : Memory) (res : R × TcpStream S × Memory)
      → play a s m ≡ ok res
      → Takes socket s m res.1 res.2 (gets a s m)
  unfolding play gets
  play-Takes (answers r) s m res e =
      subst (λ t. Takes socket s m t.1 t.2 []) {x = (r, s, m)} {y = res} (cc) takes_none
  play-Takes (asks room pos k) s m res e = >>=-cases_ok (read socket m room s) _ e λ t first rest.
      rw (first, gets) (takes_then room t.2 first (play-Takes (k t.2) t.0 t.1 res rest))

  -- A client that only reads comes to its result.
  pub play_returns :
      {pool : BufRingPool} {bgid ptr base : ℕ} (a : Asks R) (c : Cycle) (s : TcpStream S)
      (m : Memory)
      → get_elem? pool.buf_ring_ptrs bgid ≡ some ptr
      → InStep c s m
      → IsSound pool bgid ptr base c
      → (res : R × TcpStream S × Memory) × (play a s m ≡ ok res)
  unfolding play
  play_returns (answers r) c s m entry i sound = ((r, s, m), refl)
  play_returns {pool} {bgid} {ptr} {base} (asks room pos k) c s m entry i sound =
      let (t, first) = read_returns socket c s m room i sound pos in
      let (d, reach, i', _, _, _) =
        Reads-follow socket {pool = pool} {bgid = bgid} {ptr = ptr} {base = base} c
          (read_then room t.2 first no_read) i in
      let (res, rest) = play_returns (k t.2) d t.0 t.1 entry i' (Reach-IsSound entry sound reach) in
      (res, rw first rest)
