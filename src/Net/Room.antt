-- ===== src/Net/Room.antt =====
-- src/net.rs with src/read_buf.rs: what a stream needs for its next buffer, and that reads keep it.
use uring_ws.Base.{
  ℕ, suc, ◌≤◌, ◌≡◌, refl, sym, subst, arith, Bool, true, false, List, [], ◌∷◌, length, ok,
  >>=-cases_ok,
}
use uring_ws.Memory.{Memory}
use uring_ws.ReadBuf.{
  KernelBufferReader, KernelBufferVecReader, read_front, pop_drained, drop_reader,
}
use uring_ws.ReadBuf
use uring_ws.Net.{TcpStream, Socket}
use uring_ws.Net.Reads.{Reads, no_read, read_then, nonblocking_read}

-- The deque is not over its capacity, and the receive of the stream is the one of this id.
pub record Expecting {S : Type 0} (recv_id : ℕ) (s : TcpStream S) : Type 0 where
  pub held : length s.inner.buf_vec ≤ s.inner.capacity
  pub req : s.multishort_recv_id ≡ recv_id
  pub nonblocking : s.nonblocking ≡ true

-- The capacity stays, and no reader is added.
abbrev NoMore : KernelBufferVecReader → KernelBufferVecReader → Type 0
NoMore v v' = (v'.capacity ≡ v.capacity) × (length v'.buf_vec ≤ length v.buf_vec)

pop-NoMore :
    (mem : Memory) (v : KernelBufferVecReader) (r : KernelBufferReader)
    (rest : List KernelBufferReader) (drained : Bool) (res : KernelBufferVecReader × Memory)
    → length v.buf_vec ≡ suc (length rest)
    → pop_drained mem v r rest drained ≡ ok res
    → NoMore v res.0
unfolding pop_drained
pop-NoMore mem v r rest false res size e =
    subst (λ (t : KernelBufferVecReader × Memory). NoMore v t.0)
      {x = (record v { buf_vec = r ∷ rest }, mem)} {y = res} (cc) (refl, omega (arith, size))
pop-NoMore mem v r rest true res size e =
    >>=-cases_ok (drop_reader r mem) _ e λ mem' dropped done_it.
      subst (λ (t : KernelBufferVecReader × Memory). NoMore v t.0)
        {x = (record v { buf_vec = rest }, mem')} {y = res} (cc) (refl, omega (arith, size))

read-NoMore :
    (mem mem' : Memory) (l : List KernelBufferReader) (capacity : ℕ) (v' : KernelBufferVecReader)
    (room : ℕ) (out : List ℕ)
    → ReadBuf.read mem (record { buf_vec = l; capacity = capacity }) room ≡ ok (v', mem', out)
    → NoMore (record { buf_vec = l; capacity = capacity }) v'
unfolding ReadBuf.read
read-NoMore mem mem' [] capacity v' room out e =
    let v : KernelBufferVecReader = record { buf_vec = []; capacity = capacity } in
    subst (NoMore v) {x = v} (cc) (refl, omega arith)
read-NoMore mem mem' (r ∷ rest) capacity v' room out e =
    let v : KernelBufferVecReader = record { buf_vec = r ∷ rest; capacity = capacity } in
    >>=-cases_ok (read_front mem r room) _ e λ t given e1.
      >>=-cases_ok (pop_drained mem v t.0 rest t.2) _ e1
        λ u popped e2. subst (NoMore v) {x = u.0} (cc) (pop-NoMore mem v t.0 rest t.2 u refl popped)

pub Reads-Expecting :
    {S : Type 0} (socket : Socket S) {s s' : TcpStream S} {m m' : Memory} {recv_id : ℕ}
    → Reads socket s m s' m'
    → Expecting recv_id s
    → Expecting recv_id s'
Reads-Expecting socket no_read x = x
Reads-Expecting socket {s} {recv_id = recv_id}
      (read_then {s1 = s1} {m = m} {m1 = m1} room out e more) x =
    let (inner, got, reads, after) = nonblocking_read socket s s1 m m1 room out x.nonblocking e in
    let (cap, size) = read-NoMore m m1 s.inner.buf_vec s.inner.capacity inner room got reads in
    Reads-Expecting socket more (
      subst (Expecting recv_id) (sym after) (record {
        held = omega (arith, cap, size, x.held);
        req = x.req;
        nonblocking = x.nonblocking;
      }))
