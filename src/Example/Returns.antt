-- ===== src/Example/Returns.antt =====
-- src/examples/io_uring_probe.rs: the buffers of the program, from their set-up to their return. They go
-- through the steps of the ring of buffers that the crate's own code goes through.
use uring_ws.Base.{
  ℕ, ◌+◌, ◌*◌, ◌<◌, ◌≡◌, refl, sym, ap, arith, ◌∙◌, some, List, [], ◌∷◌, get_elem?, u16, ltb,
  if◌then◌else◌, ok, panic, ◌>>=◌, >>=-cases_ok, Result-cases, ok-injective, lt→ltb, inl, inr,
  Result, on_option, or_panic, check, abs_i32, os_error, out_of_bounds, todo, unimplemented, ◌>>>◌,
  Option, none,
}
use uring_ws.Memory.{BufRing, IoBuf, Memory, deref}
use uring_ws.BufRing.{KernelBuffer, io_uring_buf_ring_add, buf_ring_add_advance}
use uring_ws.BufRing
use uring_ws.BufRing.Cycle.{Posted, Cycle, IsSound, completes, drops}
use uring_ws.BufRing.Cycle.Sound.{Step-IsSound}
use uring_ws.BufRing.Cycle.Progress.{sound_completes, sound_drops}
use uring_ws.Cqe.{Cqe, is_negative}
use uring_ws.ReadBuf.{slice}
use uring_ws.Frames.{Decoder}
use uring_ws.Example.{bgid, MaybeTlsStream, plain, rustls, other, Library, Running}
use uring_ws.Example.Copies.{io_uring_buf_ring_advance, io_uring_buf_ring_mask, io_uring_cq_advance}
use uring_ws.Example.Group.{only_ring, waiting}
use uring_ws.Example.Receive.{decrypt, receive, yield_back, handle_cqe}

module _ {S C W D I : Type 0} (lib : Library S C W) (decoder : Decoder D I)
    (lossy : List ℕ → List ℕ) (fuel : ℕ) where
  on_rustls {ℓ} :
      {X : Type 0} {P : Type ℓ} (m : MaybeTlsStream S C) (f : C → S → Result X) {y : X}
      → elim m [
        | plain stream ↦ panic todo
        | other ↦ panic unimplemented
        | rustls conn stream ↦ f conn stream
      ]
        ≡ ok y
      → ((conn : C) (stream : S) → f conn stream ≡ ok y → P)
      → P
  on_rustls (plain stream) f e k = absurd (cc)
  on_rustls other f e k = absurd (cc)
  on_rustls (rustls conn stream) f e k = k conn stream e

  receive_keeps :
      (cqe : Cqe) (buf : IoBuf) (run run' : Running S C W D)
      → receive lib decoder lossy fuel cqe buf run ≡ ok (some run')
      → (run'.mem.rings ≡ run.mem.rings) × (run'.ring ≡ run.ring) × (run'.buf_ring ≡ run.buf_ring)
  unfolding receive
  receive_keeps cqe buf run run' e =
      >>=-cases_ok (if is_negative cqe.res then abs_i32 cqe.res else ok 0) _ e λ errno _ e1.
        >>=-cases_ok (if is_negative cqe.res then panic (os_error errno) else ok tt) _ e1 λ _ _ e2.
          >>=-cases_ok (check (ltb 0 cqe.res)) _ e2 λ _ _ e3.
            >>=-cases_ok (or_panic out_of_bounds (get_elem? run.streams cqe.user_data)) _ e3
              λ ws _ e4.
                >>=-cases_ok (or_panic out_of_bounds (get_elem? run.handlers cqe.user_data)) _ e4
                  λ handler _ e5. on_rustls ws.stream _ e5 λ conn stream e6.
                    >>=-cases_ok
                      (decrypt lib decoder lossy fuel (slice run.mem.bytes buf.addr cqe.res) conn
                        handler run.strs)
                      _ e6
                      λ read _ e7.
                        on_option read _ _ e7 (λ none_left. absurd (cc))
                          λ r e8. (ground (arith, e8), ground (arith, e8), ground (arith, e8))

  -- A buffer that is given back, as the crate's own code has it.
  abbrev as_lent : (ptr addr bid data_len : ℕ) → KernelBuffer
  as_lent ptr addr bid data_len = record {
    addr = addr;
    data_len = data_len;
    buf_ring = ptr;
    bid = bid;
    bgid = bgid;
    buf_len = 1500;
  }

  abbrev given : Running S C W D → Memory → Running S C W D
  given run mem = record run { mem = mem; ring = io_uring_cq_advance 1 run.ring }

  yield_back-add_advance :
      (buf : IoBuf) (bid data_len : ℕ) (run : Running S C W D)
      → yield_back lib decoder lossy fuel buf bid run ≡ (
          buf_ring_add_advance (as_lent run.buf_ring buf.addr (u16 bid) data_len) run.mem >>= λ mem.
          ok (given run mem))
  unfolding yield_back buf_ring_add_advance io_uring_buf_ring_mask BufRing.io_uring_buf_ring_mask
      io_uring_buf_ring_advance BufRing.io_uring_buf_ring_advance
  yield_back-add_advance buf bid data_len run = elim (Result-cases (deref run.mem run.buf_ring)) [
    | inr (p, e) ↦ rw e refl
    | inl (br, e) ↦ elim (Result-cases (io_uring_buf_ring_add br buf.addr 1500 (u16 bid) 1023 0)) [
      | inr (p, f) ↦ rw (e, f) refl
      | inl (br', f) ↦ rw (e, f) refl
    ]
  ]

  -- Giving a buffer back looks at the rings alone.
  add_advance-bytes :
      (kb : KernelBuffer) (mem mem' mem2 : Memory)
      → buf_ring_add_advance kb mem ≡ ok mem'
      → mem2.rings ≡ mem.rings
      → buf_ring_add_advance kb mem2 ≡ ok (record mem2 { rings = mem'.rings })
  unfolding buf_ring_add_advance io_uring_buf_ring_mask BufRing.io_uring_buf_ring_mask
  add_advance-bytes kb mem mem' mem2 e same =
      >>=-cases_ok (deref mem kb.buf_ring) _ e λ br found e1.
        >>=-cases_ok (io_uring_buf_ring_add br kb.addr kb.buf_len kb.bid 1023 0) _ e1
          λ br' added e2.
            rw (same, found, added)
              (ap (λ m. ok (record mem2 { rings = m.rings })) (ok-injective _ _ e2))

  abbrev pub returned : Memory → Option (Running S C W D) → Option (Running S C W D)
  returned mem none = none
  returned mem (some run) = some (given run (record (run.mem) { rings = mem.rings }))

  handle_cqe-receive :
      (cqe : Cqe) (br : BufRing) (buf : IoBuf) (run : Running S C W D)
      → deref run.mem run.buf_ring ≡ ok br
      → cqe.flags >>> 16 < 1024
      → get_elem? br (cqe.flags >>> 16) ≡ some buf
      → handle_cqe lib decoder lossy fuel (some cqe) run ≡ (
          receive lib decoder lossy fuel cqe buf run >>= λ received. elim received [
            | none ↦ ok none
            | some run' ↦ yield_back lib decoder lossy fuel buf (cqe.flags >>> 16) run' >>= λ run''.
                ok (some run'')
          ])
  unfolding handle_cqe
  handle_cqe-receive cqe br buf run there small found =
      rw (there, lt→ltb (cqe.flags >>> 16) 1024 small, found) refl

  handled_returned :
      (cqe : Cqe) (buf : IoBuf) (run : Running S C W D) (addr : ℕ) (mem : Memory)
      → buf.addr ≡ addr
      → cqe.flags >>> 16 < 1024
      → buf_ring_add_advance (as_lent run.buf_ring addr (cqe.flags >>> 16) cqe.res) run.mem ≡ ok mem
      → (receive lib decoder lossy fuel cqe buf run >>= λ received. elim received [
        | none ↦ ok none
        | some run' ↦ yield_back lib decoder lossy fuel buf (cqe.flags >>> 16) run' >>= λ run''.
            ok (some run'')
      ])
        ≡ (receive lib decoder lossy fuel cqe buf run >>= λ d. ok (returned mem d))
  handled_returned cqe buf run addr mem at small gave =
      let id = cqe.flags >>> 16 in
      elim (Result-cases (receive lib decoder lossy fuel cqe buf run)) [
        | inr (p, e) ↦ rw e refl
        | inl (none, e) ↦ rw e refl
        | inl (some run', e) ↦
            let (rings, _, same_ptr) = receive_keeps cqe buf run run' e in
            let kb = as_lent run.buf_ring addr id cqe.res in
            let kb_eq : kb ≡ as_lent run'.buf_ring buf.addr (u16 id) cqe.res =
              let id_eq : id ≡ u16 id = omega arith in ground (arith, same_ptr, at, id_eq) in
            let yielded =
              yield_back-add_advance buf id cqe.res run'
              ∙ ap (λ k. buf_ring_add_advance k run'.mem >>= λ m. ok (given run' m)) (sym kb_eq)
              ∙ ap (λ r. r >>= λ m. ok (given run' m))
                  (add_advance-bytes kb run.mem mem run'.mem gave rings) in
            rw (e, yielded) refl
      ]

  -- When the group is sound with a completion waiting, the program finds the completion's own
  -- buffer, a full one of the block; it panics only where its handling of the bytes does; and then
  -- it has given the buffer back, the completion is done, and the group is sound again.
  pub handle_cqe_returns_buffer :
      (base head : ℕ) (rest : List Posted) (cqe : Cqe) (run : Running S C W D)
      → IsSound
          (only_ring run.buf_ring)
          bgid
          run.buf_ring
          base
          (waiting run.mem head (record { bid = cqe.flags >>> 16; data_len = cqe.res } ∷ rest))
      → (buf : IoBuf) × (mem : Memory) × (buf.addr ≡ base + (cqe.flags >>> 16) * 1500)
        × (buf.len ≡ 1500)
        × (handle_cqe lib decoder lossy fuel (some cqe) run
            ≡ (receive lib decoder lossy fuel cqe buf run >>= λ d. ok (returned mem d)))
        × IsSound (only_ring run.buf_ring) bgid run.buf_ring base (waiting mem head rest)
  handle_cqe_returns_buffer base head rest cqe run s =
      let p : Posted = record { bid = cqe.flags >>> 16; data_len = cqe.res } in
      let small : p.bid < 1024 = s.posted_sound.0.0 in
      let held = s.at_ptr.group.places p.bid small in
      let before = waiting run.mem head (p ∷ rest) in
      let got = sound_completes before p rest refl s refl in
      let kb = as_lent run.buf_ring (base + p.bid * 1500) p.bid p.data_len in
      let s1 = Step-IsSound refl s (completes before p rest kb refl got) in
      let after : Cycle = record before { posted = rest; lent = kb ∷ [] } in
      let (mem, gave) = sound_drops after kb [] s1 refl in
      let there : deref run.mem run.buf_ring ≡ ok s.at_ptr.ring =
        ground (arith, s.at_ptr.there, s.at_ptr.not_null) in
      (
        held.buf,
        mem,
        held.addr_lem,
        held.len_lem,
        handle_cqe-receive cqe s.at_ptr.ring held.buf run there small held.at_place
            ∙ handled_returned cqe held.buf run (base + p.bid * 1500) mem held.addr_lem small gave,
        Step-IsSound refl s1 (drops after kb [] mem refl gave),
      )
