-- ===== src/Example/Group.antt =====
-- src/examples/io_uring_probe.rs: the ring of buffers that the program starts with.
use uring_ws.Base.{
  ◌++◌, ◌-◌, unwrap_failed, false, length-append, ℕ, zero, suc, ◌+◌, ◌*◌, ◌≡◌, refl, sym, subst, ap,
  arith, ◌∙◌, List, [], ◌∷◌, length, u16, ok, panic, ◌>>=◌, >>=-cases_ok, Result-cases,
  ok-injective, inl, inr, Result, or_panic, u32,
}
use uring_ws.UserData.{buf_size}
use uring_ws.Memory.{BufRing, Memory}
use uring_ws.BufRing.{Platform, BufRingPool, io_uring_buf_ring_add, new_buffer_group}
use uring_ws.BufRing
use uring_ws.BufRing.Init.{Supplied, new_buffer_group_lends_all}
use uring_ws.BufRing.Cycle.{Posted, Cycle, IsSound}
use uring_ws.Sqe.{multishot_recv, io_uring_sqe_set_data}
use uring_ws.Ring.{modify_sqe}
use uring_ws.Frames.{WebsocketHandler}
use uring_ws.Example.{bgid, Library, Running}
use uring_ws.Example.Copies.{
  io_uring_get_sqe, io_uring_buf_ring_advance, io_uring_buf_ring_mask, rust_io_uring_setup_buf_ring,
  alloc_layout_buffers, page_size,
}
use uring_ws.BufRing.Cycle.Ownership.{fresh_cycle-IsSound}
use uring_ws.Session.{QueueInit}
use uring_ws.Example.Setup.{
  init_ring, init_tcp_stream, add_stream, start_up, add_buffers, prep_buffer_ring,
}

-- The program's ring as a pool of one group.
abbrev pub only_ring : ℕ → BufRingPool
only_ring ptr = record { buf_ring_ptrs = ptr ∷ [] }

-- The state of the ring of buffers between two completions: no buffer is lent.
abbrev pub waiting : (mem : Memory) (head : ℕ) → List Posted → Cycle
waiting mem head posted = record { mem = mem; head = head; posted = posted; lent = [] }

>>=-both :
    {A B : Type 0} (step : Result A) {f g : A → Result B}
    → ((x : A) → f x ≡ g x)
    → (step >>= f) ≡ (step >>= g)
>>=-both (ok x) same = same x
>>=-both (panic p) same = refl

add_buffers_copy :
    (left i pool_size addr : ℕ) (br : BufRing)
    → add_buffers left i pool_size addr br ≡ BufRing.add_buffers left i pool_size addr br
unfolding add_buffers BufRing.add_buffers io_uring_buf_ring_mask BufRing.io_uring_buf_ring_mask
add_buffers_copy zero i pool_size addr br = refl
add_buffers_copy (suc left) i pool_size addr br =
    >>=-both (BufRing.io_uring_buf_ring_mask pool_size) λ mask.
      >>=-both (io_uring_buf_ring_add br (addr + i * buf_size) buf_size (u16 i) mask (u32 i))
        λ br'. add_buffers_copy left (i + 1) pool_size addr br'

-- Setting the buffers up does what the crate's `new_buffer_group` does with a pool of one group.
prep_buffer_ring-new_buffer_group :
    (platform : Platform) (mem : Memory) (ptr base : ℕ)
    → Supplied platform mem bgid ptr base
    → new_buffer_group platform (only_ring 0) mem bgid
      ≡ (prep_buffer_ring platform mem >>= λ x. ok (only_ring x.0, x.1, x.0))
unfolding prep_buffer_ring new_buffer_group rust_io_uring_setup_buf_ring alloc_layout_buffers
    page_size BufRing.rust_io_uring_setup_buf_ring BufRing.alloc_layout_buffers BufRing.page_size
    io_uring_buf_ring_advance BufRing.io_uring_buf_ring_advance
prep_buffer_ring-new_buffer_group platform mem ptr base s =
    let copy = add_buffers_copy 1024 0 1024 base s.fresh in
    let filling = BufRing.add_buffers 1024 0 1024 base s.fresh in
    elim (Result-cases filling) [
      | inl (filled, e) ↦
          ground (
            arith, s.ring_set_up, s.ring_not_null, s.layout_lem, s.block, s.block_not_null, copy, e,
          )
      | inr (p, e) ↦
          ground (
            arith, s.ring_set_up, s.ring_not_null, s.layout_lem, s.block, s.block_not_null, copy, e,
          )
    ]

prep-IsSound :
    (platform : Platform) (mem mem' : Memory) (ptr ptr' base : ℕ)
    → Supplied platform mem bgid ptr base
    → prep_buffer_ring platform mem ≡ ok (ptr', mem')
    → (ptr' ≡ ptr) × IsSound (only_ring ptr) bgid ptr base (waiting mem' 0 [])
prep-IsSound platform mem mem' ptr ptr' base s e =
    let (mem2, made, g, tail) =
      new_buffer_group_lends_all platform (only_ring 0) mem bgid ptr base s (omega arith) in
    let same =
      sym made
      ∙ prep_buffer_ring-new_buffer_group platform mem ptr base s
      ∙ ap (λ r. r >>= λ x. ok (only_ring x.0, x.1, x.0)) e in
    let mem_eq : mem2 ≡ mem' = ground (arith, same) in
    let ptr_eq : ptr' ≡ ptr = ground (arith, same) in
    (
      ptr_eq,
      subst (λ m. IsSound (only_ring ptr) bgid ptr base (waiting m 0 [])) mem_eq
          (fresh_cycle-IsSound (only_ring ptr) bgid ptr base mem2 g tail),
    )

-- With memory from the platform, the set-up of the buffers goes through.
pub prep_buffer_ring-ok :
    (platform : Platform) (mem : Memory) (ptr base : ℕ)
    → Supplied platform mem bgid ptr base
    → (mem' : Memory) × (prep_buffer_ring platform mem ≡ ok (ptr, mem'))
prep_buffer_ring-ok platform mem ptr base s =
    let (mem2, made, g, tail) =
      new_buffer_group_lends_all platform (only_ring 0) mem bgid ptr base s (omega arith) in
    let steps = prep_buffer_ring-new_buffer_group platform mem ptr base s in
    elim (Result-cases (prep_buffer_ring platform mem)) [
      | inl (x, e) ↦
          (x.1, e ∙ ap (λ (q : ℕ). ok (q, x.1)) (prep-IsSound platform mem x.1 ptr x.0 base s e).0)
      | inr (p, e) ↦ absurd (ground (arith, e, steps, made))
    ]

module _ {S C W D : Type 0} (lib : Library S C W) (new_decoder : D) where
  add_stream_keeps :
      (url request : List ℕ) (msg_waitall : ℕ) (run run' : Running S C W D)
      → add_stream lib new_decoder url request msg_waitall run ≡ ok run'
      → (run'.mem ≡ run.mem)
        × (run'.buf_ring ≡ run.buf_ring)
        × (length run'.streams ≡ length run.streams + 1)
        × (length run'.handlers ≡ length run.handlers + 1)
  unfolding add_stream
  add_stream_keeps url request msg_waitall run run' e =
      let handler : WebsocketHandler D = record { frame_decoder = new_decoder; str_acc = [] } in
      let handlers = run.handlers ++ (handler ∷ []) in
      let id = length handlers - 1 in
      >>=-cases_ok (init_tcp_stream lib new_decoder url request run.install_once) _ e λ opened _ e1.
        >>=-cases_ok (io_uring_get_sqe run.ring) _ e1 λ taken _ e2.
          >>=-cases_ok (or_panic unwrap_failed taken.1) _ e2 λ sqe _ e3.
            >>=-cases_ok (modify_sqe (λ e. ok (io_uring_sqe_set_data id e)) sqe taken.0) _ e3
              λ ring1 _ e4.
                >>=-cases_ok (modify_sqe (multishot_recv msg_waitall opened.0 0 bgid) sqe ring1) _
                  e4
                  λ ring2 _ e5.
                    let result = ok-injective _ _ e5 in
                    (
                      ap (λ r. r.mem) (sym result),
                      ap (λ r. r.buf_ring) (sym result),
                      ap (λ r. length r.streams) (sym result) ∙ length-append run.streams _,
                      ap (λ r. length r.handlers) (sym result) ∙ length-append run.handlers _,
                    )

  -- When the platform supplies the memory, the program that has started up has lent all its buffers to
  -- the kernel, each at the place of its id, and has one stream with its handler.
  pub start_up-IsSound :
      (queue_init_params : QueueInit) (errno : ℕ) (platform : Platform) (mem : Memory)
      (url request : List ℕ) (msg_waitall ptr base : ℕ) (run : Running S C W D)
      → Supplied platform mem bgid ptr base
      → start_up lib new_decoder queue_init_params errno platform mem url request msg_waitall
        ≡ ok run
      → (run.buf_ring ≡ ptr)
        × IsSound (only_ring ptr) bgid ptr base (waiting run.mem 0 [])
        × (length run.streams ≡ 1)
        × (length run.handlers ≡ 1)
  unfolding start_up
  start_up-IsSound queue_init_params errno platform mem url request msg_waitall ptr base run s e =
      >>=-cases_ok (init_ring queue_init_params errno) _ e λ ring _ e1.
        >>=-cases_ok (prep_buffer_ring platform mem) _ e1 λ x prepared e2.
          let (same_mem, same_ptr, streams, handlers) =
            add_stream_keeps url request msg_waitall
              (record {
                mem = x.1;
                ring = ring;
                buf_ring = x.0;
                install_once = false;
                streams = [];
                handlers = [];
                strs = [];
              })
              run e2 in
          let (ptr_eq, sound) = prep-IsSound platform mem x.1 ptr x.0 base s prepared in
          (
            same_ptr ∙ ptr_eq,
            subst (λ m. IsSound (only_ring ptr) bgid ptr base (waiting m 0 [])) (sym same_mem)
                sound,
            streams,
            handlers,
          )
