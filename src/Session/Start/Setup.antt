-- ===== src/Session/Start/Setup.antt =====
-- src/ping_pong.rs: what the ring that is set up may lack, and what a new stream queues.
use uring_ws.Base.{
  ℕ, ◌+◌, ◌^◌, ◌≡◌, refl, arith, ◌<◌, bit_and, ◌==◌, if◌then◌else◌, false, [], ◌∷◌, ◌++◌, length,
  set, Bool, some, get_elem?, ok, panic, assertion_failed, get_elem?-set_self, set-set, u16,
}
use Prim.Native.Nat.{bit_and-bitwise}
use uring_ws.UserData.{Event, from_parts, event_of, owner_of, event_code, cq_entries}
use uring_ws.UserData.Fields.{from_parts_fields}
use uring_ws.Sqe.{Sqe, io_uring_initialize_sqe, io_uring_sqe_set_data, multishot_recv}
use uring_ws.Memory.{Memory}
use uring_ws.Ring.{IoUring, modify_sqe, get_sqe_unwrap}
use uring_ws.Ring.Slots.{
  in_flight, IsValid, next_slot, next_slot-lt, appended, taken, appended-IsValid,
  io_uring_get_sqe_room,
}
use uring_ws.Ring.Queue.{queued, queued-appended}
use uring_ws.BufRing.{Platform, tail_of}
use uring_ws.BufRing.Group.{GroupAt}
use uring_ws.BufRing.Init.{Supplied, new_buffer_group_lends_all}
use uring_ws.Net.{Socket}
use uring_ws.Session.{Params, QueueInit, WebSocket, Tungstenite, Running}
use uring_ws.Session.Start.{setup_params, init_ring, init_tcp_stream, add_stream}

-- When the kernel sets up the ring and leaves the flags as they were asked for, only the feature
-- EXT_ARG decides whether the program goes on: the check that is meant for the feature
-- SQPOLL_NONFIXED tests the flags, where the same bit is SUBMIT_ALL, and always holds.
pub init_ring_checks_ext_arg :
    (queue_init_params : QueueInit) (params : Params) (ring : IoUring)
    → queue_init_params cq_entries (setup_params false) ≡ (0, params, ring)
    → params.flags ≡ (setup_params false).flags
    → init_ring queue_init_params
      ≡ (if bit_and params.features 256 == 0 then panic assertion_failed else ok ring)
unfolding init_ring setup_params
init_ring_checks_ext_arg queue_init_params params ring e kept = ground (arith, e, kept)

-- The receive that a new stream queues, in a slot that held `old`.
abbrev pub recv_entry : (fd owner_id : ℕ) → Sqe → Sqe
recv_entry fd owner_id old = record old {
  opcode = 27;
  flags = 32;
  ioprio = 2;
  fd = fd;
  msg_flags = 0;
  user_data = from_parts 1 owner_id (owner_id + 1200);
  buf_group = u16 owner_id;
  personality = 0;
  file_index = 0;
  addr3 = 0;
  pad2 = 0;
}

set_recv :
    (msg_waitall fd owner_id word : ℕ) (ring : IoUring) (old : Sqe)
    → IsValid ring
    → (modify_sqe (λ e. ok (io_uring_sqe_set_data word e)) (next_slot ring) (taken ring old)
        ≡ ok (appended ring (io_uring_sqe_set_data word (io_uring_initialize_sqe old))))
unfolding modify_sqe
set_recv msg_waitall fd owner_id word ring old v = ground (
  arith,
  get_elem?-set_self ring.sqes (next_slot ring) (io_uring_initialize_sqe old),
  next_slot-lt v,
  set-set ring.sqes (next_slot ring) (io_uring_initialize_sqe old)
      (io_uring_sqe_set_data word (io_uring_initialize_sqe old)),
)

fill_recv :
    (msg_waitall fd owner_id : ℕ) (ring : IoUring) (old : Sqe)
    → IsValid ring
    → (modify_sqe (multishot_recv msg_waitall fd 0 owner_id) (next_slot ring) (
          appended ring (
            io_uring_sqe_set_data
              (from_parts 1 owner_id (owner_id + 1200))
              (io_uring_initialize_sqe old)))
        ≡ ok (appended ring (recv_entry fd owner_id old)))
unfolding modify_sqe multishot_recv io_uring_sqe_set_data io_uring_initialize_sqe
fill_recv msg_waitall fd owner_id ring old v =
    let slot = next_slot ring in
    let set_entry =
      io_uring_sqe_set_data (from_parts 1 owner_id (owner_id + 1200))
        (io_uring_initialize_sqe old) in
    ground (
      arith,
      get_elem?-set_self ring.sqes slot set_entry,
      next_slot-lt v,
      set-set ring.sqes slot set_entry (recv_entry fd owner_id old),
      bit_and-bitwise 0 msg_waitall,
    )

taken_slot :
    {ring : IoUring}
    → IsValid ring
    → in_flight ring < ring.ring_entries
    → (old : Sqe) × (get_elem? ring.sqes (next_slot ring) ≡ some old)
      × (get_sqe_unwrap ring ≡ ok (taken ring old, next_slot ring))
unfolding get_sqe_unwrap
taken_slot {ring} v room =
    let (old, there, e) = io_uring_get_sqe_room v room in (old, there, rw e refl)

module _ {S T W : Type 0} (socket : Socket S) (lib : Tungstenite S T W) where
  -- Adding a stream, with room in the queue, memory from the platform and a place in the pool for its
  -- owner, lends a whole buffer group and queues one receive that picks from that group. Its word says
  -- which event and owner it is for. Its length, address and offset are those of the entry that
  -- stood in its slot before.
  pub add_stream_queues_receive :
      (with_capacity : ℕ → ℕ) (platform : Platform) (msg_waitall owner_id ptr base fd : ℕ)
      (ws : WebSocket S T W) (installed : Bool) (run : Running S T W)
      → init_tcp_stream socket lib with_capacity owner_id (owner_id + 1200) run.install_once
        ≡ ok (fd, ws, installed)
      → Supplied platform run.mem owner_id ptr base
      → owner_id < length run.pool.buf_ring_ptrs
      → owner_id + 1200 < 2 ^ 16
      → IsValid run.ring
      → in_flight run.ring < run.ring.ring_entries
      → (mem : Memory) × (ring : IoUring) × (old : Sqe) × (add_stream socket lib with_capacity
            platform msg_waitall owner_id run
          ≡ ok (record {
            pool = record { buf_ring_ptrs = set run.pool.buf_ring_ptrs owner_id ptr };
            mem = mem;
            ring = ring;
            install_once = installed;
            streams = run.streams ++ (ws ∷ []);
            handlers = run.handlers ++ (lib.new_context ∷ []);
          }))
        × IsValid ring
        × (get_elem? run.ring.sqes (next_slot run.ring) ≡ some old)
        × (queued ring ≡ queued run.ring ++ (recv_entry fd owner_id old ∷ []))
        × (event_of (recv_entry fd owner_id old).user_data ≡ event_code Event.multishort_recv)
        × (owner_of (recv_entry fd owner_id old).user_data ≡ owner_id)
        × ((g : GroupAt base ptr mem) × (tail_of g.ring ≡ 1024))
  unfolding add_stream event_code
  add_stream_queues_receive with_capacity platform msg_waitall owner_id ptr base fd ws installed run
        opened s held small v room =
      let (mem, made, group, full) =
        new_buffer_group_lends_all platform run.pool run.mem owner_id ptr base s held in
      let (old, there, got) = taken_slot v room in
      let new = recv_entry fd owner_id old in
      let fields =
        from_parts_fields 1 owner_id (owner_id + 1200) (omega arith) (omega arith) (omega arith) in
      (
        mem,
        appended run.ring new,
        old,
        ground (
          arith,
          opened,
          made,
          got,
          set_recv msg_waitall fd owner_id (from_parts 1 owner_id (owner_id + 1200)) run.ring old v,
          fill_recv msg_waitall fd owner_id run.ring old v,
        ),
        (appended-IsValid new v room).0,
        there,
        queued-appended new v room,
        fields.0,
        fields.1,
        (group, full),
      )
