-- ===== src/Tests/Queues.antt =====
-- A submission queue of four entries of src/ring.rs whose counters are about to wrap.
use uring_ws.Base.{
  ℕ, some, ◌-◌, ◌^◌, ◌≡◌, ◌≢◌, ◌⊎◌, refl, arith, none, [], ◌∷◌, ◌++◌, ok, panic, unwrap_failed,
}
use uring_ws.Sqe.{Sqe, io_uring_initialize_sqe, send}
use uring_ws.Ring.{IoUring, io_uring_get_sqe, prep_send, get_sqe_unwrap, modify_sqe}
use uring_ws.Ring.Slots.{in_flight, IsValid, appended}
use uring_ws.Ring.Queue.{blank, queued, consumed}
use uring_ws.Ring.Traffic.{
  io_uring_get_sqe_fresh, prep_send_refines, send_entry, Traffic, start, sends, consumes,
  Traffic-queued,
}

-- One entry waits, in the last slot.
abbrev wrapping : IoUring
wrapping = record {
  sq = record {
    khead = 2 ^ 32 - 1;
    sqe_tail = 0;
    ring_mask = 3;
    ring_entries = 4;
    sqes = blank ∷ blank ∷ blank ∷ record blank { user_data = 5 } ∷ [];
  };
  cq_khead = 0;
}

wrapping-IsValid : IsValid wrapping
wrapping-IsValid = record {
  order = 2;
  order_le = omega arith;
  entries = refl;
  mask = refl;
  slots = refl;
  head_word = omega arith;
  tail_word = omega arith;
  bounded = omega arith;
}

abbrev entry : Sqe
entry = record blank { opcode = 26; fd = 9; addr = 4096; len = 20; msg_flags = 256 }

after_send : prep_send 9 4096 20 256 wrapping ≡ ok (appended wrapping entry, 0)
unfolding prep_send get_sqe_unwrap io_uring_get_sqe modify_sqe io_uring_initialize_sqe send
after_send = refl

gives_slot : io_uring_get_sqe wrapping ≡ ok (appended wrapping blank, some 0)
unfolding io_uring_get_sqe modify_sqe io_uring_initialize_sqe
gives_slot = refl

io_uring_get_sqe_fresh_example : ◌≢◌ {A = ℕ} 0 3
io_uring_get_sqe_fresh_example =
    io_uring_get_sqe_fresh wrapping (appended wrapping blank) 0 0 wrapping-IsValid gives_slot
      (omega arith)

prep_send_refines_example :
    ((in_flight wrapping ≡ 4)
      × (io_uring_get_sqe wrapping ≡ ok (wrapping, none))
      × (prep_send 9 4096 20 256 wrapping ≡ panic unwrap_failed))
    ⊎ ((ring' : IoUring) × (old : Sqe) × (prep_send 9 4096 20 256 wrapping ≡ ok (ring', 0))
        × IsValid ring'
        × (queued ring' ≡ queued wrapping ++ (send_entry 9 4096 20 256 old ∷ [])))
prep_send_refines_example = prep_send_refines 9 4096 20 256 wrapping wrapping-IsValid

traffic :
    Traffic wrapping
      (consumed 1 (appended wrapping entry))
      (entry ∷ [])
      (record blank { user_data = 5 } ∷ [])
traffic = consumes (sends start 9 4096 20 256 0 entry after_send refl) 1 (omega arith)

Traffic-queued_example :
    IsValid (consumed 1 (appended wrapping entry))
    × (record blank { user_data = 5 } ∷ entry ∷ []
        ≡ record blank { user_data = 5 } ∷ queued (consumed 1 (appended wrapping entry)))
Traffic-queued_example =
    Traffic-queued wrapping (consumed 1 (appended wrapping entry)) (entry ∷ [])
      (record blank { user_data = 5 } ∷ []) wrapping-IsValid traffic
