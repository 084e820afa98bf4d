-- ===== src/Tests/Streams.antt =====
-- A stream of src/net.rs on small inputs.
use uring_ws.Base.{
  ℕ, ◌*◌, ◌+◌, ◌^◌, ◌<◌, ◌≡◌, ◌⊎◌, ◌↔◌, inl, refl, arith, true, some, none, List, [], ◌∷◌, length,
  ok, panic, assertion_failed, unwrap_failed, Panic, done,
}
use uring_ws.UserData.{owner_of, event_of, event_code}
use uring_ws.Sqe.{Sqe, io_uring_initialize_sqe, io_uring_sqe_set_data, send}
use uring_ws.Ring.{IoUring, prep_send, get_sqe_unwrap, io_uring_get_sqe, modify_sqe}
use uring_ws.Ring.Slots.{IsValid, appended}
use uring_ws.Ring.Queue.{blank, queued}
use uring_ws.Cqe.{Completion}
use uring_ws.Tests.Readers.{kb}
use uring_ws.Net.{
  TcpStream, Socket, write, write_nonblocking, as_raw_fd, next_send_id, on_completion,
}
use uring_ws.Net.Write.{
  write_entry, after_write, next_key, write_queues_message, write_refused, IsTracked,
  write-IsTracked,
}
use uring_ws.Net.Complete.{
  on_completion_misdirected, SendAccepted, on_completion_send, RecvAccepted, on_completion_recv,
  write_then_complete,
}

-- A socket with descriptor 9 that does nothing.
abbrev pub socket : Socket ℕ
socket = record {
  read = λ s n. (done [], s);
  write = λ s bs. (done (length bs), s);
  write_vectored = λ s bs. (done 0, s);
  flush = λ s. (done tt, s);
  set_nonblocking = λ s v. done tt;
  set_nodelay = λ s v. done tt;
  as_raw_fd = λ s. 9;
}

abbrev pub stream : TcpStream ℕ
stream = record {
  inner = record { buf_vec = []; capacity = 1024 };
  owner_id = 0;
  multishort_recv_id = 1200;
  send_id = 1001;
  pending_sent = (1000, 1 ∷ []) ∷ [];
  raw = 0;
  nonblocking = true;
}

abbrev pub idle : IoUring
idle = record {
  sq = record {
    khead = 0;
    sqe_tail = 0;
    ring_mask = 1;
    ring_entries = 2;
    sqes = blank ∷ blank ∷ [];
  };
  cq_khead = 0;
}

pub idle-IsValid : IsValid idle
idle-IsValid = record {
  order = 1;
  order_le = omega arith;
  entries = refl;
  mask = refl;
  slots = refl;
  head_word = omega arith;
  tail_word = omega arith;
  bounded = omega arith;
}

abbrev pub hello : List ℕ
hello = 104 ∷ 105 ∷ []

write_queues_message_example :
    (ring' : IoUring) × (old : Sqe) × (write socket 256 4096 hello idle stream
      ≡ ok (after_write hello stream, ring', done 2))
    × IsValid ring'
    × (queued ring' ≡ write_entry socket 256 4096 hello stream old ∷ [])
write_queues_message_example =
    write_queues_message socket 256 4096 hello idle stream refl (omega arith) idle-IsValid
      (omega arith)

write_refused_example :
    (◌≡◌ {A = ℕ} 0 0 × (write socket 256 4096 [] idle stream ≡ panic assertion_failed))
    ⊎ ((◌<◌ 0 0) × (write socket 256 4096 [] idle stream ≡ panic unwrap_failed))
write_refused_example = write_refused socket 256 4096 [] idle stream refl idle-IsValid (inl refl)

stream-IsTracked : IsTracked 1 stream
stream-IsTracked = record {
  owner_word = omega arith;
  id_word = omega arith;
  window = omega arith;
  recent = omega arith;
}

abbrev written : IoUring
written = appended idle (write_entry socket 256 4096 hello stream blank)

writes : write socket 256 4096 hello idle stream ≡ ok (after_write hello stream, written, done 2)
unfolding write write_nonblocking as_raw_fd next_send_id event_code prep_send get_sqe_unwrap
    io_uring_get_sqe modify_sqe io_uring_initialize_sqe io_uring_sqe_set_data send
writes = refl

write_then_complete_example :
    on_completion
      (λ c. 2 * c)
      (record {
        cqe = record { user_data = next_key stream; res = 2; flags = 0 };
        kernel_buf = none;
        user_data = next_key stream;
      })
      (after_write hello stream)
    ≡ ok (record (after_write hello stream) { pending_sent = (1000, 1 ∷ []) ∷ [] })
write_then_complete_example =
    write_then_complete (λ c. 2 * c) socket 256 4096 1 hello 0 idle written stream
      (after_write hello stream) (done 2) stream-IsTracked refl writes (omega arith)

-- The completions of the pending byte and of a receive, and one of another stream.
abbrev byte_sent : Completion
byte_sent = record {
  cqe = record { user_data = 1000; res = 1; flags = 0 };
  kernel_buf = none;
  user_data = 1000;
}

abbrev foreign : Completion
foreign = record byte_sent { user_data = 3 * 2 ^ 40 + 1000 }

abbrev recv_word : ℕ
recv_word = 2 ^ 56 + 1200

write-IsTracked_example :
    IsTracked 2 (after_write hello stream)
    × ((after_write hello stream).pending_sent ≡ (1000, 1 ∷ []) ∷ (next_key stream, hello) ∷ [])
write-IsTracked_example =
    write-IsTracked socket 256 4096 1 hello idle written stream (after_write hello stream) (done 2)
      stream-IsTracked (omega arith) refl writes

abbrev bytes_received : Completion
bytes_received = record {
  cqe = record { user_data = recv_word; res = 5; flags = 3 };
  kernel_buf = some kb;
  user_data = recv_word;
}

on_completion_send_example :
    (on_completion (λ c. 2 * c) byte_sent stream ≡ ok (record stream { pending_sent = [] }))
    ↔ SendAccepted (λ c. 2 * c) byte_sent stream (record stream { pending_sent = [] })
unfolding owner_of event_of
on_completion_send_example =
    on_completion_send (λ c. 2 * c) byte_sent stream (record stream { pending_sent = [] }) refl refl

abbrev with_bytes : TcpStream ℕ
with_bytes = record stream {
  inner = record { buf_vec = record { buf = some kb; claimed = 0 } ∷ []; capacity = 1024 };
}

on_completion_recv_example :
    (on_completion (λ c. 2 * c) bytes_received stream ≡ ok with_bytes)
    ↔ RecvAccepted (λ c. 2 * c) bytes_received stream with_bytes
unfolding owner_of event_of
on_completion_recv_example =
    on_completion_recv (λ c. 2 * c) bytes_received stream with_bytes refl refl

on_completion_misdirected_example :
    (on_completion (λ c. 2 * c) foreign stream ≡ panic assertion_failed)
    ⊎ (on_completion (λ c. 2 * c) foreign stream ≡ panic Panic.unknown_event)
unfolding owner_of
on_completion_misdirected_example =
    on_completion_misdirected (λ c. 2 * c) foreign stream (inl (omega arith))
