-- ===== src/Tests/Outbound.antt =====
-- A message of src/net.rs on its way to the kernel and back.
use uring_ws.Base.{ℕ, ◌*◌, ◌≡◌, refl, arith, none, List, [], ◌∷◌, ◌++◌, take, ok, done}
use uring_ws.UserData.{event_code, owner_of, event_of, from_parts}
use uring_ws.BufRing.Cycle.{All}
use uring_ws.Sqe.{Sqe, io_uring_initialize_sqe, io_uring_sqe_set_data, send}
use uring_ws.Ring.{IoUring, prep_send, get_sqe_unwrap, io_uring_get_sqe, modify_sqe}
use uring_ws.Ring.Slots.{appended}
use uring_ws.Ring.Queue.{blank, queued, consumed}
use uring_ws.Cqe.{Completion}
use uring_ws.Net.{TcpStream, write, write_nonblocking, as_raw_fd, next_send_id}
use uring_ws.Net.Write.{write_entry, after_write, next_key, IsTracked}
use uring_ws.Net.Complete.{write_then_complete}
use uring_ws.Net.Outbound.{Outbound, begins, writes, consumes, completes, AllSubmit, Done, keys}
use uring_ws.Net.Outbound.Order.{sends_in_order}
use uring_ws.Tests.Streams.{socket, stream, idle, idle-IsValid, hello}

abbrev fresh : TcpStream ℕ
fresh = record stream { pending_sent = [] }

fresh-IsTracked : IsTracked 0 fresh
fresh-IsTracked = record {
  owner_word = omega arith;
  id_word = omega arith;
  window = omega arith;
  recent = tt;
}

abbrev filed : IoUring
filed = appended idle (write_entry socket 256 4096 hello fresh blank)

files : write socket 256 4096 hello idle fresh ≡ ok (after_write hello fresh, filed, done 2)
unfolding write write_nonblocking as_raw_fd next_send_id event_code prep_send get_sqe_unwrap
    io_uring_get_sqe modify_sqe io_uring_initialize_sqe io_uring_sqe_set_data send
files = refl

abbrev hello_sent : Completion
hello_sent = record {
  cqe = record { user_data = next_key fresh; res = 2; flags = 0 };
  kernel_buf = none;
  user_data = next_key fresh;
}

-- The message is written, the kernel takes its entry, and the completion comes.
sent :
    Outbound socket
      (λ c. 2 * c)
      256
      idle
      fresh
      (consumed 1 filed)
      (record (after_write hello fresh) { pending_sent = [] })
      ([] ++ ((next_key fresh, hello) ∷ []))
      (next_key fresh ∷ [])
      ([] ++ take 1 (queued filed))
unfolding owner_of event_of from_parts
sent =
    completes hello_sent (record (after_write hello fresh) { pending_sent = [] })
      (consumes 1 (writes 4096 hello filed (after_write hello fresh) (done 2) begins files)
        (omega arith))
      refl refl
      (write_then_complete (λ c. 2 * c) socket 256 4096 0 hello 0 idle filed fresh
        (after_write hello fresh) (done 2) fresh-IsTracked refl files (omega arith))

sends_in_order_example :
    (entries : List Sqe) × AllSubmit socket fresh ((next_key fresh, hello) ∷ []) entries
    × (queued idle ++ entries ≡ take 1 (queued filed) ++ queued (consumed 1 filed))
    × (next_key fresh ∷ [] ≡ keys 0 1001 1)
    × All (Done (next_key fresh ∷ []) []) ((next_key fresh, hello) ∷ [])
sends_in_order_example =
    sends_in_order socket (λ c. 2 * c) 256 idle fresh (consumed 1 filed)
      (record (after_write hello fresh) { pending_sent = [] }) ((next_key fresh, hello) ∷ [])
      (next_key fresh ∷ []) (take 1 (queued filed)) idle-IsValid refl fresh-IsTracked (omega arith)
      sent
