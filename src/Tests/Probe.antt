-- ===== src/Tests/Probe.antt =====
-- A completion of src/io_uring_probe_v2.rs: the message of a stream over native TLS has been sent.
use uring_ws.Base.{ℕ, ◌*◌, ◌≡◌, ◌≢◌, refl, true, some, [], ◌∷◌, get_elem?, ok}
use uring_ws.UserData.{owner_of, event_of, event_from_u8}
use uring_ws.Ring.{io_uring_cq_advance}
use uring_ws.Cqe.{Cqe, Completion, from_raw_event, drop_completion}
use uring_ws.Net.{on_completion, complete_event, complete_send, remove}
use uring_ws.Session.{native_tls, Running}
use uring_ws.Session.Probe.{tls_stream, frame_checked, handle_cqe}
use uring_ws.Session.Probe.Loop.{Decoded, native_cqe_decodes}
use uring_ws.Tests.Buffers.{no_memory, two_groups}
use uring_ws.Tests.Streams.{socket, stream, idle}
use uring_ws.Tests.Sessions.{lib}

abbrev sent : Cqe
sent = record { user_data = 1000; res = 1; flags = 0 }

abbrev waiting : Running ℕ ℕ ℕ
waiting = record {
  pool = two_groups;
  mem = no_memory;
  ring = idle;
  install_once = true;
  streams = record { stream = native_tls 7 stream; context = 0 } ∷ [];
  handlers = 3 ∷ [];
}

abbrev handled : Running ℕ ℕ ℕ
handled = record waiting {
  ring = record idle { cq_khead = 1 };
  streams =
      record { stream = native_tls 7 (record stream { pending_sent = [] }); context = 0 } ∷ [];
  handlers = 4 ∷ [];
}

handles : handle_cqe socket lib (λ c. 2 * c) (some sent) waiting ≡ ok handled
unfolding handle_cqe from_raw_event on_completion complete_event complete_send remove tls_stream
    frame_checked owner_of event_of event_from_u8 drop_completion io_uring_cq_advance
handles = refl

native_cqe_decodes_example :
    (c : Completion) × (from_raw_event two_groups no_memory (some sent) ≡ ok c)
    × Decoded socket lib (λ c. 2 * c) c waiting handled
    × ((j : ℕ)
        → j ≢ owner_of c.user_data
        → (get_elem? handled.streams j ≡ get_elem? waiting.streams j)
          × (get_elem? handled.handlers j ≡ get_elem? waiting.handlers j))
    × (two_groups ≡ two_groups)
    × (handled.ring ≡ io_uring_cq_advance 1 waiting.ring)
native_cqe_decodes_example =
    native_cqe_decodes socket lib (λ c. 2 * c) (some sent) waiting handled handles
