-- ===== src/Tests/Clients.antt =====
-- A websocket library that only reads, and a buffer on its way to it, for src/ping_pong.rs.
use uring_ws.Base.{ℕ, ◌+◌, ◌≡◌, ◌⊎◌, ◌>>=◌, refl, arith, some, [], ◌∷◌, ok, panic, explicit}
use uring_ws.UserData.{req_of}
use uring_ws.Net.Ask.{Asks, answers, asks, play}
use uring_ws.Session.{FrameRead, Tungstenite, Running, no_frame}
use uring_ws.Session.PingPong.{handle_cqes}
use uring_ws.Session.PingPong.Runs.{Runs, begins, fills}
use uring_ws.Session.PingPong.Returns.Batch.{receipt, no_receipt, FindsError, handle_cqes_returns}
use uring_ws.Tests.Buffers.{made, group, place, first_posted}
use uring_ws.Tests.Streams.{socket}
use uring_ws.Tests.Sessions.{lib}
use uring_ws.Tests.Runs.{start, start-Opened, filled, hundred, hundred-Announces}

-- It reads twice, first sixty bytes and then as many again, which drains the buffer.
abbrev frames : ℕ → Asks (FrameRead × ℕ)
frames h = asks 60 (omega arith) λ first. asks 60 (omega arith) λ second. answers (no_frame, h + 1)

abbrev client : Tungstenite ℕ ℕ ℕ
client = record lib {
  read_message_frame = λ h s m. (play socket (frames h) s m >>= λ t. ok (t.0.0, t.0.1, t.1, t.2));
}

arrived_run : Runs socket client (λ c. c + 1) 0 8 4096 start filled 1 (first_posted ∷ [])
arrived_run =
    fills group.ring (place 0 (omega arith)).buf 100 (λ a. 7) begins group.there
      (omega (arith, made.3)) (place 0 (omega arith)).at_place
      (omega (arith, (place 0 (omega arith)).len_lem))

handle_cqes_returns_example :
    ((run' : Running ℕ ℕ ℕ) × (handle_cqes client (λ c. c + 1) 1 0 (some hundred ∷ []) filled
        ≡ ok run')
      × Runs socket client (λ c. c + 1) 0 8 4096 start run' 1 [])
    ⊎ (FindsError client
        × (handle_cqes client (λ c. c + 1) 1 0 (some hundred ∷ []) filled ≡ panic explicit))
unfolding req_of
handle_cqes_returns_example =
    handle_cqes_returns socket client frames (λ c. c + 1) 0 8 4096 start (λ h s m. refl)
      start-Opened (λ c. omega arith) filled 1 (first_posted ∷ []) [] (hundred ∷ []) 0
      (some hundred ∷ []) 0 arrived_run (receipt hundred-Announces refl no_receipt) (refl, tt) refl
