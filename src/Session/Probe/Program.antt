-- ===== src/Session/Probe/Program.antt =====
-- src/io_uring_probe_v2.rs: the whole program, with as many rounds of its loop as the kernel is asked for.
use uring_ws.Base.{ℕ, false, List, [], ◌∷◌, Result, ok, ◌>>=◌}
use uring_ws.Memory.{Memory}
use uring_ws.BufRing.{Platform}
use uring_ws.Net.{Socket}
use uring_ws.Session.{QueueInit, Tungstenite, Running, Kernel, empty_pool}
use uring_ws.Session.Probe.{init_ring, add_streams, round}

module _ {S T W : Type 0} (socket : Socket S) (lib : Tungstenite S T W)
    (with_capacity : ℕ → ℕ) where
  -- Up to the loop, with five streams.
  unfoldable pub open_all :
      (request : List ℕ)
      → QueueInit
      → Platform
      → Memory
      → (msg_waitall : ℕ) → Result (Running S T W)
  open_all request queue_init_params platform mem msg_waitall = do
    ring ← init_ring queue_init_params
    add_streams socket lib with_capacity request platform msg_waitall 5 0 (record {
      pool = empty_pool;
      mem = mem;
      ring = ring;
      install_once = false;
      streams = [];
      handlers = [];
    })

  -- The loop, which has no end, over its first rounds.
  unfoldable pub rounds : (grow : ℕ → ℕ) → List Kernel → Running S T W → Result (Running S T W)
  rounds grow [] run = ok run
  rounds grow (kernel ∷ rest) run = do
    run' ← round socket lib grow kernel run
    rounds grow rest run'

  unfoldable pub probe_sys_uring :
      (request : List ℕ)
      → QueueInit
      → Platform
      → Memory
      → (msg_waitall : ℕ) → (grow : ℕ → ℕ) → List Kernel
      → Result (Running S T W)
  unfolding open_all rounds
  probe_sys_uring request queue_init_params platform mem msg_waitall grow kernels = do
    run ← open_all request queue_init_params platform mem msg_waitall
    rounds grow kernels run
