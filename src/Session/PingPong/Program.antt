-- ===== src/Session/PingPong/Program.antt =====
-- src/ping_pong.rs: the whole program, with as many rounds of its loop as the kernel is asked for.
use uring_ws.Base.{ℕ, false, ◌<◌, ◌≡◌, refl, arith, Bool, List, [], ◌∷◌, Result, ok, ◌>>=◌}
use uring_ws.Memory.{Memory}
use uring_ws.BufRing.{Platform}
use uring_ws.BufRing.Init.{Supplied}
use uring_ws.Ring.{IoUring}
use uring_ws.Ring.Slots.{IsValid, in_flight}
use uring_ws.Net.{Socket}
use uring_ws.Session.{QueueInit, Tungstenite, Running, Kernel, empty_pool}
use uring_ws.Session.Start.{init_ring, add_streams}
use uring_ws.Session.PingPong.{round}
use uring_ws.Session.PingPong.Runs.{Opened}
use uring_ws.Session.PingPong.Opening.{Connects, add_stream_opens}

module _ {S T W : Type 0} (socket : Socket S) (lib : Tungstenite S T W)
    (with_capacity : ℕ → ℕ) where
  -- Up to the loop.
  unfoldable pub open_all :
      QueueInit → Platform → Memory → (msg_waitall : ℕ) → Result (Running S T W)
  open_all queue_init_params platform mem msg_waitall = do
    ring ← init_ring queue_init_params
    add_streams socket lib with_capacity platform msg_waitall 1 0 (record {
      pool = empty_pool;
      mem = mem;
      ring = ring;
      install_once = false;
      streams = [];
      handlers = [];
    })

  -- The loop, which has no end, over its first rounds: in each, whether a ping is due, and what the
  -- kernel does.
  unfoldable pub rounds :
      (grow : ℕ → ℕ)
      → (ping_msg : List ℕ) → List (Bool × Kernel)
      → Running S T W
      → Result (Running S T W)
  rounds grow ping_msg [] run = ok run
  rounds grow ping_msg ((due, kernel) ∷ rest) run = do
    run' ← round lib grow ping_msg due kernel run
    rounds grow ping_msg rest run'

  unfoldable pub ping_pong :
      QueueInit
      → Platform
      → Memory
      → (msg_waitall : ℕ) → (grow : ℕ → ℕ) → (ping_msg : List ℕ) → List (Bool × Kernel)
      → Result (Running S T W)
  unfolding open_all rounds
  ping_pong queue_init_params platform mem msg_waitall grow ping_msg kernels = do
    run ← open_all queue_init_params platform mem msg_waitall
    rounds grow ping_msg kernels run

  -- When the ring is set up with room for an entry, the provider of cryptography is installed, the
  -- connection succeeds and memory is supplied, the program reaches its loop, and its stream is open:
  -- nonblocking, with nothing to read, over a group that the kernel has in full.
  pub ping_pong_opens :
      (queue_init_params : QueueInit) (platform : Platform) (mem : Memory)
      (msg_waitall ptr base : ℕ) (ring : IoUring) (grow : ℕ → ℕ) (ping_msg : List ℕ)
      (kernels : List (Bool × Kernel))
      → init_ring queue_init_params ≡ ok ring
      → IsValid ring
      → in_flight ring < ring.ring_entries
      → Connects socket lib with_capacity 0
      → Supplied platform mem 0 ptr base
      → (run : Running S T W) × (open_all queue_init_params platform mem msg_waitall ≡ ok run)
        × Opened 0 ptr base run
        × IsValid run.ring
        × (ping_pong queue_init_params platform mem msg_waitall grow ping_msg kernels
            ≡ rounds grow ping_msg kernels run)
  unfolding open_all add_streams ping_pong
  ping_pong_opens queue_init_params platform mem msg_waitall ptr base ring grow ping_msg kernels
        set_up v room k s =
      let empty : Running S T W = record {
        pool = empty_pool;
        mem = mem;
        ring = ring;
        install_once = false;
        streams = [];
        handlers = [];
      } in
      let (run, added, opened, valid) =
        add_stream_opens socket lib with_capacity platform msg_waitall 0 ptr base empty k s refl
          (omega arith) (omega arith) v room in
      (run, rw (set_up, added) refl, opened, valid, rw (set_up, added) refl)
