-- ===== src/Session/PingPong/Opening.antt =====
-- src/ping_pong.rs: a stream that has just been added is where the runs of the program start.
use uring_ws.Base.{
  ℕ, ◌+◌, ◌^◌, ◌<◌, ◌≡◌, refl, arith, Bool, true, false, some, [], get_elem?-set_self,
  get_elem?-snoc, length, ok, done,
}
use uring_ws.BufRing.{Platform}
use uring_ws.BufRing.Init.{Supplied}
use uring_ws.Ring.Slots.{IsValid, in_flight}
use uring_ws.Net.{TcpStream, Socket, new_from_std, set_nonblocking, set_nodelay, as_raw_fd}
use uring_ws.Session.{WebSocket, Tungstenite, Running, plain}
use uring_ws.Session.Start.{nonblocking_fd, stream_fd, init_tcp_stream, add_stream}
use uring_ws.Session.Start.Setup.{add_stream_queues_receive}
use uring_ws.Session.PingPong.Runs.{Opened}

-- The provider of cryptography is installed, and the connection and the handshake of a plain websocket
-- succeed. The handshake leaves the stream's names
-- as they were, and nothing to read in its own queue, since it reads while the stream blocks.
pub record Connects {S T W : Type 0} (socket : Socket S) (lib : Tungstenite S T W)
    (with_capacity : ℕ → ℕ) (owner_id : ℕ) : Type 0 where
  pub installed : lib.install_default ≡ true
  pub raw : S
  pub ws : WebSocket S T W
  pub stream : TcpStream S
  pub connected : lib.connect owner_id ≡ done raw
  pub shaken :
      lib.client_tls_with_config (new_from_std with_capacity raw owner_id (owner_id + 1200))
      ≡ some ws
  pub is_plain : ws.stream ≡ plain stream
  pub unread : stream.inner.buf_vec ≡ []
  pub owner : stream.owner_id ≡ owner_id
  pub nonblocking_set : socket.set_nonblocking stream.raw true ≡ done tt
  pub nodelay_set : socket.set_nodelay stream.raw true ≡ done tt

module _ {S T W : Type 0} (socket : Socket S) (lib : Tungstenite S T W)
    (with_capacity : ℕ → ℕ) where
  -- The websocket as `init_tcp_stream` returns it.
  abbrev pub opened_ws :
      {owner_id : ℕ} → Connects socket lib with_capacity owner_id → WebSocket S T W
  opened_ws k = record (k.ws) { stream = plain (record (k.stream) { nonblocking = true }) }

  stream_fd_plain :
      (stream : TcpStream S)
      → socket.set_nonblocking stream.raw true ≡ done tt
      → socket.set_nodelay stream.raw true ≡ done tt
      → stream_fd socket lib (plain stream)
        ≡ ok (plain (record stream { nonblocking = true }), socket.as_raw_fd stream.raw)
  unfolding stream_fd nonblocking_fd set_nonblocking set_nodelay as_raw_fd
  stream_fd_plain stream switched delayed = ground (arith, switched, delayed)

  init_tcp_stream_plain :
      (owner_id : ℕ) (install_once : Bool) (k : Connects socket lib with_capacity owner_id)
      → init_tcp_stream socket lib with_capacity owner_id (owner_id + 1200) install_once
        ≡ ok (socket.as_raw_fd k.stream.raw, opened_ws k, true)
  unfolding init_tcp_stream
  init_tcp_stream_plain owner_id true k = rw (k.connected) (
      rw (k.shaken)
        (rw (k.is_plain) (rw (stream_fd_plain k.stream k.nonblocking_set k.nodelay_set) refl)))
  init_tcp_stream_plain owner_id false k =
      rw (k.installed, k.connected)
        (rw (k.shaken)
          (rw (k.is_plain) (rw (stream_fd_plain k.stream k.nonblocking_set k.nodelay_set) refl)))

  -- Adding the next stream returns, when the provider is installed, its connection succeeds, memory is supplied and the submission queue
  -- has room, and the new stream is open: nonblocking, with nothing to read, over a group that
  -- the kernel has in full.
  pub add_stream_opens :
      (platform : Platform) (msg_waitall owner_id ptr base : ℕ) (run : Running S T W)
      → Connects socket lib with_capacity owner_id
      → Supplied platform run.mem owner_id ptr base
      → length run.streams ≡ owner_id
      → owner_id < length run.pool.buf_ring_ptrs
      → owner_id + 1200 < 2 ^ 16
      → IsValid run.ring
      → in_flight run.ring < run.ring.ring_entries
      → (run' : Running S T W) × (add_stream socket lib with_capacity platform msg_waitall owner_id
            run
          ≡ ok run')
        × Opened owner_id ptr base run'
        × IsValid run'.ring
  add_stream_opens platform msg_waitall owner_id ptr base run k s next held small v room =
      let (mem, ring, old, added, valid, _, _, _, _, full) =
        add_stream_queues_receive socket lib with_capacity platform msg_waitall owner_id ptr base
          (socket.as_raw_fd k.stream.raw) (opened_ws k) true run
          (init_tcp_stream_plain owner_id run.install_once k) s held small v room in
      (
        _,
        added,
        record {
          entry = get_elem?-set_self run.pool.buf_ring_ptrs owner_id ptr held;
          group = full.0;
          full = full.1;
          ws = opened_ws k;
          stream = record (k.stream) { nonblocking = true };
          found = get_elem?-snoc run.streams (opened_ws k) owner_id next;
          is_plain = refl;
          unread = k.unread;
          nonblocking = refl;
          owner = k.owner;
        },
        valid,
      )
