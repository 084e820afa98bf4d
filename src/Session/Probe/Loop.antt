-- ===== src/Session/Probe/Loop.antt =====
-- src/io_uring_probe_v2.rs: where a completion goes, and what it leaves.
use uring_ws.Base.{
  ap, sym, ◌∙◌, ℕ, ◌≡◌, ◌≢◌, Option, get_elem?, set, some, get_elem?-set_ne, ok, >>=-cases_ok,
  or_panic-eq_ok, or_panic, unwrap_failed,
}
use uring_ws.UserData.{owner_of}
use uring_ws.Memory.{Memory}
use uring_ws.Ring.{io_uring_cq_advance}
use uring_ws.Cqe.{Cqe, Completion, from_raw_event}
use uring_ws.Net.{Socket, TcpStream, on_completion}
use uring_ws.Session.{
  FrameRead, frame, no_frame, io_error, protocol_error, MaybeTlsStream, native_tls, rustls, other,
  WebSocket, Tungstenite, Running, plain,
}
use uring_ws.Session.Probe.{tls_stream, frame_checked, handle_cqe}

module _ {S T W : Type 0} (socket : Socket S) (lib : Tungstenite S T W) (grow : ℕ → ℕ) where
  tls_stream-eq_ok :
      (m : MaybeTlsStream S T) (t : T) (s : TcpStream S)
      → tls_stream socket lib m ≡ ok (t, s)
      → m ≡ native_tls t s
  unfolding tls_stream
  tls_stream-eq_ok (plain u) t s e = absurd (cc)
  tls_stream-eq_ok (native_tls c u) t s e = cc
  tls_stream-eq_ok (rustls c u) t s e = absurd (cc)
  tls_stream-eq_ok other t s e = absurd (cc)

  frame_checked-ok : (msg : FrameRead) → frame_checked socket lib msg ≡ ok tt → msg ≢ protocol_error
  unfolding frame_checked
  frame_checked-ok (frame bytes) e bad = absurd (cc)
  frame_checked-ok no_frame e bad = absurd (cc)
  frame_checked-ok (io_error x) e bad = absurd (cc)
  frame_checked-ok protocol_error e bad = absurd (cc)

  -- The owner's stream and handler before and after a completion that was handled.
  pub record Decoded (completion : Completion) (run run' : Running S T W) : Type 0 where
    pub ws : WebSocket S T W
    pub tls : T
    pub stream : TcpStream S
    pub found : get_elem? run.streams (owner_of completion.user_data) ≡ some ws
    pub is_native : ws.stream ≡ native_tls tls stream
    pub completed : TcpStream S
    pub completes : on_completion grow completion stream ≡ ok completed
    pub handler : W
    pub held : get_elem? run.handlers (owner_of completion.user_data) ≡ some handler
    pub msg : FrameRead
    pub handler' : W
    pub tls' : T
    pub stream' : TcpStream S
    pub mem : Memory
    pub reads :
        lib.read_tls_message_frame handler tls completed run.mem
        ≡ ok (msg, handler', tls', stream', mem)
    pub fine : msg ≢ protocol_error
    pub result : run' ≡ record run {
      mem = mem;
      ring = io_uring_cq_advance 1 run.ring;
      streams =
          set run.streams
            (owner_of completion.user_data)
            (record ws { stream = native_tls tls' stream' });
      handlers = set run.handlers (owner_of completion.user_data) handler';
    }

  handle_cqe-Decoded :
      (cqe : Option Cqe) (run run' : Running S T W)
      → handle_cqe socket lib grow cqe run ≡ ok run'
      → (c : Completion) × (from_raw_event run.pool run.mem cqe ≡ ok c) × Decoded c run run'
  unfolding handle_cqe
  handle_cqe-Decoded cqe run run' e =
      >>=-cases_ok (from_raw_event run.pool run.mem cqe) _ e λ c taken e1.
        >>=-cases_ok (or_panic unwrap_failed (get_elem? run.streams (owner_of c.user_data))) _ e1
          λ ws found e2. >>=-cases_ok (tls_stream socket lib ws.stream) _ e2 λ s shown e3.
            >>=-cases_ok (on_completion grow c s.1) _ e3 λ s1 done_it e4.
              >>=-cases_ok (or_panic unwrap_failed (get_elem? run.handlers (owner_of c.user_data)))
                _ e4
                λ h held e5.
                  >>=-cases_ok (lib.read_tls_message_frame h s.0 s1 run.mem) _ e5 λ read parsed e6.
                    >>=-cases_ok (frame_checked socket lib read.0) _ e6 λ _ fine e7. (
                      c,
                      taken,
                      record {
                        ws = ws;
                        tls = s.0;
                        stream = s.1;
                        found = or_panic-eq_ok _ _ found;
                        is_native = tls_stream-eq_ok ws.stream s.0 s.1 shown;
                        completed = s1;
                        completes = done_it;
                        handler = h;
                        held = or_panic-eq_ok _ _ held;
                        msg = read.0;
                        handler' = read.1;
                        tls' = read.2;
                        stream' = read.3;
                        mem = read.4;
                        reads = parsed;
                        fine = frame_checked-ok read.0 fine;
                        result = cc;
                      },
                    )

  -- A completion that the native TLS probe has handled was accepted, has gone to the stream of its
  -- owner, which runs over native TLS, and that stream's handler has read from it without a protocol
  -- error; every other stream and handler and the buffer groups are as before, and one entry of the
  -- completion queue is given back.
  pub native_cqe_decodes :
      (cqe : Option Cqe) (run run' : Running S T W)
      → handle_cqe socket lib grow cqe run ≡ ok run'
      → (c : Completion) × (from_raw_event run.pool run.mem cqe ≡ ok c)
        × Decoded c run run'
        × ((j : ℕ)
            → j ≢ owner_of c.user_data
            → (get_elem? run'.streams j ≡ get_elem? run.streams j)
              × (get_elem? run'.handlers j ≡ get_elem? run.handlers j))
        × (run'.pool ≡ run.pool)
        × (run'.ring ≡ io_uring_cq_advance 1 run.ring)
  native_cqe_decodes cqe run run' e =
      let (c, taken, d) = handle_cqe-Decoded cqe run run' e in
      let id = owner_of c.user_data in
      (
        c,
        taken,
        d,
        λ j away. (
          ap (λ r. get_elem? r.streams j) d.result
              ∙ get_elem?-set_ne run.streams id j
                  (record (d.ws) { stream = native_tls d.tls' d.stream' }) (λ eq. away (sym eq)),
          ap (λ r. get_elem? r.handlers j) d.result
              ∙ get_elem?-set_ne run.handlers id j d.handler' (λ eq. away (sym eq)),
        ),
        ap (λ r. r.pool) d.result,
        ap (λ r. r.ring) d.result,
      )
