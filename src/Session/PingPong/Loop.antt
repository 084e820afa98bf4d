-- ===== src/Session/PingPong/Loop.antt =====
-- src/ping_pong.rs: where a completion goes, and what a batch of them leaves.
use uring_ws.Base.{
  ap, sym, ◌∙◌, ℕ, zero, suc, ◌+◌, ◌^◌, ◌≡◌, ◌≢◌, ◌<◌, arith, Option, List, get_elem?, set, length,
  some, u32, get_elem?-set_ne, get_elem?-set_self, lt_length_of_get_elem?, length-set, ok,
  >>=-cases_ok, or_panic-eq_ok, or_panic, unwrap_failed, out_of_bounds,
}
use uring_ws.UserData.{owner_of}
use uring_ws.Memory.{Memory}
use uring_ws.Ring.{io_uring_cq_advance}
use uring_ws.Cqe.{Cqe, Completion, from_raw_event}
use uring_ws.Net.{TcpStream, on_completion}
use uring_ws.Session.{
  FrameRead, frame, no_frame, io_error, protocol_error, MaybeTlsStream, native_tls, rustls, other,
  WebSocket, Tungstenite, Running, plain,
}
use uring_ws.Session.PingPong.{plain_stream, frame_checked, handle_cqe, handle_cqes}

module _ {S T W : Type 0} (lib : Tungstenite S T W) (grow : ℕ → ℕ) where
  -- What a completion that was handled has gone through, and what it has changed.
  pub record Handled (cqe : Option Cqe) (run run' : Running S T W) : Type 0 where
    pub completion : Completion
    pub accepted : from_raw_event run.pool run.mem cqe ≡ ok completion
    pub ws : WebSocket S T W
    pub found : get_elem? run.streams (owner_of completion.user_data) ≡ some ws
    pub stream : TcpStream S
    pub is_plain : ws.stream ≡ plain stream
    pub completed : TcpStream S
    pub completes : on_completion grow completion stream ≡ ok completed
    pub handler : W
    pub held : get_elem? run.handlers (owner_of completion.user_data) ≡ some handler
    pub msg : FrameRead
    pub handler' : W
    pub stream' : TcpStream S
    pub mem : Memory
    pub reads : lib.read_message_frame handler completed run.mem ≡ ok (msg, handler', stream', mem)
    pub fine : msg ≢ protocol_error
    pub result : run' ≡ record run {
      mem = mem;
      ring = io_uring_cq_advance 1 run.ring;
      streams =
          set run.streams (owner_of completion.user_data) (record ws { stream = plain stream' });
      handlers = set run.handlers (owner_of completion.user_data) handler';
    }

  plain_stream-eq_ok :
      (m : MaybeTlsStream S T) (s : TcpStream S) → plain_stream lib m ≡ ok s → m ≡ plain s
  unfolding plain_stream
  plain_stream-eq_ok (plain t) s e = cc
  plain_stream-eq_ok (native_tls tls t) s e = absurd (cc)
  plain_stream-eq_ok (rustls tls t) s e = absurd (cc)
  plain_stream-eq_ok other s e = absurd (cc)

  frame_checked-ok : (msg : FrameRead) → frame_checked lib msg ≡ ok tt → msg ≢ protocol_error
  unfolding frame_checked
  frame_checked-ok (frame bytes) e bad = absurd (cc)
  frame_checked-ok no_frame e bad = absurd (cc)
  frame_checked-ok (io_error x) e bad = absurd (cc)
  frame_checked-ok protocol_error e bad = absurd (cc)

  pub handle_cqe-Handled :
      (cqe : Option Cqe) (run run' : Running S T W)
      → handle_cqe lib grow cqe run ≡ ok run'
      → Handled cqe run run'
  unfolding handle_cqe
  handle_cqe-Handled cqe run run' e =
      >>=-cases_ok (from_raw_event run.pool run.mem cqe) _ e λ c taken e1.
        >>=-cases_ok (or_panic unwrap_failed (get_elem? run.streams (owner_of c.user_data))) _ e1
          λ ws found e2. >>=-cases_ok (plain_stream lib ws.stream) _ e2 λ s shown e3.
            >>=-cases_ok (on_completion grow c s) _ e3 λ s1 done_it e4.
              >>=-cases_ok (or_panic unwrap_failed (get_elem? run.handlers (owner_of c.user_data)))
                _ e4
                λ h held e5.
                  >>=-cases_ok (lib.read_message_frame h s1 run.mem) _ e5 λ read parsed e6.
                    >>=-cases_ok (frame_checked lib read.0) _ e6 λ _ fine e7. record {
                      completion = c;
                      accepted = taken;
                      ws = ws;
                      found = or_panic-eq_ok _ _ found;
                      stream = s;
                      is_plain = plain_stream-eq_ok ws.stream s shown;
                      completed = s1;
                      completes = done_it;
                      handler = h;
                      held = or_panic-eq_ok _ _ held;
                      msg = read.0;
                      handler' = read.1;
                      stream' = read.2;
                      mem = read.3;
                      reads = parsed;
                      fine = frame_checked-ok read.0 fine;
                      result = cc;
                    }

  -- A completion that was handled was accepted, has gone to the stream of its owner, which is a plain
  -- one, and that stream's handler has read from it without a protocol error; the stream and the handler
  -- that the read leaves take their places, every other stream and handler is as before, the buffer
  -- groups stay where they are, the submission queue is not touched, and one entry of the completion
  -- queue is given back.
  pub handle_cqe_routes :
      (cqe : Option Cqe) (run run' : Running S T W)
      → handle_cqe lib grow cqe run ≡ ok run'
      → (h : Handled cqe run run') × (get_elem? run'.streams (owner_of h.completion.user_data)
          ≡ some (record (h.ws) { stream = plain h.stream' }))
        × (get_elem? run'.handlers (owner_of h.completion.user_data) ≡ some h.handler')
        × ((j : ℕ)
            → j ≢ owner_of h.completion.user_data
            → (get_elem? run'.streams j ≡ get_elem? run.streams j)
              × (get_elem? run'.handlers j ≡ get_elem? run.handlers j))
        × (run'.pool ≡ run.pool)
        × (run'.ring ≡ io_uring_cq_advance 1 run.ring)
  handle_cqe_routes cqe run run' e =
      let h = handle_cqe-Handled cqe run run' e in
      let id = owner_of h.completion.user_data in
      (
        h,
        ap (λ r. get_elem? r.streams id) h.result
            ∙ get_elem?-set_self run.streams id (record (h.ws) { stream = plain h.stream' })
                (lt_length_of_get_elem? run.streams id h.ws h.found),
        ap (λ r. get_elem? r.handlers id) h.result
            ∙ get_elem?-set_self run.handlers id h.handler'
                (lt_length_of_get_elem? run.handlers id h.handler h.held),
        λ j other. (
          ap (λ r. get_elem? r.streams j) h.result
              ∙ get_elem?-set_ne run.streams id j (record (h.ws) { stream = plain h.stream' })
                  (λ eq. other (sym eq)),
          ap (λ r. get_elem? r.handlers j) h.result
              ∙ get_elem?-set_ne run.handlers id j h.handler' (λ eq. other (sym eq)),
        ),
        ap (λ r. r.pool) h.result,
        ap (λ r. r.ring) h.result,
      )

  -- What a batch leaves as it was, and how far it advances the completion queue.
  pub record Advanced (n : ℕ) (run run' : Running S T W) : Type 0 where
    pub same_sq : run'.ring.sq ≡ run.ring.sq
    pub head : run'.ring.cq_khead ≡ u32 (run.ring.cq_khead + n)
    pub same_pool : run'.pool ≡ run.pool
    pub streams_kept : length run'.streams ≡ length run.streams
    pub handlers_kept : length run'.handlers ≡ length run.handlers

  handle_cqe-Advanced :
      (cqe : Option Cqe) (run run' : Running S T W)
      → handle_cqe lib grow cqe run ≡ ok run'
      → Advanced 1 run run'
  unfolding io_uring_cq_advance
  handle_cqe-Advanced cqe run run' e =
      let h = handle_cqe-Handled cqe run run' e in
      let id = owner_of h.completion.user_data in
      record {
        same_sq = ap (λ r. r.ring.sq) h.result;
        head = ap (λ r. r.ring.cq_khead) h.result;
        same_pool = ap (λ r. r.pool) h.result;
        streams_kept =
            ap (λ r. length r.streams) h.result
            ∙ length-set run.streams id (record (h.ws) { stream = plain h.stream' });
        handlers_kept =
            ap (λ r. length r.handlers) h.result ∙ length-set run.handlers id h.handler';
      }

  -- A batch of `n` completions that is handled to its end advances the completion queue by `n` entries,
  -- across the wrap of its counter too, and leaves the submission queue, the pool and the number of
  -- streams and handlers as they were.
  pub handle_cqes-Advanced :
      (n cqe_idx : ℕ) (cqe_buf : List (Option Cqe)) (run run' : Running S T W)
      → run.ring.cq_khead < 2 ^ 32
      → handle_cqes lib grow n cqe_idx cqe_buf run ≡ ok run'
      → Advanced n run run'
  unfolding handle_cqes
  handle_cqes-Advanced zero cqe_idx cqe_buf run run' small e =
      let same : run ≡ run' = cc in
      record {
        same_sq = ap (λ r. r.ring.sq) (sym same);
        head = omega (arith, ap (λ r. r.ring.cq_khead) (sym same));
        same_pool = ap (λ r. r.pool) (sym same);
        streams_kept = ap (λ r. length r.streams) (sym same);
        handlers_kept = ap (λ r. length r.handlers) (sym same);
      }
  handle_cqes-Advanced (suc n) cqe_idx cqe_buf run run' small e =
      >>=-cases_ok (or_panic out_of_bounds (get_elem? cqe_buf cqe_idx)) _ e λ cqe _ e1.
        >>=-cases_ok (handle_cqe lib grow cqe run) _ e1 λ mid one e2.
          (let first = handle_cqe-Advanced cqe run mid one in
            let rest =
              handle_cqes-Advanced n (cqe_idx + 1) cqe_buf mid run' (omega (arith, first.head))
                e2 in
            record {
              same_sq = rest.same_sq ∙ first.same_sq;
              head = omega (arith, rest.head, first.head);
              same_pool = rest.same_pool ∙ first.same_pool;
              streams_kept = rest.streams_kept ∙ first.streams_kept;
              handlers_kept = rest.handlers_kept ∙ first.handlers_kept;
            })
