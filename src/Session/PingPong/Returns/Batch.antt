-- ===== src/Session/PingPong/Returns/Batch.antt =====
-- src/ping_pong.rs, the loop over the completions that are ready: handling a batch of received buffers
-- returns.
use uring_ws.Base.{
  ℕ, suc, ◌+◌, ◌<◌, ◌≡◌, refl, ◌∙◌, ap, ◌⊎◌, inl, inr, Option, some, List, [], ◌∷◌, get_elem?, set,
  get_elem?-set_self, lt_length_of_get_elem?, length, ok, panic, explicit,
}
use uring_ws.UserData.{req_of}
use uring_ws.Memory.{Memory}
use uring_ws.BufRing.Cycle.{Posted}
use uring_ws.Cqe.{Cqe}
use uring_ws.Net.{TcpStream, Socket}
use uring_ws.Net.Ask.{Asks}
use uring_ws.Session.{FrameRead, protocol_error, Tungstenite, Running}
use uring_ws.Session.PingPong.{handle_cqe, handle_cqes}
use uring_ws.Session.PingPong.Loop.{handle_cqe-Handled}
use uring_ws.Session.PingPong.Buffers.{Announces}
use uring_ws.Session.PingPong.Runs.{Opened, Runs, receives}
use uring_ws.Session.PingPong.Arrival.{Runs-follows}
use uring_ws.Session.PingPong.Follow.{recv-Received}
use uring_ws.Session.PingPong.Intact.Batch.{Stands}
use uring_ws.Session.PingPong.Returns.{IsClient, client-IsReader, handle_cqe_returns}

-- Completions of the receive `recv_id` of one stream as the kernel posts them, with the filled buffers that
-- wait before and after them.
pub data Receipts (id recv_id : ℕ) : List Cqe → List Posted → List Posted → Type 0 where
  no_receipt : {posted : List Posted} → Receipts id recv_id [] posted posted
  receipt :
      {p : Posted} {posted rest : List Posted} {cqe : Cqe} {cqes : List Cqe}
      → Announces id p cqe
      → req_of cqe.user_data ≡ recv_id
      → Receipts id recv_id cqes posted rest
      → Receipts id recv_id (cqe ∷ cqes) (p ∷ posted) rest

module _ {S T W : Type 0} (lib : Tungstenite S T W) (grow : ℕ → ℕ) where
  next_cqe :
      (left cqe_idx : ℕ) (cqe_buf : List (Option Cqe)) (cqe : Cqe) (run run1 : Running S T W)
      → get_elem? cqe_buf cqe_idx ≡ some (some cqe)
      → handle_cqe lib grow (some cqe) run ≡ ok run1
      → handle_cqes lib grow (suc left) cqe_idx cqe_buf run
        ≡ handle_cqes lib grow left (cqe_idx + 1) cqe_buf run1
  unfolding handle_cqes
  next_cqe left cqe_idx cqe_buf cqe run run1 there handled = rw (there, handled) refl

  last_cqe :
      (left cqe_idx : ℕ) (cqe_buf : List (Option Cqe)) (cqe : Cqe) (run : Running S T W)
      → get_elem? cqe_buf cqe_idx ≡ some (some cqe)
      → handle_cqe lib grow (some cqe) run ≡ panic explicit
      → handle_cqes lib grow (suc left) cqe_idx cqe_buf run ≡ panic explicit
  unfolding handle_cqes
  last_cqe left cqe_idx cqe_buf cqe run there failed = rw (there, failed) refl

-- The library has found a protocol error.
abbrev pub FindsError : {S T W : Type 0} → Tungstenite S T W → Type 0
FindsError {S} {T} {W} lib =
    (h : W) × (s : TcpStream S) × (m : Memory) × (h' : W) × (s' : TcpStream S) × (m' : Memory)
    × (lib.read_message_frame h s m ≡ ok (protocol_error, h', s', m'))

module _ {S T W : Type 0} (socket : Socket S) (lib : Tungstenite S T W)
    (frames : W → Asks (FrameRead × W)) (grow : ℕ → ℕ) (id ptr base : ℕ) (start : Running S T W)
    (client : IsClient socket lib frames) (opened : Opened id ptr base start)
    (grows : (c : ℕ) → c < grow c) where
  handler_after :
      (run run1 : Running S T W) (head : ℕ) (p : Posted) (rest : List Posted) (cqe : Cqe)
      → Runs socket lib grow id ptr base start run head (p ∷ rest)
      → Announces id p cqe
      → handle_cqe lib grow (some cqe) run ≡ ok run1
      → (handler : W) → get_elem? run.handlers id ≡ some handler
      → (handler' : W) × (get_elem? run1.handlers id ≡ some handler')
  handler_after run run1 head p rest cqe r a e handler held =
      let is_reader = client-IsReader socket lib frames client in
      let (c, f, first, _) = Runs-follows socket lib grow id ptr base start is_reader opened r in
      let h = handle_cqe-Handled lib grow (some cqe) run run1 e in
      let got = recv-Received socket lib grow is_reader run run1 c p rest cqe f h first a in
      (
        h.handler',
        ap (λ t. get_elem? t.handlers id) h.result
            ∙ ap (λ k. get_elem? (set run.handlers k h.handler') id) got.mine
            ∙ get_elem?-set_self run.handlers id h.handler'
                (lt_length_of_get_elem? run.handlers id handler held),
      )

  -- In every run, from the opening on, growing of the deque making room, and with a websocket library that
  -- does nothing to the stream but read into buffers with room, the loop over a batch of completions of
  -- the oldest filled buffers, in order and under the id of the stream's receive, comes to its end and
  -- leaves a run, unless the library finds a protocol error, which is then the panic.
  pub handle_cqes_returns :
      (run : Running S T W) (head : ℕ) (posted rest : List Posted) (cqes : List Cqe) (cqe_idx : ℕ)
      (cqe_buf : List (Option Cqe)) (handler : W)
      → Runs socket lib grow id ptr base start run head posted
      → Receipts id opened.stream.multishort_recv_id cqes posted rest
      → Stands cqe_buf cqe_idx cqes
      → get_elem? run.handlers id ≡ some handler
      → ((run' : Running S T W) × (handle_cqes lib grow (length cqes) cqe_idx cqe_buf run ≡ ok run')
          × Runs socket lib grow id ptr base start run' head rest)
        ⊎ (FindsError lib
            × (handle_cqes lib grow (length cqes) cqe_idx cqe_buf run ≡ panic explicit))
  unfolding handle_cqes
  handle_cqes_returns run head posted rest [] cqe_idx cqe_buf handler r no_receipt st held =
      inl (run, refl, r)
  handle_cqes_returns run head [] rest (cqe ∷ cqes) cqe_idx cqe_buf handler r b st held = elim b [ ]
  handle_cqes_returns run head (p ∷ posted) rest (cqe ∷ cqes) cqe_idx cqe_buf handler r
        (receipt a req b) st held =
      elim (handle_cqe_returns socket lib frames grow id ptr base start client opened grows run head
        p posted cqe handler r a req held) [
          | inl (run1, handled) ↦
              let (handler', held') =
                handler_after run run1 head p posted cqe r a handled handler held in
              let step =
                next_cqe lib grow (length cqes) cqe_idx cqe_buf cqe run run1 st.0 handled in
              elim (handle_cqes_returns run1 head posted rest cqes (cqe_idx + 1) cqe_buf handler'
                (receives run1 cqe r a handled) b st.1 held') [
                  | inl (run', done_all, r') ↦ inl (run', step ∙ done_all, r')
                  | inr (found, failed) ↦ inr (found, step ∙ failed)
                ]
          | inr (s, h', s', m', found, failed) ↦ inr (
            (handler, s, run.mem, h', s', m', found),
            last_cqe lib grow (length cqes) cqe_idx cqe_buf cqe run st.0 failed,
          )
        ]
