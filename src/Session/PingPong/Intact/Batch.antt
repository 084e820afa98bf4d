-- ===== src/Session/PingPong/Intact/Batch.antt =====
-- src/ping_pong.rs, the loop over the completions that are ready: what a batch of them is to a run.
use uring_ws.Base.{
  ℕ, suc, ◌+◌, ◌≡◌, sym, ◌∙◌, ap, subst, Option, some, List, [], ◌∷◌, ◌++◌, append-nil,
  append_assoc, get_elem?, length, ok, >>=-cases_ok, or_panic, out_of_bounds,
}
use uring_ws.UserData.{owner_of, event_of}
use uring_ws.Memory.{Memory}
use uring_ws.BufRing.Cycle.{Posted}
use uring_ws.Cqe.{Cqe}
use uring_ws.ReadBuf.Stream.{stream}
use uring_ws.ReadBuf.Untouched.{arrived}
use uring_ws.Net.{TcpStream, Socket}
use uring_ws.Session.{WebSocket, Tungstenite, Running, plain}
use uring_ws.Session.PingPong.{handle_cqe, handle_cqes}
use uring_ws.Session.PingPong.Buffers.{Announces}
use uring_ws.Session.PingPong.Runs.{Opened}
use uring_ws.Session.PingPong.Carried.{IsReaderOf, Carries, receives_next, sends_done, taken}
use uring_ws.Session.PingPong.Intact.Order.{received_in_order}

-- Completions of one stream as the kernel posts them, with the filled buffers that wait before and after
-- them.
pub data Batch (id : ℕ) : List Cqe → List Posted → List Posted → Type 0 where
  no_cqe : {posted : List Posted} → Batch id [] posted posted
  recv_cqe :
      {p : Posted} {posted rest : List Posted} {cqe : Cqe} {cqes : List Cqe}
      → Announces id p cqe
      → Batch id cqes posted rest
      → Batch id (cqe ∷ cqes) (p ∷ posted) rest
  send_cqe :
      {posted rest : List Posted} {cqe : Cqe} {cqes : List Cqe}
      → owner_of cqe.user_data ≡ id
      → event_of cqe.user_data ≡ 0
      → Batch id cqes posted rest
      → Batch id (cqe ∷ cqes) posted rest

-- The completions stand in the array of pointers from a place on.
abbrev pub Stands : List (Option Cqe) → ℕ → List Cqe → Type 0
Stands cqe_buf cqe_idx [] = Unit
Stands cqe_buf cqe_idx (cqe ∷ cqes) =
    (get_elem? cqe_buf cqe_idx ≡ some (some cqe)) × Stands cqe_buf (cqe_idx + 1) cqes

module _ {S T W : Type 0} (socket : Socket S) (lib : Tungstenite S T W)
    (takes : W → TcpStream S → Memory → List ℕ) (grow : ℕ → ℕ) (id ptr base : ℕ)
    (start : Running S T W) where
  -- The bytes that the library reads while the loop handles a batch: for each completion in turn those
  -- that it reads then.
  pub data TakenBy : List Cqe → Running S T W → Running S T W → List ℕ → Type 0 where
    none_left : {run : Running S T W} → TakenBy [] run run []
    one_then :
        {cqes : List Cqe} {run run1 run' : Running S T W} {out : List ℕ} (cqe : Cqe)
        → (handled : handle_cqe lib grow (some cqe) run ≡ ok run1) → TakenBy cqes run1 run' out
        → TakenBy
            (cqe ∷ cqes)
            run
            run'
            (taken socket lib takes grow id ptr base start run run1 cqe handled ++ out)

  -- The first completion of a batch.
  first_handled :
      (left cqe_idx : ℕ) (cqe_buf : List (Option Cqe)) (cqe : Cqe) (run run' : Running S T W)
      → get_elem? cqe_buf cqe_idx ≡ some (some cqe)
      → handle_cqes lib grow (suc left) cqe_idx cqe_buf run ≡ ok run'
      → (run1 : Running S T W) × (handle_cqe lib grow (some cqe) run ≡ ok run1)
        × (handle_cqes lib grow left (cqe_idx + 1) cqe_buf run1 ≡ ok run')
  unfolding handle_cqes
  first_handled left cqe_idx cqe_buf cqe run run' there e =
      >>=-cases_ok (or_panic out_of_bounds (get_elem? cqe_buf cqe_idx)) _ e λ entry found e1.
        >>=-cases_ok (handle_cqe lib grow entry run) _ e1 λ run1 handled rest.
          let same : entry ≡ some cqe = cc in
          (run1, subst (λ c. handle_cqe lib grow c run ≡ ok run1) same handled, rest)

  pub handle_cqes-Carries :
      {head : ℕ} {posted rest : List Posted} {put got : List ℕ} {cqes : List Cqe} (cqe_idx : ℕ)
      (cqe_buf : List (Option Cqe)) (run run' : Running S T W)
      → Carries socket lib takes grow id ptr base start run head posted put got
      → Batch id cqes posted rest
      → Stands cqe_buf cqe_idx cqes
      → handle_cqes lib grow (length cqes) cqe_idx cqe_buf run ≡ ok run'
      → (out : List ℕ) × TakenBy cqes run run' out
        × Carries socket lib takes grow id ptr base start run' head rest put (got ++ out)
  unfolding handle_cqes
  handle_cqes-Carries {head} {posted} {rest} {put} {got} cqe_idx cqe_buf run run' r no_cqe st e = (
    [],
    subst (λ (t : Running S T W). TakenBy [] run t []) {x = run} {y = run'} (cc) none_left,
    subst
        (λ (t : Running S T W × List ℕ).
          Carries socket lib takes grow id ptr base start t.0 head posted put t.1)
        {x = (run, got)} {y = (run', got ++ [])}
        (ap (λ (g : List ℕ). (run, g)) (sym (append-nil got)) ∙ (cc)) r,
  )
  handle_cqes-Carries {got = got} {cqes = cqe ∷ cqes} cqe_idx cqe_buf run run' r (recv_cqe a b) st
        e =
      let (run1, handled, later) =
        first_handled (length cqes) cqe_idx cqe_buf cqe run run' st.0 e in
      let (out, tb, r') =
        handle_cqes-Carries (cqe_idx + 1) cqe_buf run1 run' (receives_next run1 cqe r a handled) b
          st.1 later in
      let now = taken socket lib takes grow id ptr base start run run1 cqe handled in
      (
        now ++ out,
        one_then cqe handled tb,
        subst (Carries socket lib takes grow id ptr base start run' _ _ _)
            (append_assoc got now out) r',
      )
  handle_cqes-Carries {got = got} {cqes = cqe ∷ cqes} cqe_idx cqe_buf run run' r
        (send_cqe owner event b) st e =
      let (run1, handled, later) =
        first_handled (length cqes) cqe_idx cqe_buf cqe run run' st.0 e in
      let (out, tb, r') =
        handle_cqes-Carries (cqe_idx + 1) cqe_buf run1 run'
          (sends_done run1 cqe r owner event handled) b st.1 later in
      let now = taken socket lib takes grow id ptr base start run run1 cqe handled in
      (
        now ++ out,
        one_then cqe handled tb,
        subst (Carries socket lib takes grow id ptr base start run' _ _ _)
            (append_assoc got now out) r',
      )

  -- A batch of completions that the loop handles, each of the oldest filled buffer or of a send of the
  -- stream, in a run with a websocket library that only reads from it: the bytes that the library reads
  -- while they are handled, one completion after another, are the next ones after those it had read
  -- before, and the rest waits for it, in order.
  pub handle_cqes_in_order :
      (head : ℕ) (posted rest : List Posted) (put got : List ℕ) (cqes : List Cqe) (cqe_idx : ℕ)
      (cqe_buf : List (Option Cqe)) (run run' : Running S T W)
      → IsReaderOf socket lib takes
      → Opened id ptr base start
      → Carries socket lib takes grow id ptr base start run head posted put got
      → Batch id cqes posted rest
      → Stands cqe_buf cqe_idx cqes
      → handle_cqes lib grow (length cqes) cqe_idx cqe_buf run ≡ ok run'
      → (out : List ℕ) × TakenBy cqes run run' out
        × (ws : WebSocket S T W) × (s : TcpStream S) × (get_elem? run'.streams id ≡ some ws)
        × (ws.stream ≡ plain s)
        × (put
            ≡ (got ++ out)
              ++ (stream run'.mem.bytes s.inner.buf_vec ++ arrived run'.mem.bytes base rest))
  handle_cqes_in_order head posted rest put got cqes cqe_idx cqe_buf run run' reader opened r b st
        e =
      let (out, tb, r') = handle_cqes-Carries cqe_idx cqe_buf run run' r b st e in
      let (ws, s, found, is_plain, whole) =
        received_in_order socket lib takes grow id ptr base start reader opened run' head rest put
          (got ++ out) r' in
      (out, tb, ws, s, found, is_plain, whole)
