-- ===== src/Session/PingPong/Follow.antt =====
-- src/ping_pong.rs with the whole crate below it: handling a completion is a run of the cycle of the stream's
-- buffer group.
use uring_ws.Base.{
  ℕ, ◌≤◌, ◌<◌, ◌≡◌, sym, ◌∙◌, ap, subst, arith, some, none, panic, List, [], ◌∷◌, ◌++◌, ok,
}
use uring_ws.UserData.{owner_of, event_of}
use uring_ws.BufRing.Cycle.{Step, Posted, Cycle, All, completes}
use uring_ws.BufRing.Cycle.Sound.{Reach, here, next, Step-IsSound}
use uring_ws.BufRing.Cycle.Progress.{Reach-trans, sound_completes}
use uring_ws.Cqe.{Cqe}
use uring_ws.Cqe.Event.{from_raw_event-Accepted}
use uring_ws.ReadBuf.Reader.{IsReadable}
use uring_ws.ReadBuf.Effect.{bufs}
use uring_ws.Net.{Socket}
use uring_ws.Net.Complete.{RecvAccepted, on_completion_recv, on_completion_send}
use uring_ws.Net.Reads.{InStep}
use uring_ws.Session.{Tungstenite, Running}
use uring_ws.Session.PingPong.{handle_cqe}
use uring_ws.Session.PingPong.Loop.{Handled, handle_cqe-Handled}
use uring_ws.Session.PingPong.Receive.{lent}
use uring_ws.Session.PingPong.Buffers.{
  IsReader, Follows, Announces, some-injective, lent_fields, announced, read_on, same_stream,
  received-InStep,
}

module _ {S T W : Type 0} (socket : Socket S) (lib : Tungstenite S T W) (grow : ℕ → ℕ)
    (is_reader : IsReader socket lib) {id ptr base : ℕ} where
  -- The completion of the oldest filled buffer, on its way to the reads.
  pub record Received (run run' : Running S T W) (c : Cycle) (p : Posted) (rest : List Posted)
      (cqe : Cqe) (f : Follows id ptr base run c) (h : Handled lib grow (some cqe) run run')
      : Type 0 where
    pub mine : owner_of h.completion.user_data ≡ id
    pub stream_eq : h.stream ≡ f.stream
    pub acc : RecvAccepted grow h.completion h.stream h.completed
    pub kb_eq : acc.kb ≡ lent base ptr p.bid cqe
    pub in_step :
        InStep (record c { posted = rest; lent = c.lent ++ (acc.kb ∷ []) }) h.completed run.mem
    pub owner : h.completed.owner_id ≡ id

  pub recv-Received :
      (run run' : Running S T W) (c : Cycle) (p : Posted) (rest : List Posted) (cqe : Cqe)
      (f : Follows id ptr base run c) (h : Handled lib grow (some cqe) run run')
      → c.posted ≡ p ∷ rest
      → Announces id p cqe
      → Received run run' c p rest cqe f h
  recv-Received run run' c p rest cqe f h first a =
      let kb = lent base ptr p.bid cqe in
      let comp_eq : ok h.completion
          ≡ ok (record { cqe = cqe; kernel_buf = some kb; user_data = cqe.user_data }) =
        sym h.accepted ∙ announced socket lib grow is_reader run c p rest cqe f first a in
      let same_word : h.completion.user_data ≡ cqe.user_data = cc in
      let mine : owner_of h.completion.user_data ≡ id = ap owner_of same_word ∙ a.owner in
      let stream_eq = same_stream socket lib grow is_reader run run' (some cqe) c f h mine in
      let owner : h.stream.owner_id ≡ id = ap (λ s. s.owner_id) stream_eq ∙ f.owner in
      let acc =
        (on_completion_recv grow h.completion h.stream h.completed (mine ∙ sym owner)
            (ap event_of same_word ∙ a.event)).0
          h.completes in
      let kb_eq : acc.kb ≡ kb =
        some-injective acc.kb kb
          (sym acc.held ∙ ap (λ o. elim o [ ok x ↦ x.kernel_buf | panic q ↦ none ]) comp_eq) in
      let size : acc.kb.data_len ≡ cqe.res = ap (λ k. k.data_len) kb_eq in
      let posted_ok : All (λ (p : Posted). (p.bid < 1024) × (p.data_len ≤ 1500)) (p ∷ rest) =
        subst (All _) first f.sound.posted_sound in
      record {
        mine = mine;
        stream_eq = stream_eq;
        acc = acc;
        kb_eq = kb_eq;
        in_step =
            received-InStep grow run c rest h.stream h.completed h.completion
              (subst (λ s. InStep c s run.mem) (sym stream_eq) f.in_step) acc
              (omega (arith, size, a.not_empty)) (omega (arith, size, a.length_lem, posted_ok.0.1));
        owner = ap (λ s. s.owner_id) acc.result ∙ owner;
      }

  -- The completion of a send, on its way to the reads.
  pub record Sent (run run' : Running S T W) (c : Cycle) (cqe : Cqe) (f : Follows id ptr base run c)
      (h : Handled lib grow (some cqe) run run') : Type 0 where
    pub mine : owner_of h.completion.user_data ≡ id
    pub queue : h.completed.inner ≡ f.stream.inner
    pub same_recv : h.completed.multishort_recv_id ≡ f.stream.multishort_recv_id
    pub in_step : InStep c h.completed run.mem
    pub owner : h.completed.owner_id ≡ id

  pub send-Sent :
      (run run' : Running S T W) (c : Cycle) (cqe : Cqe) (f : Follows id ptr base run c)
      (h : Handled lib grow (some cqe) run run')
      → owner_of cqe.user_data ≡ id
      → event_of cqe.user_data ≡ 0
      → Sent run run' c cqe f h
  send-Sent run run' c cqe f h mine' event =
      let same_word =
        (from_raw_event-Accepted run.pool run.mem cqe h.completion h.accepted).same_data in
      let mine : owner_of h.completion.user_data ≡ id = ap owner_of same_word ∙ mine' in
      let stream_eq = same_stream socket lib grow is_reader run run' (some cqe) c f h mine in
      let owner : h.stream.owner_id ≡ id = ap (λ s. s.owner_id) stream_eq ∙ f.owner in
      let acc =
        (on_completion_send grow h.completion h.stream h.completed (mine ∙ sym owner)
            (ap event_of same_word ∙ event)).0
          h.completes in
      let i : InStep c h.stream run.mem =
        subst (λ s. InStep c s run.mem) (sym stream_eq) f.in_step in
      record {
        mine = mine;
        queue = ap (λ s. s.inner) acc.result ∙ ap (λ s. s.inner) stream_eq;
        same_recv =
            ap (λ s. s.multishort_recv_id) acc.result ∙ ap (λ s. s.multishort_recv_id) stream_eq;
        in_step = record {
          same_mem = i.same_mem;
          same_bufs = ap (λ s. bufs s.inner.buf_vec) acc.result ∙ i.same_bufs;
          readable = subst (λ s. All IsReadable s.inner.buf_vec) (sym acc.result) i.readable;
          nonblocking = ap (λ s. s.nonblocking) acc.result ∙ i.nonblocking;
        };
        owner = ap (λ s. s.owner_id) acc.result ∙ owner;
      }

  -- While a stream is in step with the cycle of its group, handling the completion of the oldest filled
  -- buffer, where the program goes on, is a run of that cycle: the buffer is lent to the stream,
  -- whose reads then give buffers back in the order in which they were lent, and the stream is in
  -- step again.
  pub handle_recv-Follows :
      (run run' : Running S T W) (c : Cycle) (p : Posted) (rest : List Posted) (cqe : Cqe)
      → Follows id ptr base run c
      → c.posted ≡ p ∷ rest
      → Announces id p cqe
      → handle_cqe lib grow (some cqe) run ≡ ok run'
      → (d : Cycle) × Reach run.pool id ptr base c d
        × Follows id ptr base run' d
        × (d.posted ≡ rest)
        × (d.head ≡ c.head)
  handle_recv-Follows run run' c p rest cqe f first a e =
      let h = handle_cqe-Handled lib grow (some cqe) run run' e in
      let got = recv-Received run run' c p rest cqe f h first a in
      let step : Step run.pool id ptr base c
          (record c { posted = rest; lent = c.lent ++ (got.acc.kb ∷ []) }) =
        completes c p rest got.acc.kb first (
          sound_completes c p rest f.entry f.sound first
          ∙ ap ok (sym (got.kb_eq ∙ lent_fields base ptr p.bid id cqe p a))) in
      let c1 = record c { posted = rest; lent = c.lent ++ (got.acc.kb ∷ []) } in
      let (d, r, f', posted, head) =
        read_on socket lib grow is_reader run run' (some cqe) c1 h got.mine f.entry
          (Step-IsSound f.entry f.sound step) got.in_step got.owner in
      (d, Reach-trans (next here step) r, f', posted, head)

  -- The same for the completion of a send, which changes neither the buffers nor the memory itself: the
  -- reads that come after it are a run of the cycle.
  pub handle_send-Follows :
      (run run' : Running S T W) (c : Cycle) (cqe : Cqe)
      → Follows id ptr base run c
      → owner_of cqe.user_data ≡ id
      → event_of cqe.user_data ≡ 0
      → handle_cqe lib grow (some cqe) run ≡ ok run'
      → (d : Cycle) × Reach run.pool id ptr base c d
        × Follows id ptr base run' d
        × (d.posted ≡ c.posted)
        × (d.head ≡ c.head)
  handle_send-Follows run run' c cqe f mine' event e =
      let h = handle_cqe-Handled lib grow (some cqe) run run' e in
      let sent = send-Sent run run' c cqe f h mine' event in
      read_on socket lib grow is_reader run run' (some cqe) c h sent.mine f.entry f.sound
        sent.in_step sent.owner
