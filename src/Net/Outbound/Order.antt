-- ===== src/Net/Outbound/Order.antt =====
-- src/net.rs with src/ring.rs and src/cqe.rs: what holds of the messages of a stream in every run.
use uring_ws.Base.{
  ℕ, ◌+◌, ◌^◌, ◌<◌, ◌≤◌, ◌≡◌, refl, sym, ◌∙◌, ap, subst, true, arith, List, [], ◌∷◌, ◌++◌,
  append-nil, append_assoc, map, take, take-append-drop, length, length-append, ok,
}
use uring_ws.UserData.{event_of, owner_of}
use uring_ws.BufRing.Cycle.{All}
use uring_ws.Sqe.{Sqe}
use uring_ws.Ring.{IoUring}
use uring_ws.Ring.Slots.{in_flight, IsValid}
use uring_ws.Ring.Queue.{queued, consumed, consumed-IsValid, queued-consumed}
use uring_ws.Cqe.{Completion}
use uring_ws.Net.{TcpStream, Socket, PendingSent, on_completion}
use uring_ws.Net.Pending.{Recent-remove}
use uring_ws.Net.Reads.{nonblocking_read}
use uring_ws.Net.Complete.{on_completion_send, on_completion_recv}
use uring_ws.Net.Write.{next_key, IsTracked}
use uring_ws.Net.Outbound.{
  Outbound, begins, writes, consumes, completes, receives, reads, AllSubmit, Done, keys,
}
use uring_ws.Net.Outbound.Held.{Done-complete}
use uring_ws.Net.Outbound.Kept.{IsKept, write-IsKept}

module _ {S : Type 0} (socket : Socket S) (grow : ℕ → ℕ) (msg_waitall : ℕ) (ring0 : IoUring)
    (s0 : TcpStream S) where
  abbrev Kept : IoUring → TcpStream S → PendingSent → List ℕ → List Sqe → Type 0
  Kept = IsKept socket msg_waitall ring0 s0

  -- What changes the readers alone.
  inner-Kept :
      (ring : IoUring) (s s' : TcpStream S) (log : PendingSent) (completed : List ℕ)
      (seen : List Sqe)
      → s' ≡ record s { inner = s'.inner }
      → Kept ring s log completed seen
      → Kept ring s' log completed seen
  inner-Kept ring s s' log completed seen same k =
      subst (λ t. Kept ring t log completed seen) (sym same)
        (record {
          valid = k.valid;
          nonblocking = k.nonblocking;
          raw_lem = k.raw_lem;
          owner_lem = k.owner_lem;
          id_lem = k.id_lem;
          tracked = record {
            owner_word = k.tracked.owner_word;
            id_word = k.tracked.id_word;
            window = k.tracked.window;
            recent = k.tracked.recent;
          };
          entries = k.entries;
          submits = k.submits;
          order = k.order;
          held = k.held;
          numbered = k.numbered;
        })

  consumes-Kept :
      (n : ℕ) (ring : IoUring) (s : TcpStream S) (log : PendingSent) (completed : List ℕ)
      (seen : List Sqe)
      → Kept ring s log completed seen
      → n ≤ in_flight ring
      → Kept (consumed n ring) s log completed (seen ++ take n (queued ring))
  consumes-Kept n ring s log completed seen k fits = record {
    valid = (consumed-IsValid n k.valid fits).0;
    nonblocking = k.nonblocking;
    raw_lem = k.raw_lem;
    owner_lem = k.owner_lem;
    id_lem = k.id_lem;
    tracked = k.tracked;
    entries = k.entries;
    submits = k.submits;
    order =
        k.order
        ∙ ap (◌++◌ seen) (
            sym (take-append-drop n (queued ring))
            ∙ ap (◌++◌ (take n (queued ring))) (sym (queued-consumed n k.valid fits)))
        ∙ sym (append_assoc seen (take n (queued ring)) (queued (consumed n ring)));
    held = k.held;
    numbered = k.numbered;
  }

  send-Kept :
      (ring : IoUring) (s s' : TcpStream S) (c : Completion) (log : PendingSent)
      (completed : List ℕ) (seen : List Sqe)
      → Kept ring s log completed seen
      → owner_of c.user_data ≡ s.owner_id
      → event_of c.user_data ≡ 0
      → on_completion grow c s ≡ ok s'
      → Kept ring s' log (c.user_data ∷ completed) seen
  send-Kept ring s s' c log completed seen k owner event e =
      let a = (on_completion_send grow c s s' owner event).0 e in
      subst (λ t. Kept ring t log (c.user_data ∷ completed) seen) (sym a.result)
        (record {
          valid = k.valid;
          nonblocking = k.nonblocking;
          raw_lem = k.raw_lem;
          owner_lem = k.owner_lem;
          id_lem = k.id_lem;
          tracked = record {
            owner_word = k.tracked.owner_word;
            id_word = k.tracked.id_word;
            window = k.tracked.window;
            recent =
                Recent-remove (length log) s.send_id c.user_data s.pending_sent a.message a.rest
                  a.found k.tracked.recent;
          };
          entries = k.entries;
          submits = k.submits;
          order = k.order;
          held =
              Done-complete c.user_data completed s.pending_sent a.rest log a.message a.found
                k.held;
          numbered = k.numbered;
        })

  Outbound-Kept :
      {ring : IoUring} {s : TcpStream S} {log : PendingSent} {completed : List ℕ} {seen : List Sqe}
      → IsValid ring0
      → s0.nonblocking ≡ true
      → IsTracked 0 s0
      → length log < 2 ^ 32
      → Outbound socket grow msg_waitall ring0 s0 ring s log completed seen
      → Kept ring s log completed seen
  Outbound-Kept v nb t few begins = record {
    valid = v;
    nonblocking = nb;
    raw_lem = refl;
    owner_lem = refl;
    id_lem = omega (arith, t.id_word);
    tracked = t;
    entries = [];
    submits = tt;
    order = append-nil (queued ring0);
    held = tt;
    numbered = refl;
  }
  Outbound-Kept v nb t few
        (writes {ring} {s} {log} {completed} {seen} data_ptr buf ring' s' n r e) =
      let size : length log + 1 < 2 ^ 32 =
        omega (arith, few, length-append log ((next_key s, buf) ∷ [])) in
      write-IsKept socket msg_waitall ring0 s0 data_ptr buf ring ring' s s' n log completed seen
        t.id_word (Outbound-Kept v nb t (omega (arith, size)) r) size e
  Outbound-Kept v nb t few (consumes {ring} {s} {log} {completed} {seen} n r fits) =
      consumes-Kept n ring s log completed seen (Outbound-Kept v nb t few r) fits
  Outbound-Kept v nb t few (completes {ring} {s} {log} {completed} {seen} c s' r owner event e) =
      send-Kept ring s s' c log completed seen (Outbound-Kept v nb t few r) owner event e
  Outbound-Kept v nb t few (receives {ring} {s} {log} {completed} {seen} c s' r owner event e) =
      let a = (on_completion_recv grow c s s' owner event).0 e in
      inner-Kept ring s s' log completed seen
        (a.result ∙ ap (λ v. record s { inner = v }) (sym (ap (λ t. t.inner) a.result)))
        (Outbound-Kept v nb t few r)
  Outbound-Kept v nb t few (reads {ring} {s} {log} {completed} {seen} m m' room s' out r e) =
      let k = Outbound-Kept v nb t few r in
      let (inner, got, _, after) = nonblocking_read socket s s' m m' room out k.nonblocking e in
      inner-Kept ring s s' log completed seen
        (after ∙ ap (λ v. record s { inner = v }) (sym (ap (λ t. t.inner) after))) k

  -- From a valid queue and a nonblocking stream without pending messages, over any interleaving of fewer
  -- than 2^32 writes that return with the kernel taking entries, with completions of sends that are
  -- accepted, in any order, and with what comes in: the entries that the kernel has taken and those
  -- that wait for it are, after what waited at the start, one send for each message, of its length as a
  -- u32 and in the order of the writes; the keys of the messages are those of consecutive ids; and
  -- every message is kept, with its bytes, under its key until the completion with that key.
  pub sends_in_order :
      (ring : IoUring) (s : TcpStream S) (log : PendingSent) (completed : List ℕ) (seen : List Sqe)
      → IsValid ring0
      → s0.nonblocking ≡ true
      → IsTracked 0 s0
      → length log < 2 ^ 32
      → Outbound socket grow msg_waitall ring0 s0 ring s log completed seen
      → (entries : List Sqe) × AllSubmit socket s0 log entries
        × (queued ring0 ++ entries ≡ seen ++ queued ring)
        × (map (λ e. e.0) log ≡ keys s0.owner_id s0.send_id (length log))
        × All (Done completed s.pending_sent) log
  sends_in_order ring s log completed seen v nb t few r =
      let k = Outbound-Kept v nb t few r in (k.entries, k.submits, k.order, k.numbered, k.held)
