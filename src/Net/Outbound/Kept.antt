-- ===== src/Net/Outbound/Kept.antt =====
-- src/net.rs with src/ring.rs and src/cqe.rs: what holds of the messages of a stream.
use mathlib.Core.List.{map-append}
use native.Mathlib.Decide.{dec_lt}
use uring_ws.Base.{
  ℕ, zero, suc, ◌+◌, ◌^◌, ◌<◌, ◌≡◌, refl, sym, ◌∙◌, ap, ap₂, subst, true, arith, inl, inr, List, [],
  ◌∷◌, ◌++◌, append_assoc, map, length, length-append, u32, ok, panic, Io, Result,
}
use uring_ws.UserData.{from_parts}
use uring_ws.BufRing.Cycle.{All}
use uring_ws.BufRing.Cycle.Sound.{All-snoc}
use uring_ws.Sqe.{Sqe, send, io_uring_initialize_sqe, io_uring_sqe_set_data}
use uring_ws.Ring.{IoUring}
use uring_ws.Ring.Slots.{in_flight, IsValid}
use uring_ws.Ring.Queue.{queued}
use uring_ws.Net.{TcpStream, Socket, PendingSent, write}
use uring_ws.Net.Pending.{Recent-fresh}
use uring_ws.Net.Write.{
  next_key, next_key_fields, write_entry, IsTracked, write_nonblocking_stream, write-IsTracked,
  write_queues_message, write_refused,
}
use uring_ws.Net.Outbound.{Submits, AllSubmit, Done, keys}
use uring_ws.Net.Outbound.Held.{Done-write, remove_last}

keys-snoc :
    (owner_id send_id n : ℕ)
    → send_id < 2 ^ 32
    → keys owner_id send_id (suc n)
      ≡ keys owner_id send_id n ++ (from_parts 0 owner_id (u32 (send_id + n)) ∷ [])
keys-snoc owner_id send_id zero h =
    ap (λ (i : ℕ). from_parts 0 owner_id i ∷ []) {x = send_id} {y = u32 (send_id + 0)} (omega arith)
keys-snoc owner_id send_id (suc n) h =
    ap (λ l. from_parts 0 owner_id send_id ∷ l)
      (keys-snoc owner_id (u32 (send_id + 1)) n (omega arith)
        ∙ ap (λ (i : ℕ). keys owner_id (u32 (send_id + 1)) n ++ (from_parts 0 owner_id i ∷ []))
            {x = u32 (u32 (send_id + 1) + n)} {y = u32 (send_id + suc n)} (omega arith))

module _ {S : Type 0} (socket : Socket S) (msg_waitall : ℕ) (ring0 : IoUring)
    (s0 : TcpStream S) where
  AllSubmit-snoc :
      (log : PendingSent) (entries : List Sqe) (message : ℕ × List ℕ) (sqe : Sqe)
      → AllSubmit socket s0 log entries
      → Submits socket s0 message sqe
      → AllSubmit socket s0 (log ++ (message ∷ [])) (entries ++ (sqe ∷ []))
  AllSubmit-snoc [] [] message sqe h new = (new, tt)
  AllSubmit-snoc [] (e ∷ entries) message sqe h new = absurd h
  AllSubmit-snoc (m ∷ log) [] message sqe h new = absurd h
  AllSubmit-snoc (m ∷ log) (e ∷ entries) message sqe h new =
      (h.0, AllSubmit-snoc log entries message sqe h.1 new)

  -- The stream and its queue after some messages.
  pub record IsKept (ring : IoUring) (s : TcpStream S) (log : PendingSent) (completed : List ℕ)
      (seen : List Sqe) : Type 0 where
    pub valid : IsValid ring
    pub nonblocking : s.nonblocking ≡ true
    pub raw_lem : s.raw ≡ s0.raw
    pub owner_lem : s.owner_id ≡ s0.owner_id
    pub id_lem : s.send_id ≡ u32 (s0.send_id + length log)
    pub tracked : IsTracked (length log) s
    pub entries : List Sqe
    pub submits : AllSubmit socket s0 log entries
    pub order : queued ring0 ++ entries ≡ seen ++ queued ring
    pub held : All (Done completed s.pending_sent) log
    pub numbered : map (λ e. e.0) log ≡ keys s0.owner_id s0.send_id (length log)

  entry-Submits :
      (s : TcpStream S) (buf : List ℕ) (data_ptr : ℕ) (old : Sqe)
      → s.raw ≡ s0.raw
      → Submits socket s0 (next_key s, buf) (write_entry socket msg_waitall data_ptr buf s old)
  unfolding send io_uring_initialize_sqe io_uring_sqe_set_data
  entry-Submits s buf data_ptr old same = record {
    sends = refl;
    plain_flags = refl;
    on_socket = ap (λ r. socket.as_raw_fd r) same;
    of_length = refl;
    under_key = refl;
  }

  -- A write that returns has found room in the queue.
  write_queued :
      (data_ptr : ℕ) (buf : List ℕ) (ring ring' : IoUring) (s s' : TcpStream S) (n : Io ℕ)
      → IsValid ring
      → s.nonblocking ≡ true
      → 0 < length buf
      → write socket msg_waitall data_ptr buf ring s ≡ ok (s', ring', n)
      → (old : Sqe) × IsValid ring'
        × (queued ring' ≡ queued ring ++ (write_entry socket msg_waitall data_ptr buf s old ∷ []))
  write_queued data_ptr buf ring ring' s s' n v nb pos e =
      elim (dec_lt (in_flight ring) ring.ring_entries) [
        | yes room ↦
            let (ring1, old, e1, v1, q1) =
              write_queues_message socket msg_waitall data_ptr buf ring s nb pos v room in
            let same : ring1 ≡ ring' =
              ap
                (λ (r : Result (TcpStream S × IoUring × Io ℕ)). elim r [
                  | ok t ↦ t.1
                  | panic p ↦ ring
                ])
                (sym e1 ∙ e) in
            (old, subst IsValid same v1, ap queued (sym same) ∙ q1)
        | no stuck ↦
            let full : in_flight ring ≡ ring.ring_entries = omega (arith, v.bounded) in
            elim (write_refused socket msg_waitall data_ptr buf ring s nb v (inr full)) [
              | inl (empty, _) ↦ absurd (omega arith)
              | inr (_, lost) ↦ let clash = sym lost ∙ e in absurd (cc)
            ]
      ]

  pub write-IsKept :
      (data_ptr : ℕ) (buf : List ℕ) (ring ring' : IoUring) (s s' : TcpStream S) (n : Io ℕ)
      (log : PendingSent) (completed : List ℕ) (seen : List Sqe)
      → s0.send_id < 2 ^ 32
      → IsKept ring s log completed seen
      → length log + 1 < 2 ^ 32
      → write socket msg_waitall data_ptr buf ring s ≡ ok (s', ring', n)
      → IsKept ring' s' (log ++ ((next_key s, buf) ∷ [])) completed seen
  write-IsKept data_ptr buf ring ring' s s' n log completed seen word k few e =
      let (some_bytes, after) =
        write_nonblocking_stream socket msg_waitall data_ptr buf ring ring' s s' n k.nonblocking
          e in
      let (tracked, grown) =
        write-IsTracked socket msg_waitall data_ptr (length log) buf ring ring' s s' n k.tracked few
          k.nonblocking e in
      let (old, valid, queued_eq) =
        write_queued data_ptr buf ring ring' s s' n k.valid k.nonblocking some_bytes e in
      let new = write_entry socket msg_waitall data_ptr buf s old in
      let size : length (log ++ ((next_key s, buf) ∷ [])) ≡ length log + 1 =
        length-append log ((next_key s, buf) ∷ []) in
      let fresh =
        Recent-fresh (length log) s.send_id (next_key s) s.pending_sent k.tracked.id_word
          k.tracked.window (next_key_fields s k.tracked.owner_word k.tracked.id_word).2
          k.tracked.recent in
      record {
        valid = valid;
        nonblocking = ap (λ t. t.nonblocking) after ∙ k.nonblocking;
        raw_lem = ap (λ t. t.raw) after ∙ k.raw_lem;
        owner_lem = ap (λ t. t.owner_id) after ∙ k.owner_lem;
        id_lem = ap (λ t. t.send_id) after ∙ omega (arith, k.id_lem, size);
        tracked = subst (λ w. IsTracked w s') (sym size) tracked;
        entries = k.entries ++ (new ∷ []);
        submits =
            AllSubmit-snoc log k.entries (next_key s, buf) new k.submits
              (entry-Submits s buf data_ptr old k.raw_lem);
        order =
            sym (append_assoc (queued ring0) k.entries (new ∷ []))
            ∙ ap (λ l. l ++ (new ∷ [])) k.order
            ∙ append_assoc seen (queued ring) (new ∷ [])
            ∙ ap (◌++◌ seen) (sym queued_eq);
        held =
            subst (λ p. All (Done completed p) (log ++ ((next_key s, buf) ∷ []))) (sym grown)
              (All-snoc _ log (next_key s, buf)
                (Done-write completed s.pending_sent ((next_key s, buf) ∷ []) log k.held)
                (inr (s.pending_sent, remove_last (next_key s) buf s.pending_sent fresh)));
        numbered =
            map-append (λ (e : ℕ × List ℕ). e.0) log ((next_key s, buf) ∷ [])
            ∙ ap₂ (λ l (i : ℕ). l ++ (i ∷ [])) k.numbered (ap₂ (from_parts 0) k.owner_lem k.id_lem)
            ∙ sym (keys-snoc s0.owner_id s0.send_id (length log) word)
            ∙ ap (keys s0.owner_id s0.send_id) {x = suc (length log)} (omega (arith, size));
      }
