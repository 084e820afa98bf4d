-- ===== src/Example/Plaintext/Loop.antt =====
-- src/examples/io_uring_probe.rs: the loop over the plaintext ends and hands all of it over.
use uring_ws.Base.{
  ℕ, zero, suc, ◌-◌, min, ◌≤◌, ◌<◌, ◌≡◌, refl, sym, subst, ap, on_option, arith, ◌∙◌, ◌==◌, ltb,
  true, false, Option, none, some, List, [], ◌∷◌, ◌++◌, length, take, drop, length-append,
  length-take, Result, ok, check, ◌>>=◌, ◌>>◌, >>=-cases_ok, Result-cases, Bool-cases, inl, inr,
}
use uring_ws.BufRing.Cycle.{All}
use uring_ws.Frames.{WebsocketHandler, Decoder, add_data}
use uring_ws.Frames.Text.{concat}
use uring_ws.Example.{Library}
use uring_ws.Example.Receive.{Reading, read_part, read_plaintext, decrypt}
use uring_ws.Example.Plaintext.{
  length-drop, KeepsLength, ReadsExactly, chunks, concat-chunks, loop-length, feed, outcome,
}

module _ {S C W D I : Type 0} (lib : Library S C W) (decoder : Decoder D I)
    (lossy : List ℕ → List ℕ) (fuel : ℕ) where
  -- One round hands the next piece over and leaves the rest.
  record Ready (holds : C → List ℕ → Type 0) (n : ℕ) (plain : List ℕ) (r : Reading C D)
      : Type 0 where
    conn_holds : holds r.conn plain
    counts : r.remaining ≡ length plain
    size : length r.received ≡ n

  abbrev advanced :
      (r : Reading C D) (m : ℕ) (conn : C)
      → WebsocketHandler D
      → (strs : List (List ℕ)) → List ℕ
      → Reading C D
  advanced r m conn handler strs bytes = record {
    conn = conn;
    handler = handler;
    received = bytes ++ drop m r.received;
    remaining = r.remaining - m;
    strs = r.strs ++ strs;
  }

  abbrev after_part : (r : Reading C D) (m : ℕ) → List ℕ → C → Result (Option (Reading C D))
  after_part r m piece conn = add_data decoder lossy fuel piece r.handler >>= λ added. elim added [
    | none ↦ ok none
    | some (h, s, b) ↦ ok (some (advanced r m conn h s b))
  ]

  read_part-piece :
      (r : Reading C D) (m : ℕ) (piece : List ℕ) (conn : C)
      → min (length r.received) r.remaining ≡ m
      → lib.tls.read_exact r.conn m ≡ some (piece, conn)
      → read_part lib decoder lossy fuel r ≡ after_part r m piece conn
  unfolding read_part
  read_part-piece r m piece conn e =
      subst
        (λ (k : ℕ).
          lib.tls.read_exact r.conn k ≡ some (piece, conn)
          → read_part lib decoder lossy fuel r ≡ after_part r k piece conn)
        e (λ read. rw read refl)

  read_plaintext-part :
      (rounds : ℕ) (r : Reading C D) (next : Result (Option (Reading C D)))
      → (r.remaining == 0) ≡ false
      → read_part lib decoder lossy fuel r ≡ next
      → read_plaintext lib decoder lossy fuel (suc rounds) r ≡ (
          next >>= λ n. elim n [
            | none ↦ ok none
            | some r' ↦ read_plaintext lib decoder lossy fuel rounds r'
          ])
  unfolding read_plaintext
  read_plaintext-part rounds r next left part = ground (arith, left, part)

  feed-step :
      KeepsLength decoder
      → {holds : C → List ℕ → Type 0} (reads : ReadsExactly lib.tls holds) (n rounds : ℕ) (x : ℕ)
        (xs : List ℕ) (r : Reading C D)
      → Ready holds n (x ∷ xs) r
      → 0 < n
      → ((r' : Reading C D)
          → Ready holds n (drop (min n (length (x ∷ xs))) (x ∷ xs)) r'
          → outcome (read_plaintext lib decoder lossy fuel rounds r')
            ≡ feed lib decoder lossy fuel
                (chunks rounds n (drop (min n (length (x ∷ xs))) (x ∷ xs)))
                r'.handler
                r'.strs)
      → outcome (read_plaintext lib decoder lossy fuel (suc rounds) r)
        ≡ feed lib decoder lossy fuel (chunks (suc rounds) n (x ∷ xs)) r.handler r.strs
  unfolding add_data
  feed-step keeps {holds} reads n rounds x xs r ready h others =
      let m = min n (length (x ∷ xs)) in
      let (conn, read, held) = reads r.conn (x ∷ xs) m ready.conn_holds (omega arith) in
      let left : (r.remaining == 0) ≡ false = ground (arith, ready.counts) in
      let part =
        read_part-piece r m (take m (x ∷ xs)) conn (ground (arith, ready.counts, ready.size))
          read in
      let piece = add_data decoder lossy fuel (take m (x ∷ xs)) r.handler in
      let kept : (a : WebsocketHandler D × List (List ℕ) × List ℕ)
          → piece ≡ ok (some a)
          → Ready holds n (drop m (x ∷ xs)) (advanced r m conn a.0 a.1 a.2) =
        λ a e. record {
          conn_holds = held;
          counts = omega (arith, ready.counts, length-drop m (x ∷ xs));
          size = omega (
            arith,
            ready.size,
            length-append a.2 (drop m r.received),
            length-drop m r.received,
            length-take m (x ∷ xs),
            loop-length lib decoder lossy fuel keeps fuel 0 (take m (x ∷ xs)) r.handler a.0 [] a.1
                a.2 e,
          );
        } in
      ap outcome (read_plaintext-part rounds r _ left part) ∙ elim (Result-cases piece) [
        | inr (p, e) ↦ rw e refl
        | inl (none, e) ↦ rw e refl
        | inl (some a, e) ↦ rw e (others (advanced r m conn a.0 a.1 a.2) (kept a e))
      ]

  read_plaintext-feed :
      KeepsLength decoder
      → {holds : C → List ℕ → Type 0} (reads : ReadsExactly lib.tls holds) (n rounds : ℕ)
        (plain : List ℕ) (r : Reading C D)
      → Ready holds n plain r
      → 0 < n
      → length plain ≤ rounds
      → outcome (read_plaintext lib decoder lossy fuel rounds r)
        ≡ feed lib decoder lossy fuel (chunks rounds n plain) r.handler r.strs
  unfolding read_plaintext
  read_plaintext-feed keeps reads n zero [] r ready h e = ground (arith, ready.counts)
  read_plaintext-feed keeps reads n zero (x ∷ xs) r ready h e = absurd (omega arith)
  read_plaintext-feed keeps reads n (suc rounds) [] r ready h e = ground (arith, ready.counts)
  read_plaintext-feed keeps reads n (suc rounds) (x ∷ xs) r ready h e =
      feed-step keeps reads n rounds x xs r ready h λ r' ready'.
        read_plaintext-feed keeps reads n rounds (drop (min n (length (x ∷ xs))) (x ∷ xs)) r' ready'
          h (omega (arith, length-drop (min n (length (x ∷ xs))) (x ∷ xs)))

  read_plaintext-done :
      (rounds : ℕ) (r r' : Reading C D)
      → read_plaintext lib decoder lossy fuel rounds r ≡ ok (some r')
      → (r'.remaining == 0) ≡ true
  unfolding read_plaintext
  read_plaintext-done zero r r' e = elim (Bool-cases (r.remaining == 0)) [
    | inl last ↦ ground (arith, last, e)
    | inr more ↦ absurd (ground (arith, more, e))
  ]
  read_plaintext-done (suc rounds) r r' e = elim (Bool-cases (r.remaining == 0)) [
    | inl last ↦ ground (arith, last, e)
    | inr more ↦
        >>=-cases_ok (read_part lib decoder lossy fuel r) _
          (sym (read_plaintext-part rounds r _ more refl) ∙ e)
          λ next part rest.
            on_option next _ _ rest (λ stuck. absurd (cc))
              λ mid goes. read_plaintext-done rounds mid r' goes
  ]

  decrypt_checks :
      (received : List ℕ) (conn conn1 conn2 : C) (handler : WebsocketHandler D)
      (strs : List (List ℕ)) (ret n : ℕ)
      → lib.tls.read_tls conn received ≡ some (ret, conn1)
      → 0 < ret
      → lib.tls.process_new_packets conn1 ≡ some (n, false, conn2)
      → outcome (decrypt lib decoder lossy fuel received conn handler strs)
        ≡ outcome (
            read_plaintext lib decoder lossy fuel n (record {
              conn = conn2;
              handler = handler;
              received = received;
              remaining = n;
              strs = strs;
            }))
  unfolding decrypt
  decrypt_checks received conn conn1 conn2 handler strs ret n took some_taken shown =
      let read = read_plaintext lib decoder lossy fuel n (record {
        conn = conn2;
        handler = handler;
        received = received;
        remaining = n;
        strs = strs;
      }) in
      let taken : ltb 0 ret ≡ true = ground arith in
      let start : decrypt lib decoder lossy fuel received conn handler strs ≡ (
          read >>= λ d. elim d [
            | none ↦ ok none
            | some r ↦ check (r.remaining == 0) >> ok (some r)
          ]) =
        rw (took, taken, shown) refl in
      ap outcome start ∙ elim (Result-cases read) [
        | inr (p, e) ↦ rw e refl
        | inl (none, e) ↦ rw e refl
        | inl (some r, e) ↦ rw (e, read_plaintext-done n _ r e) refl
      ]

  -- When the connection has taken bytes of a buffer that is not empty and its reader then holds the
  -- plaintext `plain`, the loop ends within as many rounds as there are bytes of plaintext, and has
  -- handed all of it to the frame decoder, in order and in pieces that are not empty and no longer
  -- than the buffer.
  pub decrypt_delivers :
      KeepsLength decoder
      → {holds : C → List ℕ → Type 0} (reads : ReadsExactly lib.tls holds) (received plain : List ℕ)
        (conn conn1 conn2 : C) (handler : WebsocketHandler D) (strs : List (List ℕ)) (ret : ℕ)
      → 0 < length received
      → lib.tls.read_tls conn received ≡ some (ret, conn1)
      → 0 < ret
      → lib.tls.process_new_packets conn1 ≡ some (length plain, false, conn2)
      → holds conn2 plain
      → (cs : List (List ℕ)) × (concat cs ≡ plain)
        × All (λ c. (0 < length c) × (length c ≤ length received)) cs
        × (outcome (decrypt lib decoder lossy fuel received conn handler strs)
            ≡ feed lib decoder lossy fuel cs handler strs)
  decrypt_delivers keeps reads received plain conn conn1 conn2 handler strs ret h took some_taken
        shown held =
      let (whole, sizes) = concat-chunks (length plain) (length received) plain h (omega arith) in
      (
        chunks (length plain) (length received) plain,
        whole,
        sizes,
        decrypt_checks received conn conn1 conn2 handler strs ret (length plain) took some_taken
              shown
            ∙ read_plaintext-feed keeps reads (length received) (length plain) plain
                (record {
                  conn = conn2;
                  handler = handler;
                  received = received;
                  remaining = length plain;
                  strs = strs;
                })
                (record { conn_holds = held; counts = refl; size = refl }) h (omega arith),
      )
