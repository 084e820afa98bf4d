-- ===== src/Frames/Calls.antt =====
-- src/examples/io_uring_probe.rs, module `websocket`: what the loop does with the decoder's events.
use uring_ws.Base.{
  ℕ, zero, suc, ◌+◌, ◌≤◌, ◌≡◌, refl, ap, arith, ◌∙◌, false, some, none, List, [], ◌∷◌, ◌++◌, length,
  take, drop, Result, ok, ◌>>=◌, >>=-cases_ok, ltb, length-take,
}
use uring_ws.Frames.{
  text, connection_close, other_opcode, FrameEvent, start, payload_chunk, frame_end, Decoder,
  on_event, add_data_loop,
}

-- An event of the decoder with the bytes that it has consumed for it.
pub record Call (I : Type 0) : Type 0 where
  pub event : FrameEvent I
  pub consumed : List ℕ

-- The calls of a decoder over data from an offset on, each with an event, up to the one that consumes
-- nothing: the decoder and the data that it leaves.
pub data Decodes {D I : Type 0} (decoder : Decoder D I)
    : D → ℕ → List ℕ → List (Call I) → D → List ℕ → Type 0 where
  at_rest :
      {d : D} {offset : ℕ} {bytes : List ℕ} (d' : D) (rewritten : List ℕ)
      → offset ≤ length bytes
      → decoder.add_data d (drop offset bytes) ≡ some (0, none, d', rewritten)
      → Decodes decoder d offset bytes [] d' (take offset bytes ++ rewritten)
  calls :
      {d : D} {offset : ℕ} {bytes : List ℕ} (d1 : D) (rewritten : List ℕ) (n : ℕ) (e : FrameEvent I)
      {rest : List (Call I)} {d' : D} {bytes' : List ℕ}
      → offset ≤ length bytes
      → n ≤ length rewritten
      → decoder.add_data d (drop offset bytes) ≡ some (n, some e, d1, rewritten)
      → Decodes decoder d1 (offset + n) (take offset bytes ++ rewritten) rest d' bytes'
      → Decodes decoder d offset bytes
          (record { event = e; consumed = take n rewritten } ∷ rest)
          d'
          bytes'

take-take : {A : Type 0} (n : ℕ) (xs : List A) → take (length (take n xs)) (take n xs) ≡ take n xs
take-take zero xs = refl
take-take (suc n) [] = refl
take-take (suc n) (x ∷ xs) = ap (◌∷◌ x) (take-take n xs)

module _ {D I : Type 0} (decoder : Decoder D I) (lossy : List ℕ → List ℕ) where
  -- The calls' events one after another.
  unfoldable pub play : List (Call I) → List ℕ → List (List ℕ) → Result (List ℕ × List (List ℕ))
  play [] acc strs = ok (acc, strs)
  play (c ∷ cs) acc strs = do
    (acc', strs') ← on_event decoder lossy (length c.consumed) c.consumed c.event acc strs
    play cs acc' strs'

  on_event_consumed :
      (n : ℕ) (rewritten : List ℕ) (e : FrameEvent I) (acc : List ℕ) (strs : List (List ℕ))
      → n ≤ length rewritten
      → on_event decoder lossy n rewritten e acc strs
        ≡ on_event decoder lossy (length (take n rewritten)) (take n rewritten) e acc strs
  unfolding on_event
  on_event_consumed n rewritten (start info text) acc strs h = refl
  on_event_consumed n rewritten (start info connection_close) acc strs h = refl
  on_event_consumed n rewritten (start info (other_opcode o)) acc strs h = refl
  on_event_consumed n rewritten (payload_chunk text) acc strs h =
      ground (arith, take-take n rewritten, length-take n rewritten)
  on_event_consumed n rewritten (payload_chunk connection_close) acc strs h = refl
  on_event_consumed n rewritten (payload_chunk (other_opcode o)) acc strs h = refl
  on_event_consumed n rewritten (frame_end info text) acc strs h = refl
  on_event_consumed n rewritten (frame_end info connection_close) acc strs h = refl
  on_event_consumed n rewritten (frame_end info (other_opcode o)) acc strs h = refl

  loop-call :
      (fuel : ℕ) {d d1 : D} {offset n : ℕ} (bytes : List ℕ) {rewritten : List ℕ} {e : FrameEvent I}
      (acc : List ℕ) {acc1 : List ℕ} (strs : List (List ℕ)) {strs1 : List (List ℕ)}
      → offset ≤ length bytes
      → decoder.add_data d (drop offset bytes) ≡ some (n, some e, d1, rewritten)
      → on_event decoder lossy n rewritten e acc strs ≡ ok (acc1, strs1)
      → add_data_loop decoder lossy
          (suc fuel)
          offset
          bytes
          (record { frame_decoder = d; str_acc = acc })
          strs
        ≡ add_data_loop decoder lossy fuel
            (offset + n)
            (take offset bytes ++ rewritten)
            (record { frame_decoder = d1; str_acc = acc1 })
            strs1
  unfolding add_data_loop
  loop-call fuel {d} {d1} {offset} {n} bytes {rewritten} {e} acc {acc1} strs {strs1} fits emits
        does =
      let inside : ltb (length bytes) offset ≡ false = ground arith in rw (inside, emits, does) refl

  rest_lem :
      {d : D} {offset : ℕ} (bytes : List ℕ) {d' : D} {rewritten : List ℕ} (acc : List ℕ)
      {acc' : List ℕ} (strs : List (List ℕ)) {strs' : List (List ℕ)}
      → offset ≤ length bytes
      → decoder.add_data d (drop offset bytes) ≡ some (0, none, d', rewritten)
      → play [] acc strs ≡ ok (acc', strs')
      → add_data_loop decoder lossy 1 offset bytes
          (record { frame_decoder = d; str_acc = acc })
          strs
        ≡ ok (
            some (
              record { frame_decoder = d'; str_acc = acc' },
              strs',
              take offset bytes ++ rewritten,
            ))
  unfolding add_data_loop play
  rest_lem bytes acc strs fits rests e = ground (arith, rests, e)

  -- The loop does what the events do, when they do not panic, and one call more than there are events is
  -- enough for it.
  pub loop-plays :
      {d : D} {offset : ℕ} {bytes : List ℕ} {cs : List (Call I)} {d' : D} {bytes' : List ℕ}
      (acc acc' : List ℕ) (strs strs' : List (List ℕ))
      → Decodes decoder d offset bytes cs d' bytes'
      → play cs acc strs ≡ ok (acc', strs')
      → add_data_loop decoder lossy
          (suc (length cs))
          offset
          bytes
          (record { frame_decoder = d; str_acc = acc })
          strs
        ≡ ok (some (record { frame_decoder = d'; str_acc = acc' }, strs', bytes'))
  unfolding play
  loop-plays acc acc' strs strs' (at_rest d' rewritten fits rests) e =
      rest_lem _ acc strs fits rests e
  loop-plays acc acc' strs strs' (calls d1 rewritten n e fits part emits rest) played =
      >>=-cases_ok
        (on_event decoder lossy (length (take n rewritten)) (take n rewritten) e acc strs) _ played
        λ r does others.
          loop-call _ _ acc strs fits emits (on_event_consumed n rewritten e acc strs part ∙ does)
          ∙ loop-plays r.0 acc' r.1 strs' rest others
