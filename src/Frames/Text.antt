-- ===== src/Frames/Text.antt =====
-- src/examples/io_uring_probe.rs, module `websocket`: the messages that come out of the decoder's events.
use uring_ws.Base.{
  ℕ, suc, ◌≡◌, refl, sym, ap, arith, ◌∙◌, true, some, List, [], ◌∷◌, ◌++◌, map, length, take,
  append-nil, append_assoc, if◌then◌else◌, ok, ◌>>=◌, Bool-cases, inl, inr,
}
use uring_ws.BufRing.Cycle.{All}
use uring_ws.Frames.{text, start, payload_chunk, frame_end, Decoder, on_event, add_data}
use uring_ws.Frames.Calls.{Call, Decodes, play, loop-plays}

-- A frame of a text message: what the decoder says of it at its start and at its end, and the chunks of
-- its payload.
pub record Fragment (I : Type 0) : Type 0 where
  pub start_info : I
  pub chunks : List (List ℕ)
  pub end_info : I

chunk_calls : {I : Type 0} → List (List ℕ) → List (Call I) → List (Call I)
chunk_calls [] after = after
chunk_calls (c ∷ cs) after =
    record { event = payload_chunk text; consumed = c } ∷ chunk_calls cs after

-- The calls of frames: a start with its header's bytes, the chunks, and an end that consumes nothing.
unfoldable pub fragment_calls :
    {I : Type 0} → (header : I → List ℕ) → List (Fragment I) → List (Call I)
unfolding chunk_calls
fragment_calls header [] = []
fragment_calls header (f ∷ fs) =
    record { event = start f.start_info text; consumed = header f.start_info }
    ∷ chunk_calls f.chunks
        (record { event = frame_end f.end_info text; consumed = [] } ∷ fragment_calls header fs)

abbrev pub concat : List (List ℕ) → List ℕ
concat [] = []
concat (c ∷ cs) = c ++ concat cs

-- The text that each final frame gives; the payload that is kept is the last frame's.
abbrev pub texts : {D I : Type 0} → Decoder D I → List (Fragment I) → List (List ℕ)
texts decoder [] = []
texts decoder (f ∷ fs) =
    if decoder.fin f.end_info then concat f.chunks ∷ texts decoder fs else texts decoder fs

abbrev pub last_payload : {I : Type 0} → List ℕ → List (Fragment I) → List ℕ
last_payload acc [] = acc
last_payload acc (f ∷ fs) = last_payload (concat f.chunks) fs

module _ {D I : Type 0} (decoder : Decoder D I) (lossy : List ℕ → List ℕ) where
  take_all : (c : List ℕ) → take (length c) c ≡ c
  take_all [] = refl
  take_all (x ∷ xs) = ap (◌∷◌ x) (take_all xs)

  chunk_event :
      (c acc : List ℕ) (strs : List (List ℕ))
      → on_event decoder lossy (length c) c (payload_chunk text) acc strs ≡ ok (acc ++ c, strs)
  unfolding on_event
  chunk_event c acc strs = ground (arith, take_all c)

  end_event :
      (info : I) (acc : List ℕ) (strs : List (List ℕ))
      → on_event decoder lossy 0 [] (frame_end info text) acc strs
        ≡ ok (acc, strs ++ (if decoder.fin info then lossy acc ∷ [] else []))
  unfolding on_event
  end_event info acc strs = elim (Bool-cases (decoder.fin info)) [
    | inl final ↦ rw final refl
    | inr more ↦ rw (more, append-nil strs) refl
  ]

  start_event :
      (info : I) (header acc : List ℕ) (strs : List (List ℕ))
      → decoder.is_reasonable info ≡ true
      → on_event decoder lossy (length header) header (start info text) acc strs ≡ ok ([], strs)
  unfolding on_event
  start_event info header acc strs h = rw h refl

  texts_step :
      (f : Fragment I) (fs : List (Fragment I)) (strs : List (List ℕ))
      → (strs ++ (if decoder.fin f.end_info then lossy (concat f.chunks) ∷ [] else []))
          ++ map lossy (texts decoder fs)
        ≡ strs ++ map lossy (texts decoder (f ∷ fs))
  texts_step f fs strs = elim (Bool-cases (decoder.fin f.end_info)) [
    | inl final ↦ rw final (append_assoc strs _ _)
    | inr more ↦ rw (more, append-nil strs) refl
  ]

  play-chunks :
      (cs : List (List ℕ)) (after : List (Call I)) (acc : List ℕ) (strs : List (List ℕ))
      → play decoder lossy (chunk_calls cs after) acc strs
        ≡ play decoder lossy after (acc ++ concat cs) strs
  unfolding play chunk_calls
  play-chunks [] after acc strs = ap (λ a. play decoder lossy after a strs) (sym (append-nil acc))
  play-chunks (c ∷ cs) after acc strs = rw (chunk_event c acc strs) (
      play-chunks cs after (acc ++ c) strs
      ∙ ap (λ a. play decoder lossy after a strs) (append_assoc acc c (concat cs)))

  play-fragments :
      (header : I → List ℕ) (fs : List (Fragment I)) (acc : List ℕ) (strs : List (List ℕ))
      → All (λ f. decoder.is_reasonable f.start_info ≡ true) fs
      → play decoder lossy (fragment_calls header fs) acc strs
        ≡ ok (last_payload acc fs, strs ++ map lossy (texts decoder fs))
  unfolding play fragment_calls
  play-fragments header [] acc strs h = rw (append-nil strs) refl
  play-fragments header (f ∷ fs) acc strs h =
      let after : List (Call I) =
        record { event = frame_end f.end_info text; consumed = [] } ∷ fragment_calls header fs in
      let kept = if decoder.fin f.end_info then lossy (concat f.chunks) ∷ [] else [] in
      ap (λ r. r >>= λ x. play decoder lossy (chunk_calls f.chunks after) x.0 x.1)
        (start_event f.start_info (header f.start_info) acc strs h.0)
      ∙ play-chunks f.chunks after [] strs
      ∙ ap (λ r. r >>= λ x. play decoder lossy (fragment_calls header fs) x.0 x.1)
          (end_event f.end_info (concat f.chunks) strs)
      ∙ play-fragments header fs (concat f.chunks) (strs ++ kept) h.1
      ∙ ap (λ t. ok (last_payload (concat f.chunks) fs, t)) (texts_step f fs strs)

  -- When the decoder splits the data into whole text frames, `add_data` gives the text of every final
  -- frame, in order and each with all its chunks, and one call more than there are events is enough for
  -- its loop. The payload of a frame that is not final is dropped: the next start clears it.
  pub add_data_texts :
      (header : I → List ℕ) (fs : List (Fragment I)) (d d' : D) (acc bytes bytes' : List ℕ)
      → All (λ f. decoder.is_reasonable f.start_info ≡ true) fs
      → Decodes decoder d 0 bytes (fragment_calls header fs) d' bytes'
      → add_data decoder lossy
          (suc (length (fragment_calls header fs)))
          bytes
          (record { frame_decoder = d; str_acc = acc })
        ≡ ok (
            some (
              record { frame_decoder = d'; str_acc = last_payload acc fs },
              map lossy (texts decoder fs),
              bytes',
            ))
  unfolding add_data
  add_data_texts header fs d d' acc bytes bytes' h decodes =
      loop-plays decoder lossy acc (last_payload acc fs) [] (map lossy (texts decoder fs)) decodes
        (play-fragments header fs acc [] h)
