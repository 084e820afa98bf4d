-- ===== src/Tests/Frames.antt =====
-- The handler of src/examples/io_uring_probe.rs with a small decoder: a byte gives the length of a final
-- text frame, and each byte of the payload is a chunk.
use uring_ws.Base.{
  ℕ, zero, suc, ◌≡◌, refl, arith, Bool, true, Option, some, none, List, [], ◌∷◌, ok,
}
use uring_ws.Frames.{FrameEvent, text, start, payload_chunk, frame_end, Decoder, add_data}
use uring_ws.Frames.Calls.{Decodes, at_rest, calls}
use uring_ws.Frames.Text.{Fragment, fragment_calls, add_data_texts}

abbrev step : ℕ → List ℕ → Option (ℕ × Option (FrameEvent Bool) × ℕ × List ℕ)
step zero [] = some (0, none, 0, [])
step zero (x ∷ xs) = some (1, some (start true text), suc x, x ∷ xs)
step (suc zero) xs = some (0, some (frame_end true text), 0, xs)
step (suc (suc n)) [] = some (0, none, suc (suc n), [])
step (suc (suc n)) (x ∷ xs) = some (1, some (payload_chunk text), suc n, x ∷ xs)

abbrev pub decoder : Decoder ℕ Bool
decoder = record { add_data = step; fin = λ b. b; is_reasonable = λ b. true }

abbrev hi : Fragment Bool
hi = record { start_info = true; chunks = (104 ∷ []) ∷ (105 ∷ []) ∷ []; end_info = true }

abbrev pub frame_bytes : List ℕ
frame_bytes = 2 ∷ 104 ∷ 105 ∷ []

Decodes-hi : Decodes decoder 0 0 frame_bytes (fragment_calls (λ b. 2 ∷ []) (hi ∷ [])) 0 frame_bytes
unfolding fragment_calls
Decodes-hi = calls 3 frame_bytes 1 (start true text) (omega arith) (omega arith) refl (
    calls 2 (104 ∷ 105 ∷ []) 1 (payload_chunk text) (omega arith) (omega arith) refl (
      calls 1 (105 ∷ []) 1 (payload_chunk text) (omega arith) (omega arith) refl (
        calls 0 [] 0 (frame_end true text) (omega arith) (omega arith) refl
          (at_rest 0 [] (omega arith) refl))))

add_data_texts_example :
    add_data decoder (λ b. b) 5 frame_bytes (record { frame_decoder = 0; str_acc = 9 ∷ [] })
    ≡ ok (
        some (
          record { frame_decoder = 0; str_acc = 104 ∷ 105 ∷ [] },
          (104 ∷ 105 ∷ []) ∷ [],
          frame_bytes,
        ))
unfolding fragment_calls
add_data_texts_example =
    add_data_texts decoder (λ b. b) (λ b. 2 ∷ []) (hi ∷ []) 0 0 (9 ∷ []) frame_bytes frame_bytes
      (refl, tt) Decodes-hi
