-- ===== src/Frames.antt =====
-- src/examples/io_uring_probe.rs, module `websocket`: the handler that puts the text messages of a websocket
-- together. The frame decoder (crate websocket_sans_io) is a parameter.
pub mod Calls
pub mod Text
use uring_ws.Base.{
  ℕ, zero, suc, ◌+◌, ltb, ◌==◌, if◌then◌else◌, Bool, true, false, Option, some, none, List, [], ◌∷◌,
  ◌++◌, length, take, drop, Result, ok, panic, check, or_panic, ◌>>=◌, ◌>>◌, out_of_bounds,
  unwrap_failed, explicit,
}

-- `Opcode`, as far as the handler tells its cases apart.
pub data Opcode : Type 0 where
  text connection_close : Opcode
  other_opcode : ℕ → Opcode

-- `WebsocketFrameEvent`, over the decoder's `FrameInfo`; the opcode is the original one.
pub data FrameEvent (I : Type 0) : Type 0 where
  start : I → Opcode → FrameEvent I
  payload_chunk : Opcode → FrameEvent I
  frame_end : I → Opcode → FrameEvent I

-- `add_data` rewrites the slice that it is given; `none` is an error.
pub record Decoder (D I : Type 0) : Type 0 where
  pub add_data : D → List ℕ → Option (ℕ × Option (FrameEvent I) × D × List ℕ)
  pub fin : I → Bool
  pub is_reasonable : I → Bool

pub record WebsocketHandler (D : Type 0) : Type 0 where
  pub frame_decoder : D
  pub str_acc : List ℕ

-- `lossy` is `String::from_utf8_lossy`.
module _ {D I : Type 0} (decoder : Decoder D I) (lossy : List ℕ → List ℕ) where
  -- What an event does to `str_acc` and `strs`, with the slice that the decoder has rewritten.
  unfoldable pub on_event :
      (consumed_bytes : ℕ)
      → (unprocessed : List ℕ) → FrameEvent I
      → (str_acc : List ℕ) → (strs : List (List ℕ)) → Result (List ℕ × List (List ℕ))
  on_event consumed_bytes unprocessed (start info text) str_acc strs = do
    check (decoder.is_reasonable info)
    ok ([], strs)
  on_event consumed_bytes unprocessed (start info connection_close) str_acc strs = do
    check (decoder.is_reasonable info)
    ok (str_acc, strs)
  on_event consumed_bytes unprocessed (start info (other_opcode o)) str_acc strs = do
    check (decoder.is_reasonable info)
    ok (str_acc, strs)
  on_event consumed_bytes unprocessed (payload_chunk text) str_acc strs =
      if ltb (length unprocessed) consumed_bytes
      then panic out_of_bounds
      else ok (str_acc ++ take consumed_bytes unprocessed, strs)
  on_event consumed_bytes unprocessed (payload_chunk connection_close) str_acc strs =
      ok (str_acc, strs)
  on_event consumed_bytes unprocessed (payload_chunk (other_opcode o)) str_acc strs =
      ok (str_acc, strs)
  on_event consumed_bytes unprocessed (frame_end info text) str_acc strs =
      if decoder.fin info then ok (str_acc, strs ++ (lossy str_acc ∷ [])) else ok (str_acc, strs)
  on_event consumed_bytes unprocessed (frame_end info connection_close) str_acc strs = do
    check (decoder.is_reasonable info)
    panic explicit
  on_event consumed_bytes unprocessed (frame_end info (other_opcode o)) str_acc strs =
      ok (str_acc, strs)

  -- The loop, with `fuel` calls of the decoder to go; `none` when they are used up. With the result goes the
  -- data as the decoder has left it.
  unfoldable pub add_data_loop :
      (fuel processed_offset : ℕ)
      → (bytes : List ℕ) → WebsocketHandler D
      → (strs : List (List ℕ)) → Result (Option (WebsocketHandler D × List (List ℕ) × List ℕ))
  add_data_loop zero processed_offset bytes handler strs = ok none
  add_data_loop (suc fuel) processed_offset bytes handler strs = do
    unprocessed ←
        if ltb (length bytes) processed_offset
        then panic out_of_bounds
        else ok (drop processed_offset bytes)
    (consumed_bytes, event, frame_decoder, rewritten) ←
        or_panic unwrap_failed (decoder.add_data handler.frame_decoder unprocessed)
    let bytes' = take processed_offset bytes ++ rewritten
    let handler' : WebsocketHandler D = record handler { frame_decoder = frame_decoder }
    elim event [
      | none ↦ elim (consumed_bytes == 0) [
        | true ↦ ok (some (handler', strs, bytes'))
        | false ↦ add_data_loop fuel (processed_offset + consumed_bytes) bytes' handler' strs
      ]
      | some e ↦ (do
        (str_acc, strs') ← on_event consumed_bytes rewritten e handler.str_acc strs
        add_data_loop fuel (processed_offset + consumed_bytes) bytes'
            (record handler' { str_acc = str_acc }) strs')
    ]

  unfoldable pub add_data :
      (fuel : ℕ)
      → (bytes : List ℕ) → WebsocketHandler D
      → Result (Option (WebsocketHandler D × List (List ℕ) × List ℕ))
  unfolding add_data_loop
  add_data fuel bytes handler = add_data_loop fuel 0 bytes handler []
