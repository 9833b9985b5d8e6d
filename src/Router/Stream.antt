-- ===== src/Router/Stream.antt =====
-- Answers that are streamed: `pump` and `emit_generated` of
-- rust/services/cgn-router/src/gateway/generate.rs, over the encoder of sse.rs beside it.
--
-- A chunk is kept as its fields, `render` makes its text. `delivers sent` says whether a send succeeds
-- after the events `sent`, which stand in order. `charge` is the caller's, here a result.
pub mod Run
pub mod Answers
pub mod Frames
use cognitora_inference.Prelude.{
  ℕ, Bool, true, false, ◌||◌, ◌&&◌, not, Option, none, some, List, [], ◌∷◌, ◌++◌, if◌then◌else◌,
  is_nonempty,
}
use cognitora_inference.Router.Respond.{
  Json, Usage, Token, TokenFlow, items_of, Tally, no_tally, observe, usage, Generated,
}

pub data Surface : Type 0 where
  chat text_only : Surface

unfoldable pub is_chat : Surface → Bool
is_chat chat = true
is_chat text_only = false

pub record ResponseCtx : Type 0 where
  pub surface : Surface
  pub include_usage : Bool

module _ (json : Json) where
  open json use {Value, value}

  -- The fields of a chunk that `chunk` fills, and the chunk of `usage_chunk`.
  pub data Chunk : Type 0 where
    chunk : Bool → Option (List ℕ) → Option Value → Option (List ℕ) → Option Value → Chunk
    usage_chunk : Usage → Chunk
    error_body : Chunk

  pub data SseEvent : Type 0 where
    payload fail : Chunk → SseEvent

  -- Text completions have no role, no tool calls and no absent text.
  unfoldable pub make_chunk :
      Surface → Bool → Option (List ℕ) → Option Value → Option (List ℕ) → Option Value → Chunk
  make_chunk chat role text tools finish logprobs = chunk role text tools finish logprobs
  make_chunk text_only role none tools finish logprobs = chunk false (some []) none finish logprobs
  make_chunk text_only role (some t) tools finish logprobs =
      chunk false (some t) none finish logprobs

  abbrev pub if_any : List ℕ → Option (List ℕ)
  if_any s = if is_nonempty s then some s else none

  unfoldable pub chunk_of : ResponseCtx → Token json → Chunk
  unfolding make_chunk
  chunk_of ctx t =
      make_chunk ctx.surface false (if_any t.text) (value t.tool_calls_json) (if_any t.finish)
        (value t.logprobs_json)

  unfoldable pub has_payload : Token json → Bool
  has_payload t = is_nonempty t.text || (is_nonempty t.tool_calls_json || is_nonempty t.finish)

  module _ (delivers : List SseEvent → Bool) where
    -- A send whose failure is ignored.
    unfoldable pub try_send : List SseEvent → SseEvent → List SseEvent
    try_send sent e = if delivers sent then sent ++ (e ∷ []) else sent

    -- The loop of `pump`: what was sent, the tally, and whether the stream held.
    unfoldable pub pump_loop :
        ResponseCtx
        → List (Option (Token json))
        → List SseEvent
        → Tally json
        → List SseEvent × Tally json × Bool
    unfolding try_send chunk_of has_payload
    pump_loop ctx [] sent tally = (sent, tally, true)
    pump_loop ctx (none ∷ items) sent tally = (try_send sent (fail error_body), tally, false)
    pump_loop ctx (some t ∷ items) sent tally =
        let tally' = observe json tally t in
        let skipped = pump_loop ctx items sent tally' in
        let next = pump_loop ctx items (sent ++ (payload (chunk_of ctx t) ∷ [])) tally' in
        if not (has_payload t)
        then skipped
        else if delivers sent
        then next
        else (sent, tally', true)

    -- Usage, if it is asked for, and what the caller is charged; `none` if the client is gone before the
    -- first chunk.
    unfoldable pub pump : ResponseCtx → TokenFlow json → List SseEvent × Option Usage × Bool
    unfolding pump_loop
    pump ctx flow =
        let role = payload (make_chunk ctx.surface true none none none none) in
        let start = if is_chat ctx.surface then role ∷ [] else [] in
        let (sent, tally, held) = pump_loop ctx (items_of json flow) start (no_tally json) in
        let charged = usage json tally flow.prompt_estimate in
        let sent' =
          if held && ctx.include_usage
          then try_send sent (payload (usage_chunk charged))
          else sent in
        if is_chat ctx.surface && not (delivers [])
        then ([], none, true)
        else (sent', some charged, held)

    -- An accepted early step of a cascade.
    unfoldable pub emit_generated : ResponseCtx → Generated json → List SseEvent × Usage
    unfolding try_send
    emit_generated ctx g =
        let role = payload (make_chunk ctx.surface true none none none none) in
        let sent = if is_chat ctx.surface then try_send [] role else [] in
        let body =
          try_send sent (payload (make_chunk ctx.surface false (some g.text) none none none)) in
        let end =
          try_send body (payload (make_chunk ctx.surface false none none (some g.finish) none)) in
        (
          if ctx.include_usage then try_send end (payload (usage_chunk g.usage_of)) else end,
          g.usage_of,
        )

  -- What the encoder writes: a frame with a chunk, or the mark of success.
  pub data Frame : Type 0 where
    frame : Chunk → Frame
    done : Frame

  -- `encode`: the first failure ends the stream without the mark.
  unfoldable pub encode : List SseEvent → List Frame
  encode [] = done ∷ []
  encode (payload c ∷ events) = frame c ∷ encode events
  encode (fail c ∷ events) = frame c ∷ []

  -- The text of a frame.
  unfoldable pub bytes_of : (Chunk → List ℕ) → Frame → List ℕ
  bytes_of render (frame c) =
      b'd' ∷ b'a' ∷ b't' ∷ b'a' ∷ b':' ∷ b' ' ∷ (render c ++ (b'\n' ∷ b'\n' ∷ []))
  bytes_of render done =
      b'd' ∷ b'a' ∷ b't' ∷ b'a' ∷ b':' ∷ b' ' ∷ b'[' ∷ b'D' ∷ b'O' ∷ b'N' ∷ b'E' ∷ b']' ∷ b'\n'
      ∷ b'\n' ∷ []
