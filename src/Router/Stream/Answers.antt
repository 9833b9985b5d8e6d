-- ===== src/Router/Stream/Answers.antt =====
-- Streamed and buffered answers of rust/services/cgn-router/src/gateway/generate.rs agree.
use cognitora_inference.Prelude.{
  ℕ, ◌≡◌, refl, sym, ap, ◌∙◌, Bool, true, false, ◌&&◌, not, Option, none, some, List, [], ◌∷◌, ◌++◌,
  if◌then◌else◌, is_nonempty, map, arith,
}
use mathlib.Core.List.{append-nil}
use cognitora_inference.Router.Respond.{
  Json, Usage, Token, TokenFlow, items_of, Tally, no_tally, usage, Collected, collect_loop,
  nothing_yet, Generated, collect, stop, finish_calls, mean_logprob,
}
use cognitora_inference.Router.Stream.{
  ResponseCtx, usage_chunk, error_body, SseEvent, payload, fail, try_send, pump_loop, pump, encode,
}
use cognitora_inference.Router.Stream.Frames.{has_done, has_fail, encode-has_done, has_fail-append}
use cognitora_inference.Router.Stream.Run.{
  texts, last_finish, start, start-Same, pump_loop-Same, texts-append, last_finish-append, always,
  or_true,
}

module _ (json : Json) where
  -- The chunk with usage, at the end of a stream that held.
  abbrev finale : ResponseCtx → Bool → Usage → List (SseEvent json) → List (SseEvent json)
  finale ctx held u sent =
      if held && ctx.include_usage then sent ++ (payload (usage_chunk u) ∷ []) else sent

  finale-last :
      (ctx : ResponseCtx) (held : Bool) (u : Usage) (sent : List (SseEvent json))
      → (texts json (finale ctx held u sent) ≡ texts json sent)
        × (last_finish json stop (finale ctx held u sent) ≡ last_finish json stop sent)
        × (has_fail json (finale ctx held u sent) ≡ has_fail json sent)
  finale-last ctx held u sent =
      let e : List (SseEvent json) = payload (usage_chunk u) ∷ [] in
      (
        ground (arith, texts-append json sent e, append-nil (texts json sent)),
        ground (arith, last_finish-append json stop sent e),
        ground (arith, has_fail-append json sent e),
      )

  pump-runs :
      (ctx : ResponseCtx) (flow : TokenFlow json) (sent : List (SseEvent json)) (tally : Tally json)
      (held : Bool)
      → pump_loop json (always json) ctx (items_of json flow) (start json ctx) (no_tally json)
        ≡ (sent, tally, held)
      → pump json (always json) ctx flow ≡ (
        finale ctx held (usage json tally flow.prompt_estimate) sent,
        some (usage json tally flow.prompt_estimate),
        held,
      )
  unfolding pump try_send
  pump-runs ctx flow sent tally held h = ground (arith, h)

  abbrev generated : Collected json → ℕ → Generated json
  generated c estimate = record {
    text = c.text;
    finish = c.finish;
    tool_calls = finish_calls c.tools;
    logprobs = if is_nonempty c.logprobs then some c.logprobs else none;
    usage_of = usage json c.tally estimate;
    mean = mean_logprob json c.tally;
  }

  collect-runs :
      (flow : TokenFlow json) (c : Collected json)
      → collect_loop json (items_of json flow) (nothing_yet json) ≡ some c
      → collect json flow ≡ some (generated c flow.prompt_estimate)
  unfolding collect
  collect-runs flow c h = rw (h, collect) refl

  collect-none :
      (flow : TokenFlow json)
      → collect_loop json (items_of json flow) (nothing_yet json) ≡ none
      → collect json flow ≡ none
  unfolding collect
  collect-none flow h = rw (h, collect) refl

  -- To a client that takes every event, a flow that holds to its end is streamed as it would be
  -- buffered: the texts of the chunks put together are the buffered text, the last reason to finish is
  -- the buffered one, the caller is charged the same usage, and the stream ends with the mark of success.
  pub pump-collect :
      (ctx : ResponseCtx) (flow : TokenFlow json) (ts : List (Token json))
      → items_of json flow ≡ map some ts
      → (g : Generated json) × (sent : List (SseEvent json)) × (collect json flow ≡ some g)
        × (pump json (always json) ctx flow ≡ (sent, some g.usage_of, true))
        × (texts json sent ≡ g.text)
        × (last_finish json stop sent ≡ g.finish)
        × (has_done json (encode json sent) ≡ true)
  unfolding pump_loop collect_loop
  pump-collect ctx flow ts h =
      let (m, clean) = start-Same json ctx in
      let (sent, c, p, q, m', f) =
        pump_loop-Same json ctx ts [] (start json ctx) (no_tally json) (nothing_yet json) m in
      let all : items_of json flow ≡ map some ts ++ [] = h ∙ sym (append-nil (map some ts)) in
      let ran : pump_loop json (always json) ctx (items_of json flow) (start json ctx)
            (no_tally json)
          ≡ (sent, c.tally, true) =
        ap
          (λ (items : List (Option (Token json))).
            pump_loop json (always json) ctx items (start json ctx) (no_tally json))
          all
        ∙ p in
      let u = usage json c.tally flow.prompt_estimate in
      let (texts_same, finish_same, fail_same) = finale-last ctx true u sent in
      (
        generated c flow.prompt_estimate,
        finale ctx true u sent,
        collect-runs flow c (
            ap (λ (items : List (Option (Token json))). collect_loop json items (nothing_yet json))
              all
            ∙ q),
        pump-runs ctx flow sent c.tally true ran,
        texts_same ∙ m'.text,
        finish_same ∙ m'.finish,
        encode-has_done json (finale ctx true u sent) ∙ ap not (fail_same ∙ f ∙ clean),
      )

  -- A flow that breaks gives no buffered answer. Streamed to a client that takes every event it is
  -- charged all the same, and the stream does not end with the mark of success.
  pub pump-broken :
      (ctx : ResponseCtx) (flow : TokenFlow json) (ts : List (Token json))
      (rest : List (Option (Token json)))
      → items_of json flow ≡ map some ts ++ (none ∷ rest)
      → (u : Usage) × (sent : List (SseEvent json)) × (collect json flow ≡ none)
        × (pump json (always json) ctx flow ≡ (sent, some u, false))
        × (has_done json (encode json sent) ≡ false)
  unfolding pump_loop collect_loop try_send
  pump-broken ctx flow ts rest h =
      let (m, clean) = start-Same json ctx in
      let (sent, c, p, q, m', f) =
        pump_loop-Same json ctx ts (none ∷ rest) (start json ctx) (no_tally json) (nothing_yet json)
          m in
      let broken : List (SseEvent json) = sent ++ (fail error_body ∷ []) in
      let ran : pump_loop json (always json) ctx (items_of json flow) (start json ctx)
            (no_tally json)
          ≡ (broken, c.tally, false) =
        ap
          (λ (items : List (Option (Token json))).
            pump_loop json (always json) ctx items (start json ctx) (no_tally json))
          h
        ∙ p in
      let failed : has_fail json broken ≡ true =
        has_fail-append json sent (fail error_body ∷ []) ∙ or_true (has_fail json sent) in
      (
        usage json c.tally flow.prompt_estimate,
        broken,
        collect-none flow (
            ap (λ (items : List (Option (Token json))). collect_loop json items (nothing_yet json))
              h
            ∙ q),
        pump-runs ctx flow broken c.tally false ran,
        encode-has_done json broken ∙ ap not failed,
      )
