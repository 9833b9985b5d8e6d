-- ===== src/Tests/Streams.antt =====
-- Streams of tokens, and a round of gossip, at concrete inputs.
use cognitora_inference.Prelude.{
  ℕ, ◌+◌, ◌≡◌, refl, true, false, Option, none, some, List, [], ◌∷◌, ◌++◌, map, ◌==◌,
}
use cognitora_inference.Agent.EngineStream.{Decoder, generate}
use cognitora_inference.Agent.EngineStream.Chunks.{concat, generate-chunks}
use cognitora_inference.Router.Respond.{
  Json, Usage, Fragment, TokenFlow, items_of, Generated, collect, push, stop,
}
use cognitora_inference.Router.Respond
use cognitora_inference.Router.Stream.{ResponseCtx, chat, SseEvent, pump, encode}
use cognitora_inference.Router.Stream.Frames.{has_done}
use cognitora_inference.Router.Stream.Run.{texts, last_finish}
use cognitora_inference.Router.Stream.Answers.{pump-collect, pump-broken}

-- An engine whose JSON is the text itself.
abbrev decoder : Decoder
decoder = record {
  F32 = ℕ;
  zero_f = 0;
  from_utf8 = λ s. some s;
  trim = λ s. s;
  parse = λ s. some (record {
    choices = record { text = some s; delta = none; finish_reason = none; logprobs = none } ∷ [];
    usage = none;
  });
  delivers = λ out. true;
  forward_logprobs = false;
}

-- A frame cut inside its field, and the mark of the end.
abbrev pieces : List (List ℕ)
pieces = (b'd' ∷ b'a' ∷ []) ∷ (b't' ∷ b'a' ∷ b':' ∷ b'h' ∷ b'i' ∷ b'\n' ∷ []) ∷ (b'\n' ∷ []) ∷ []

generate-chunks_example :
    generate decoder (map some pieces ++ (none ∷ []))
    ≡ generate decoder (some (concat pieces) ∷ none ∷ [])
generate-chunks_example = generate-chunks decoder pieces (none ∷ [])

abbrev json : Json
json = record {
  Value = List ℕ;
  Float = ℕ;
  zero_f = 0;
  is_zero = λ v. v == 0;
  plus = λ a b. a + b;
  over = λ a n. a;
  value = λ s. none;
  fragments = λ s. none;
  contents = λ s. none;
}

abbrev word : List ℕ → List ℕ → ℕ → Respond.Token json
word text finish tokens = record {
  text = text;
  logprob = 0;
  logprobs_json = [];
  finish = finish;
  tool_calls_json = [];
  prompt_tokens = 5;
  completion_tokens = tokens;
}

abbrev answer : List (Respond.Token json)
answer = word (b'h' ∷ []) [] 1 ∷ word (b'i' ∷ []) stop 2 ∷ word [] [] 2 ∷ []

abbrev flow : TokenFlow json
flow = record {
  first = some (word (b'h' ∷ []) [] 1);
  rest = some (word (b'i' ∷ []) stop 2) ∷ some (word [] [] 2) ∷ [];
  prompt_estimate = 4;
}

abbrev cut_flow : TokenFlow json
cut_flow = record flow { rest = none ∷ [] }

abbrev ctx : ResponseCtx
ctx = record { surface = chat; include_usage = true }

pump-collect_example :
    (g : Generated json) × (sent : List (SseEvent json)) × (collect json flow ≡ some g)
    × (pump json (λ sent. true) ctx flow ≡ (sent, some g.usage_of, true))
    × (texts json sent ≡ g.text)
    × (last_finish json stop sent ≡ g.finish)
    × (has_done json (encode json sent) ≡ true)
unfolding items_of
pump-collect_example = pump-collect json ctx flow answer refl

pump-broken_example :
    (u : Usage) × (sent : List (SseEvent json)) × (collect json cut_flow ≡ none)
    × (pump json (λ sent. true) ctx cut_flow ≡ (sent, some u, false))
    × (has_done json (encode json sent) ≡ false)
unfolding items_of
pump-broken_example = pump-broken json ctx cut_flow (word (b'h' ∷ []) [] 1 ∷ []) [] refl

abbrev piece : Option ℕ → List ℕ → Fragment
piece index args = record {
  index = index;
  id = none;
  kind = none;
  name = none;
  arguments = some args;
}

abbrev fragments : List Fragment
fragments = piece (some 1) (b'a' ∷ []) ∷ piece none (b'b' ∷ []) ∷ piece (some 1) (b'c' ∷ []) ∷ []
