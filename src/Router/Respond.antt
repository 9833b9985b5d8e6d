-- ===== src/Router/Respond.antt =====
-- How the gateway answers with the tokens of a flow, rust/services/cgn-router/src/gateway/generate.rs
-- (`Tally`, `collect`, `ToolCallAggregator`).
--
-- `Json` stands for the JSON parser and for floating-point numbers.
pub mod Tools
use cognitora_inference.Prelude.{
  ℕ, suc, zero, ◌+◌, ◌%◌, ◌^◌, max, Bool, true, false, ◌||◌, not, Option, none, some, List, [], ◌∷◌,
  ◌++◌, if◌then◌else◌, is_nonempty, length, ltb, map,
}
use cognitora_inference.Prelude.Maps.{get}

pub record Fragment : Type 0 where
  pub index : Option ℕ
  pub id : Option (List ℕ)
  pub kind : Option (List ℕ)
  -- `function.name` and `function.arguments`.
  pub name : Option (List ℕ)
  pub arguments : Option (List ℕ)

pub record Json : Type 1 where
  pub Value : Type 0
  pub Float : Type 0
  pub zero_f : Float
  pub is_zero : Float → Bool
  pub plus : Float → Float → Float
  pub over : Float → ℕ → Float
  pub value : List ℕ → Option Value
  -- The entries of a text that is an array.
  pub fragments : List ℕ → Option (List Fragment)
  -- The items under `content` of a text that is an object.
  pub contents : List ℕ → Option (List Value)

pub record Usage : Type 0 where
  pub prompt_tokens : ℕ
  pub completion_tokens : ℕ
  pub total_tokens : ℕ

pub record Call : Type 0 where
  pub id : List ℕ
  pub kind : List ℕ
  pub name : List ℕ
  pub arguments : List ℕ

abbrev pub function_kind : List ℕ
function_kind = b'f' ∷ b'u' ∷ b'n' ∷ b'c' ∷ b't' ∷ b'i' ∷ b'o' ∷ b'n' ∷ []

abbrev pub blank : Call
blank = record { id = []; kind = function_kind; name = []; arguments = [] }

abbrev pub or : {A : Type 0} → Option A → A → A
or none a = a
or (some b) a = b

-- `calls`, a `BTreeMap`: by rising index.
unfoldable pub merge : Call → Fragment → Call
merge c e = record {
  id = or e.id c.id;
  kind = or e.kind c.kind;
  name = or e.name c.name;
  arguments = elim e.arguments [ none ↦ c.arguments | some args ↦ c.arguments ++ args ];
}

unfoldable pub push_one : List (ℕ × Call) → Fragment → List (ℕ × Call)
unfolding merge
push_one [] e = (or e.index 0, merge blank e) ∷ []
push_one ((i, c) ∷ calls) e =
    let rest = push_one calls e in
    if ltb (or e.index 0) i
    then (or e.index 0, merge blank e) ∷ (i, c) ∷ calls
    else if ltb i (or e.index 0)
    then (i, c) ∷ rest
    else (i, merge c e) ∷ calls

unfoldable pub push : List (ℕ × Call) → List Fragment → List (ℕ × Call)
unfolding push_one
push calls [] = calls
push calls (e ∷ es) = push (push_one calls e) es

unfoldable pub finish_calls : List (ℕ × Call) → Option (List Call)
finish_calls [] = none
finish_calls ((i, c) ∷ calls) = some (c ∷ map (λ ic. ic.1) calls)

abbrev pub stop : List ℕ
stop = b's' ∷ b't' ∷ b'o' ∷ b'p' ∷ []

module _ (json : Json) where
  open json use {Value, Float, zero_f, is_zero, plus, over, value, fragments, contents}

  pub record Token : Type 0 where
    pub text : List ℕ
    pub logprob : Float
    pub logprobs_json : List ℕ
    pub finish : List ℕ
    pub tool_calls_json : List ℕ
    pub prompt_tokens : ℕ
    pub completion_tokens : ℕ

  -- `none` is an error of the stream.
  pub record TokenFlow : Type 0 where
    pub first : Option Token
    pub rest : List (Option Token)
    pub prompt_estimate : ℕ

  -- What `next` brings, call by call.
  unfoldable pub items_of : TokenFlow → List (Option Token)
  items_of flow = elim flow.first [ none ↦ flow.rest | some t ↦ some t ∷ flow.rest ]

  pub record Tally : Type 0 where
    pub chunks : ℕ
    pub logprob_sum : Float
    pub logprob_n : ℕ
    pub prompt_tokens : ℕ
    pub completion_tokens : ℕ

  abbrev pub no_tally : Tally
  no_tally = record {
    chunks = 0;
    logprob_sum = zero_f;
    logprob_n = 0;
    prompt_tokens = 0;
    completion_tokens = 0;
  }

  unfoldable pub observe : Tally → Token → Tally
  observe tally t = record {
    chunks =
        if is_nonempty t.text || is_nonempty t.tool_calls_json
        then tally.chunks + 1
        else tally.chunks;
    logprob_sum =
        if not (is_zero t.logprob) then plus tally.logprob_sum t.logprob else tally.logprob_sum;
    logprob_n = if not (is_zero t.logprob) then tally.logprob_n + 1 else tally.logprob_n;
    prompt_tokens = max tally.prompt_tokens t.prompt_tokens;
    completion_tokens = max tally.completion_tokens t.completion_tokens;
  }

  unfoldable pub usage : Tally → ℕ → Usage
  usage tally prompt_estimate =
      let prompt : ℕ = if ltb 0 tally.prompt_tokens then tally.prompt_tokens else prompt_estimate in
      let completion : ℕ =
        if ltb 0 tally.completion_tokens then tally.completion_tokens else tally.chunks in
      record {
        prompt_tokens = prompt;
        completion_tokens = completion;
        total_tokens = (prompt + completion) % 2 ^ 32;
      }

  unfoldable pub mean_logprob : Tally → Option Float
  mean_logprob tally =
      if ltb 0 tally.logprob_n then some (over tally.logprob_sum tally.logprob_n) else none

  pub record Generated : Type 0 where
    pub text : List ℕ
    pub finish : List ℕ
    pub tool_calls : Option (List Call)
    pub logprobs : Option (List Value)
    pub usage_of : Usage
    pub mean : Option Float

  -- The variables of the loop of `collect`.
  pub record Collected : Type 0 where
    pub text : List ℕ
    pub finish : List ℕ
    pub tally : Tally
    pub tools : List (ℕ × Call)
    pub logprobs : List Value

  unfoldable pub gather : Collected → Token → Collected
  unfolding observe push
  gather c t = record {
    text = c.text ++ t.text;
    finish = if is_nonempty t.finish then t.finish else c.finish;
    tally = observe c.tally t;
    tools =
        if is_nonempty t.tool_calls_json
        then (elim (fragments t.tool_calls_json) [ none ↦ c.tools | some es ↦ push c.tools es ])
        else c.tools;
    logprobs =
        if is_nonempty t.logprobs_json
        then c.logprobs ++ or (contents t.logprobs_json) []
        else c.logprobs;
  }

  unfoldable pub collect_loop : List (Option Token) → Collected → Option Collected
  unfolding gather
  collect_loop [] c = some c
  collect_loop (none ∷ items) c = none
  collect_loop (some t ∷ items) c = collect_loop items (gather c t)

  abbrev pub nothing_yet : Collected
  nothing_yet = record { text = []; finish = stop; tally = no_tally; tools = []; logprobs = [] }

  -- `none` is an error of the stream.
  unfoldable pub collect : TokenFlow → Option Generated
  unfolding collect_loop usage mean_logprob finish_calls items_of
  collect flow = elim (collect_loop (items_of flow) nothing_yet) [
    | none ↦ none
    | some c ↦ some (record {
      text = c.text;
      finish = c.finish;
      tool_calls = finish_calls c.tools;
      logprobs = if is_nonempty c.logprobs then some c.logprobs else none;
      usage_of = usage c.tally flow.prompt_estimate;
      mean = mean_logprob c.tally;
    })
  ]
