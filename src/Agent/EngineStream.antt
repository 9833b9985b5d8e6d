-- ===== src/Agent/EngineStream.antt =====
-- How the agent reads an engine's answer, rust/services/cgn-agent/src/engine/openai_http.rs: the stream of
-- `generate`, from the bytes of the connection to the tokens for the router.
--
-- `Decoder` stands for UTF-8 and white space of the standard library, for the JSON parser, and for the
-- floating-point log probabilities. `delivers out` says whether a send succeeds after the tokens `out`,
-- which stand newest first. A text is its bytes. `id` is the same in every token and left out.
pub mod Framing
pub mod Chunks
use cognitora_inference.Prelude.{
  ℕ, suc, zero, Bool, true, false, ◌&&◌, ◌||◌, not, Option, none, some, List, [], ◌∷◌, ◌++◌, ◌==◌,
  leb, if◌then◌else◌, is_nonempty, length, take, drop,
}

-- `find_frame_end`: one past the first blank line, which ends with LF or with CRLF.
unfoldable pub find_frame_end : List ℕ → Option ℕ
find_frame_end [] = none
find_frame_end (a ∷ []) = none
find_frame_end (a ∷ b ∷ []) = if (a == b'\n') && (b == b'\n') then some 2 else none
find_frame_end (a ∷ b ∷ c ∷ buf) =
    if (a == b'\n') && (b == b'\n')
    then some 2
    else if (a == b'\n') && ((b == b'\r') && (c == b'\n'))
    then some 3
    else (elim (find_frame_end (b ∷ c ∷ buf)) [ none ↦ none | some i ↦ some (suc i) ])

-- `str::lines`: the text between line feeds, a carriage return at the end taken off.
unfoldable pub chomp : List ℕ → List ℕ
chomp [] = []
chomp (c ∷ []) = if c == b'\r' then [] else c ∷ []
chomp (c ∷ d ∷ cs) = c ∷ chomp (d ∷ cs)

unfoldable pub lines_from : List ℕ → List ℕ → List (List ℕ)
unfolding chomp
lines_from line [] = if is_nonempty line then line ∷ [] else []
lines_from line (c ∷ cs) =
    let rest = lines_from (line ++ (c ∷ [])) cs in
    let next = lines_from [] cs in if c == b'\n' then chomp line ∷ next else rest

unfoldable pub starts_with : List ℕ → List ℕ → Bool
starts_with [] s = true
starts_with (p ∷ ps) [] = false
starts_with (p ∷ ps) (c ∷ s) = (p == c) && starts_with ps s

abbrev pub data_field : List ℕ
data_field = b'd' ∷ b'a' ∷ b't' ∷ b'a' ∷ b':' ∷ []

abbrev pub done_mark : List ℕ
done_mark = b'[' ∷ b'D' ∷ b'O' ∷ b'N' ∷ b'E' ∷ b']' ∷ []

-- `trim_start_matches("data:")` takes off every copy; the length is fuel enough.
unfoldable pub strip_loop : ℕ → List ℕ → List ℕ
unfolding starts_with
strip_loop zero s = s
strip_loop (suc fuel) s =
    let rest = strip_loop fuel (drop 5 s) in if starts_with data_field s then rest else s

unfoldable pub equals : List ℕ → List ℕ → Bool
equals [] [] = true
equals [] (d ∷ ds) = false
equals (c ∷ cs) [] = false
equals (c ∷ cs) (d ∷ ds) = (c == d) && equals cs ds

pub record Delta : Type 0 where
  pub content : Option (List ℕ)
  -- The fragments of tool calls, as JSON text.
  pub tool_calls : Option (List ℕ)

-- What is read of a choice's `logprobs`: their mean if there is one, and the JSON text.
pub record Logprobs (F32 : Type 0) : Type 0 where
  pub mean : Option F32
  pub json : List ℕ

pub record Choice (F32 : Type 0) : Type 0 where
  pub text : Option (List ℕ)
  pub delta : Option Delta
  pub finish_reason : Option (List ℕ)
  pub logprobs : Option (Logprobs F32)

pub record StreamFrame (F32 : Type 0) : Type 0 where
  pub choices : List (Choice F32)
  pub usage : Option (ℕ × ℕ)

pub record Token (F32 : Type 0) : Type 0 where
  pub text : List ℕ
  pub logprob : F32
  pub logprobs_json : List ℕ
  pub finish : List ℕ
  pub tool_calls_json : List ℕ
  pub prompt_tokens : ℕ
  pub completion_tokens : ℕ

pub record Decoder : Type 1 where
  pub F32 : Type 0
  pub zero_f : F32
  pub from_utf8 : List ℕ → Option (List ℕ)
  pub trim : List ℕ → List ℕ
  pub parse : List ℕ → Option (StreamFrame F32)
  pub delivers : List (Token F32) → Bool
  pub forward_logprobs : Bool

-- How `generate` ends: well, or with an error of the connection or of an answer cut short.
pub data Verdict : Type 0 where
  finished broken cut_short : Verdict

abbrev pub or_empty : Option (List ℕ) → List ℕ
or_empty none = []
or_empty (some s) = s

module _ (decoder : Decoder) where
  open decoder use {F32, zero_f, from_utf8, trim, parse, delivers, forward_logprobs}

  pub record Reader : Type 0 where
    pub saw_finish : Bool
    pub usage : ℕ × ℕ
    pub out : List (Token F32)

  pub data Progress : Type 0 where
    going : Reader → Progress
    over : Reader → Verdict → Progress

  abbrev data_line : List (List ℕ) → Option (List ℕ)
  data_line [] = none
  data_line (line ∷ lines) =
      if starts_with data_field (trim line) then some (trim line) else data_line lines

  -- The payload of a frame, if it has a line for data.
  unfoldable pub payload_of : List ℕ → Option (List ℕ)
  unfolding lines_from starts_with strip_loop
  payload_of frame = elim (data_line (lines_from [] (or_empty (from_utf8 frame)))) [
    | none ↦ none
    | some line ↦ some (trim (strip_loop (length line) line))
  ]

  -- `terminal_token`.
  unfoldable pub terminal_token : Bool → ℕ × ℕ → Token F32
  terminal_token saw_finish usage = record {
    text = [];
    logprob = zero_f;
    logprobs_json = [];
    finish = if saw_finish then [] else b's' ∷ b't' ∷ b'o' ∷ b'p' ∷ [];
    tool_calls_json = [];
    prompt_tokens = usage.0;
    completion_tokens = usage.1;
  }

  abbrev content_of : Option Delta → Option (List ℕ)
  content_of none = none
  content_of (some d) = d.content

  abbrev tools_of : Option Delta → List ℕ
  tools_of none = []
  tools_of (some d) = or_empty d.tool_calls

  abbrev mean_of : Option (Logprobs F32) → F32
  mean_of none = zero_f
  mean_of (some l) = elim l.mean [ none ↦ zero_f | some m ↦ m ]

  abbrev json_of : Option (Logprobs F32) → List ℕ
  json_of none = []
  json_of (some l) = if forward_logprobs then l.json else []

  unfoldable pub text_of : Choice F32 → List ℕ
  text_of c = elim (content_of c.delta) [ some t ↦ t | none ↦ or_empty c.text ]

  unfoldable pub token_of : Choice F32 → Token F32
  unfolding text_of
  token_of c = record {
    text = text_of c;
    logprob = mean_of c.logprobs;
    logprobs_json = json_of c.logprobs;
    finish = or_empty c.finish_reason;
    tool_calls_json = tools_of c.delta;
    prompt_tokens = 0;
    completion_tokens = 0;
  }

  unfoldable pub says_nothing : Token F32 → Bool
  says_nothing t =
      not (is_nonempty t.text || (is_nonempty t.finish || is_nonempty t.tool_calls_json))

  -- The loop over the choices of a frame. A client that is gone ends the call well.
  unfoldable pub choices_loop : List (Choice F32) → Reader → Progress
  unfolding token_of says_nothing
  choices_loop [] r = going r
  choices_loop (c ∷ cs) r =
      let token = token_of c in
      let skipped = choices_loop cs r in
      let sent = record r {
        saw_finish = r.saw_finish || is_nonempty token.finish;
        out = token ∷ r.out;
      } in
      let next = choices_loop cs sent in
      if says_nothing token
      then skipped
      else if delivers r.out
      then next
      else over (record r { saw_finish = r.saw_finish || is_nonempty token.finish }) finished

  -- `let _ = tx.send(terminal_token(...))`.
  unfoldable pub send_terminal : Reader → Reader
  unfolding terminal_token
  send_terminal r =
      if delivers r.out then record r { out = terminal_token r.saw_finish r.usage ∷ r.out } else r

  -- The body of the loop for one frame.
  unfoldable pub frame_step : List ℕ → Reader → Progress
  unfolding payload_of choices_loop send_terminal equals
  frame_step frame r = elim (payload_of frame) [
    | none ↦ going r
    | some payload ↦
        if equals payload done_mark then over (send_terminal r) finished else elim (parse payload) [
          | none ↦ going r
          | some f ↦
              choices_loop f.choices
                (record r { usage = elim f.usage [ none ↦ r.usage | some u ↦ u ] })
        ]
  ]

  -- `while let Some(end) = find_frame_end(&buf)`; each round takes bytes off, so that their number is
  -- fuel enough.
  unfoldable pub drain : ℕ → List ℕ → Reader → Progress × List ℕ
  drain zero buf r = (going r, buf)
  drain (suc fuel) buf r = elim (find_frame_end buf) [
    | none ↦ (going r, buf)
    | some end ↦ elim (frame_step (take end buf) r) [
      | over r' v ↦ (over r' v, drop end buf)
      | going r' ↦ drain fuel (drop end buf) r'
    ]
  ]

  -- The end of the connection.
  unfoldable pub close : Reader → Reader × Verdict
  unfolding send_terminal
  close r = if not r.saw_finish then (r, cut_short) else (send_terminal r, finished)

  -- The loop over what the connection brings, `none` for an error.
  unfoldable pub read : List ℕ → Reader → List (Option (List ℕ)) → Reader × Verdict
  unfolding close
  read buf r [] = close r
  read buf r (none ∷ items) = (r, broken)
  read buf r (some bytes ∷ items) =
      let (progress, rest) = drain (length (buf ++ bytes)) (buf ++ bytes) r in
      elim progress [ over r' v ↦ (r', v) | going r' ↦ read rest r' items ]

  unfoldable pub generate : List (Option (List ℕ)) → Reader × Verdict
  generate items = read [] (record { saw_finish = false; usage = (0, 0); out = [] }) items
