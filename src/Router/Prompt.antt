-- ===== src/Router/Prompt.antt =====
-- The text of a request and its approximate tokens, rust/services/cgn-router/src/routing/prompt.rs.
--
-- A text is the list of its code points. `Text` stands for what the source takes from elsewhere: white
-- space by the standard library, BLAKE3 of a piece's UTF-8 bytes (the first four bytes as a number, and
-- the digest in hexadecimal), and the JSON parser.
pub mod Stable
pub mod Reuse
use cognitora_inference.Prelude.{
  ℕ, suc, zero, ◌+◌, Bool, true, false, ◌&&◌, ◌||◌, not, Option, none, some, List, [], ◌∷◌, ◌++◌,
  leb, ◌==◌, if◌then◌else◌, is_nonempty,
}

-- A part of a multimodal message: a text, an image with its address, or neither.
pub data Part : Type 0 where
  text image : List ℕ → Part
  neither : Part

pub record Text : Type 0 where
  pub is_whitespace : ℕ → Bool
  pub piece_id : List ℕ → ℕ
  pub hex_digest : List ℕ → List ℕ
  -- The parts of `content_json`; `none` if it is no JSON or no array.
  pub parts : List ℕ → Option (List Part)

pub record Message : Type 0 where
  pub role : List ℕ
  pub content : List ℕ
  pub content_json : List ℕ

abbrev pub chars_per_token : ℕ
chars_per_token = 4

abbrev between : ℕ → ℕ → ℕ → Bool
between lo hi c = leb lo c && leb c hi

unfoldable pub is_cjk : ℕ → Bool
is_cjk c =
    between 0x3040 0x30ff c
    || between 0x3400 0x4dbf c
    || between 0x4e00 0x9fff c
    || between 0xac00 0xd7af c
    || between 0xf900 0xfaff c
    || between 0x20000 0x2ffff c

module _ (text : Text) where
  open text use {is_whitespace, piece_id, hex_digest, parts}

  -- The variables `piece` and `chars`, and the tokens that one character adds to `out`.
  abbrev pub Scan : Type 0
  Scan = List ℕ × List ℕ × ℕ

  -- The first `if` of the loop's body.
  unfoldable pub flush : Bool → List ℕ → ℕ → Scan
  flush cut piece chars =
      if cut && is_nonempty piece then (piece_id piece ∷ [], [], 0) else ([], piece, chars)

  -- The rest of the body, for a character that is not white space.
  unfoldable pub take_in : ℕ → Scan → Scan
  unfolding is_cjk
  take_in c (out, piece, chars) =
      let piece' = piece ++ (c ∷ []) in
      if is_cjk c then (out ++ (piece_id piece' ∷ []), [], 0) else (out, piece', chars + 1)

  unfoldable pub scan : ℕ → List ℕ → ℕ → Scan
  unfolding flush take_in is_cjk
  scan c piece chars =
      let flushed = flush (is_whitespace c || is_cjk c || (chars == chars_per_token)) piece chars in
      if is_whitespace c then flushed else take_in c flushed

  unfoldable pub last_piece : List ℕ → List ℕ
  last_piece piece = if is_nonempty piece then piece_id piece ∷ [] else []

  unfoldable pub token_loop : List ℕ → List ℕ → ℕ → List ℕ
  unfolding last_piece
  token_loop [] piece chars = last_piece piece
  token_loop (c ∷ s) piece chars =
      let (out, piece', chars') = scan c piece chars in out ++ token_loop s piece' chars'

  unfoldable pub approximate_token_ids : List ℕ → List ℕ
  unfolding token_loop
  approximate_token_ids s = token_loop s [] 0

  unfoldable pub join_parts : List Part → List ℕ
  join_parts [] = []
  join_parts (Part.text t ∷ ps) = t ++ (b'\n' ∷ join_parts ps)
  join_parts (image url ∷ ps) =
      b'<' ∷ b'i' ∷ b'm' ∷ b'a' ∷ b'g' ∷ b'e' ∷ b':' ∷ hex_digest url
      ++ (b'>' ∷ b'\n' ∷ join_parts ps)
  join_parts (neither ∷ ps) = join_parts ps

  unfoldable pub body : Message → List ℕ
  unfolding join_parts
  body m =
      if is_nonempty m.content_json
      then (elim (parts m.content_json) [ none ↦ [] | some ps ↦ join_parts ps ])
      else m.content

  unfoldable pub join_messages : List Message → List ℕ
  unfolding body
  join_messages [] = []
  join_messages (m ∷ ms) =
      b'<' ∷ (m.role ++ (b'>' ∷ b'\n' ∷ (body m ++ (b'\n' ∷ join_messages ms))))

  unfoldable pub request_text : List ℕ → List Message → List ℕ
  unfolding join_messages
  request_text prompt msgs = if is_nonempty prompt then prompt else join_messages msgs
