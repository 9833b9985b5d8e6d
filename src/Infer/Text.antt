-- ===== src/Infer/Text.antt =====
-- Text helpers of rust/services/cgn-infer/src/scheduler/mod.rs over the UTF-8 bytes of a string:
-- `held_back_len`, and the `str` methods that the scheduler calls.
pub mod Laws
use cognitora_inference.Prelude.{
  ℕ, suc, zero, ◌+◌, ◌≡◌, Bool, true, false, ◌&&◌, ◌||◌, not, Option, none, some, List, [], ◌∷◌,
  ltb, leb, ◌==◌, if◌then◌else◌, length, min, drop,
}

-- `text.starts_with(prefix)`.
unfoldable pub starts_with : List ℕ → List ℕ → Bool
starts_with text [] = true
starts_with [] (p ∷ ps) = false
starts_with (c ∷ cs) (p ∷ ps) = c == p && starts_with cs ps

-- A byte at which `char_indices` yields a position: no UTF-8 continuation byte.
unfoldable pub is_char_start : ℕ → Bool
is_char_start b = ltb b 128 || leb 192 b

-- `text.get(from..).unwrap_or("")`: no text off the characters' boundaries.
abbrev pub text_from : ℕ → List ℕ → List ℕ
text_from n text = elim (drop n text) [ [] ↦ [] | b ∷ bs ↦ if is_char_start b then b ∷ bs else [] ]

-- `text.find(pattern)`; `start` is the byte offset of the rest of the text.
unfoldable pub find_from : List ℕ → ℕ → List ℕ → Option ℕ
unfolding starts_with
find_from pattern start [] = if starts_with [] pattern then some start else none
find_from pattern start (c ∷ cs) =
    let later = find_from pattern (suc start) cs in
    if starts_with (c ∷ cs) pattern then some start else later

-- The least of two optional offsets.
unfoldable pub least : Option ℕ → Option ℕ → Option ℕ
least none b = b
least (some a) none = some a
least (some a) (some b) = some (min a b)

-- `stop.iter().filter_map(|s| text.find(s)).min()`.
unfoldable pub first_stop : List (List ℕ) → List ℕ → Option ℕ
unfolding find_from least
first_stop [] text = none
first_stop (s ∷ stops) text = least (find_from s 0 text) (first_stop stops text)

-- `text.ends_with('\u{FFFD}')`: the bytes EF BF BD.
unfoldable pub ends_with_fffd : List ℕ → Bool
ends_with_fffd [] = false
ends_with_fffd (a ∷ []) = false
ends_with_fffd (a ∷ b ∷ []) = false
ends_with_fffd (a ∷ b ∷ c ∷ []) = a == 239 && b == 191 && c == 189
ends_with_fffd (a ∷ b ∷ c ∷ d ∷ rest) = ends_with_fffd (b ∷ c ∷ d ∷ rest)

-- The inner loop of `held_back_len`: one stop string against every tail of the text.
unfoldable pub hold_for : List ℕ → ℕ → List ℕ → ℕ → ℕ
unfolding starts_with is_char_start
hold_for stop start [] safe = safe
hold_for stop start (c ∷ cs) safe =
    hold_for stop (suc start) cs
      (if is_char_start c && (starts_with stop (c ∷ cs) && ltb start safe) then start else safe)

unfoldable pub hold_all : List ℕ → List (List ℕ) → ℕ → ℕ
unfolding hold_for
hold_all text [] safe = safe
hold_all text (stop ∷ stops) safe = hold_all text stops (hold_for stop 0 text safe)

unfoldable pub held_back_len : List ℕ → List (List ℕ) → ℕ
unfolding hold_all
held_back_len text stops = hold_all text stops (length text)
