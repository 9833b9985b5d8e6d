-- ===== src/Infer/Cli/Ranges.antt =====
-- Ranges of layers in text, rust/services/cgn-infer/src/model/llama.rs.
use cognitora_inference.Prelude.{
  ℕ, ◌≡◌, ◌<◌, ◌^◌, refl, true, false, some, [], ◌∷◌, ◌++◌, ◌==◌, any, arith, ap, ◌∙◌, is_nonempty,
}
use cognitora_inference.Infer.Llama.{ok, LayerRange, new}
use cognitora_inference.Infer.Cli.{Text, Words, split_once, number, range_of, parse, display}

split_once-append :
    (mark : ℕ) (a b : Text)
    → any (λ c. c == mark) a ≡ false
    → split_once mark (a ++ (mark ∷ b)) ≡ some (a, b)
unfolding split_once
split_once-append mark [] b h = ground arith
split_once-append mark (c ∷ a) b h = ground (arith, h, split_once-append mark a b)

pub new_lt : (a b : ℕ) → a < b → new a b ≡ ok (record { start = a; end = b })
unfolding new
new_lt a b lt = ground (arith, lt)

module _ (words : Words) where
  open words use {trim, parse_usize, to_string}

  -- A number of 64 bits is read as it was written, and no number has a colon in it.
  pub record IsDecimal : Type 0 where
    pub read_plain : (n : ℕ) → n < 2 ^ 64 → parse_usize (to_string n) ≡ some n
    pub read_back : (n : ℕ) → n < 2 ^ 64 → parse_usize (trim (to_string n)) ≡ some n
    pub no_colon : (n : ℕ) → any (λ c. c == b':') (to_string n) ≡ false

  is_nonempty-append : (a b : Text) (c : ℕ) → is_nonempty (a ++ (c ∷ b)) ≡ true
  is_nonempty-append [] b c = refl
  is_nonempty-append (d ∷ a) b c = refl

  pub is_nonempty-display : (r : LayerRange) → is_nonempty (display words r) ≡ true
  unfolding display
  is_nonempty-display r = is_nonempty-append (to_string r.start) (to_string r.end) b':'

  number-to_string : (n : ℕ) → IsDecimal → n < 2 ^ 64 → number words (to_string n) ≡ ok n
  unfolding number
  number-to_string n decimal small = rw (decimal.read_back n small, number) refl

  -- Where numbers are read as they are written, a range with a layer is read as it is displayed.
  pub parse-display :
      (r : LayerRange)
      → IsDecimal
      → r.start < r.end
      → r.end < 2 ^ 64
      → parse words (display words r) ≡ ok r
  unfolding parse display range_of
  parse-display r decimal lt small =
      ap (range_of words)
        (split_once-append b':' (to_string r.start) (to_string r.end) (decimal.no_colon r.start))
      ∙ rw (number-to_string r.start decimal (omega (arith, lt, small)))
          (rw (number-to_string r.end decimal small) (new_lt r.start r.end lt))
