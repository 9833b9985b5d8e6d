-- ===== src/Router/Stream/Run.antt =====
-- The loop of `pump` in rust/services/cgn-router/src/gateway/generate.rs: what it has sent goes with what
-- `collect` has gathered.
use cognitora_inference.Prelude.{
  ℕ, ◌≡◌, refl, sym, ap, ◌∙◌, Bool, true, false, ◌||◌, Option, none, some, List, [], ◌∷◌, ◌++◌,
  if◌then◌else◌, is_nonempty, map, arith, Bool-cases, inl, inr, ◌⊎◌,
}
use mathlib.Core.List.{append_assoc, append-nil}
use cognitora_inference.Router.Respond.{
  Json, Token, Tally, no_tally, observe, Collected, gather, collect_loop, nothing_yet, stop,
}
use cognitora_inference.Router.Stream.{
  ResponseCtx, Chunk, chunk, usage_chunk, error_body, SseEvent, payload, fail, make_chunk, chunk_of,
  has_payload, pump_loop, is_chat, Surface, chat, text_only,
}
use cognitora_inference.Router.Stream.Frames.{has_fail, has_fail-append}

pub or_true : (b : Bool) → (b || true) ≡ true
or_true b = ground arith

Surface-cases : (s : Surface) → (s ≡ chat) ⊎ (s ≡ text_only)
Surface-cases chat = inl refl
Surface-cases text_only = inr refl

module _ (json : Json) where
  abbrev pub text_in : Chunk json → List ℕ
  text_in (chunk role none tools finish logprobs) = []
  text_in (chunk role (some t) tools finish logprobs) = t
  text_in (usage_chunk u) = []
  text_in error_body = []

  -- The texts that a client puts together.
  abbrev pub texts : List (SseEvent json) → List ℕ
  texts [] = []
  texts (payload c ∷ events) = text_in c ++ texts events
  texts (fail c ∷ events) = texts events

  abbrev pub finish_in : List ℕ → Chunk json → List ℕ
  finish_in last (chunk role text tools none logprobs) = last
  finish_in last (chunk role text tools (some f) logprobs) = f
  finish_in last (usage_chunk u) = last
  finish_in last error_body = last

  -- The last reason to finish that it reads.
  abbrev pub last_finish : List ℕ → List (SseEvent json) → List ℕ
  last_finish last [] = last
  last_finish last (payload c ∷ events) = last_finish (finish_in last c) events
  last_finish last (fail c ∷ events) = last_finish last events

  pub texts-append : (es fs : List (SseEvent json)) → texts (es ++ fs) ≡ texts es ++ texts fs
  texts-append [] fs = refl
  texts-append (payload c ∷ es) fs =
      ap (λ ts. text_in c ++ ts) (texts-append es fs)
      ∙ sym (append_assoc (text_in c) (texts es) (texts fs))
  texts-append (fail c ∷ es) fs = texts-append es fs

  pub last_finish-append :
      (last : List ℕ) (es fs : List (SseEvent json))
      → last_finish last (es ++ fs) ≡ last_finish (last_finish last es) fs
  last_finish-append last [] fs = refl
  last_finish-append last (payload c ∷ es) fs = last_finish-append (finish_in last c) es fs
  last_finish-append last (fail c ∷ es) fs = last_finish-append last es fs

  abbrev pub always : List (SseEvent json) → Bool
  always sent = true

  nothing_in : (s : List ℕ) → is_nonempty s ≡ false → s ≡ []
  nothing_in [] h = refl
  nothing_in (c ∷ s) h = absurd (cc h)

  -- What the client has of the tokens gathered so far.
  pub record Same (ctx : ResponseCtx) (sent : List (SseEvent json)) (tally : Tally json)
      (c : Collected json) : Type 0 where
    pub text : texts sent ≡ c.text
    pub finish : last_finish stop sent ≡ c.finish
    pub tally_same : tally ≡ c.tally

  text_in-chunk_of : (ctx : ResponseCtx) (t : Token json) → text_in (chunk_of json ctx t) ≡ t.text
  unfolding chunk_of make_chunk
  text_in-chunk_of ctx t = ground arith

  finish_in-chunk_of :
      (ctx : ResponseCtx) (last : List ℕ) (t : Token json)
      → finish_in last (chunk_of json ctx t) ≡ (if is_nonempty t.finish then t.finish else last)
  unfolding chunk_of make_chunk
  finish_in-chunk_of ctx last t = ground arith

  -- One token, as the client and the buffer get it.
  sent-Same :
      (ctx : ResponseCtx) (sent : List (SseEvent json)) (tally : Tally json) (c : Collected json)
      (t : Token json)
      → Same ctx sent tally c
      → Same ctx
          (sent ++ (payload (chunk_of json ctx t) ∷ []))
          (observe json tally t)
          (gather json c t)
  unfolding gather
  sent-Same ctx sent tally c t m =
      let e = payload (chunk_of json ctx t) ∷ [] in
      record {
        text =
            texts-append sent e ∙ ground (arith, text_in-chunk_of ctx t, m.text, append-nil t.text);
        finish =
            last_finish-append stop sent e
            ∙ finish_in-chunk_of ctx (last_finish stop sent) t
            ∙ ground (arith, m.finish);
        tally_same = ap (λ (k : Tally json). observe json k t) m.tally_same;
      }

  skipped-Same :
      (ctx : ResponseCtx) (sent : List (SseEvent json)) (tally : Tally json) (c : Collected json)
      (t : Token json)
      → has_payload json t ≡ false
      → Same ctx sent tally c
      → Same ctx sent (observe json tally t) (gather json c t)
  unfolding gather has_payload
  skipped-Same ctx sent tally c t none_there m =
      let empty : t.text ≡ [] = nothing_in t.text (ground (arith, none_there)) in
      record {
        text = m.text ∙ sym (append-nil c.text) ∙ ap (λ ts. c.text ++ ts) (sym empty);
        finish = m.finish ∙ ground (arith, none_there);
        tally_same = ap (λ (k : Tally json). observe json k t) m.tally_same;
      }

  pub pump_loop-Same :
      (ctx : ResponseCtx) (ts : List (Token json)) (items : List (Option (Token json)))
      (sent : List (SseEvent json)) (tally : Tally json) (c : Collected json)
      → Same ctx sent tally c
      → (sent' : List (SseEvent json)) × (c' : Collected json) × (pump_loop json always ctx
            (map some ts ++ items)
            sent
            tally
          ≡ pump_loop json always ctx items sent' c'.tally)
        × (collect_loop json (map some ts ++ items) c ≡ collect_loop json items c')
        × Same ctx sent' c'.tally c'
        × (has_fail json sent' ≡ has_fail json sent)
  unfolding pump_loop collect_loop
  pump_loop-Same ctx [] items sent tally c m = (
    sent,
    c,
    ap (λ (k : Tally json). pump_loop json always ctx items sent k) m.tally_same,
    refl,
    record { text = m.text; finish = m.finish; tally_same = refl },
    refl,
  )
  pump_loop-Same ctx (t ∷ ts) items sent tally c m = elim (Bool-cases (has_payload json t)) [
    | inr e ↦
        let (sent', c', p, q, m', f) =
          pump_loop-Same ctx ts items sent (observe json tally t) (gather json c t)
            (skipped-Same ctx sent tally c t e m) in
        (sent', c', ground (arith, e, p), q, m', f)
    | inl e ↦
        let one = payload (chunk_of json ctx t) ∷ [] in
        let (sent', c', p, q, m', f) =
          pump_loop-Same ctx ts items (sent ++ one) (observe json tally t) (gather json c t)
            (sent-Same ctx sent tally c t m) in
        (sent', c', ground (arith, e, p), q, m', f ∙ has_fail-append json sent one ∙ ground (arith))
  ]

  abbrev pub start : ResponseCtx → List (SseEvent json)
  start ctx =
      if is_chat ctx.surface
      then payload (make_chunk json ctx.surface true none none none none) ∷ []
      else []

  pub start-Same :
      (ctx : ResponseCtx)
      → Same ctx (start ctx) (no_tally json) (nothing_yet json)
        × (has_fail json (start ctx) ≡ false)
  unfolding is_chat make_chunk
  start-Same ctx = elim (Surface-cases ctx.surface) [
    | inl e ↦ (
      record { text = ground (arith, e); finish = ground (arith, e); tally_same = refl },
      ground (arith, e),
    )
    | inr e ↦ (
      record { text = ground (arith, e); finish = ground (arith, e); tally_same = refl },
      ground (arith, e),
    )
  ]
