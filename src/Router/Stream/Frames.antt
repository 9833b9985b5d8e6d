-- ===== src/Router/Stream/Frames.antt =====
-- What a client reads of a stream of rust/services/cgn-router/src/gateway/sse.rs.
use cognitora_inference.Prelude.{◌≡◌, refl, Bool, true, false, ◌||◌, not, List, [], ◌∷◌, ◌++◌}
use cognitora_inference.Router.Respond.{Json}
use cognitora_inference.Router.Stream.{SseEvent, payload, fail, encode, Frame, frame, done}

module _ (json : Json) where
  abbrev pub has_done : List (Frame json) → Bool
  has_done [] = false
  has_done (frame c ∷ frames) = has_done frames
  has_done (done ∷ frames) = true

  abbrev pub has_fail : List (SseEvent json) → Bool
  has_fail [] = false
  has_fail (payload c ∷ events) = has_fail events
  has_fail (fail c ∷ events) = true

  -- The mark of success is written exactly where nothing failed.
  pub encode-has_done :
      (events : List (SseEvent json)) → has_done (encode json events) ≡ not (has_fail events)
  unfolding encode
  encode-has_done [] = refl
  encode-has_done (payload c ∷ events) = encode-has_done events
  encode-has_done (fail c ∷ events) = refl

  pub has_fail-append :
      (es fs : List (SseEvent json)) → has_fail (es ++ fs) ≡ (has_fail es || has_fail fs)
  has_fail-append [] fs = refl
  has_fail-append (payload c ∷ es) fs = has_fail-append es fs
  has_fail-append (fail c ∷ es) fs = refl
