-- ===== src/Kv/Transport/Transfer.antt =====
-- Blocks that go from store to store, rust/services/cgn-kvcached/src/transport.rs.
use cognitora_inference.Prelude.{
  ℕ, ◌≡◌, refl, ap, ◌∙◌, inl, inr, Option, none, some, List, [], ◌++◌, length, ltb, arith,
  Option-cases, Bool-cases, if◌then◌else◌,
}
use mathlib.Core.Logic.{ite}
use cognitora_inference.Prelude.Maps.{get, insert, get-insert}
use cognitora_inference.Kv.Store.{Store, put_ram}
use cognitora_inference.Kv.Ram
use cognitora_inference.Kv.Transport.{
  internal, invalid_argument, Result, ok, err, Frame, pull, push, ack, max_block_bytes, Wire,
  write_frame, answer_pull, answer, handle_stream, pull_request, pull_answer, push_request,
  peer_pull, peer_push, ◌>>=◌,
}
use cognitora_inference.Kv.Transport.Frames.{
  IsCodec, read_exact-length, read_frame-alone, read_frame-write_frame,
}

module _ {A B : Type 0} (dec : Discrete A) where
  ite-same : (a : A) (b c : B) → ite (dec a a) b c ≡ b
  ite-same a b c = ground arith

module _ (wire : Wire) where
  open wire use {paths, serialize, deserialize}
  open paths use {Address, same}

  handle_stream-frame :
      (s : Store paths) (now : ℕ) (f : Frame Address) (body : List ℕ)
      → IsCodec wire
      → handle_stream wire s now (write_frame wire f ++ body) ≡ answer wire s now f body f.op
  unfolding handle_stream
  handle_stream-frame s now f body codec = rw (read_frame-write_frame wire f body codec) refl

  handle_stream-alone :
      (s : Store paths) (now : ℕ) (f : Frame Address)
      → IsCodec wire
      → handle_stream wire s now (write_frame wire f) ≡ answer wire s now f [] f.op
  unfolding handle_stream
  handle_stream-alone s now f codec = rw (read_frame-alone wire f codec) refl

  put-inner :
      (hot : Ram.RamTier Address) (a : Address) (bytes : List ℕ) (now : ℕ)
      → (Ram.put same hot a bytes now).1.inner
        ≡ insert same a (Ram.fresh_slot same bytes now) hot.inner
  unfolding Ram.put
  put-inner hot a bytes now = elim (Option-cases (get same a hot.inner)) [
    | inl e ↦ rw (e, Ram.put) refl
    | inr (slot, e) ↦ rw (e, Ram.put) refl
  ]

  get_bytes-put :
      (hot : Ram.RamTier Address) (a : Address) (bytes : List ℕ) (now later : ℕ)
      → (Ram.get_bytes same (Ram.put same hot a bytes now).1 a later).0 ≡ some bytes
  unfolding Ram.get_bytes
  get_bytes-put hot a bytes now later =
      let slot = Ram.fresh_slot same bytes now in
      let found : get same a (Ram.put same hot a bytes now).1.inner ≡ some slot =
        ap (get same a) (put-inner hot a bytes now)
        ∙ get-insert same a a slot hot.inner
        ∙ ite-same same a (some slot) (get same a hot.inner) in
      rw (found, Ram.get_bytes) refl

  -- A push of a block that is not too long puts it into the RAM of the peer, and one that is too long
  -- is refused and changes nothing.
  peer_push-put :
      (s : Store paths) (now : ℕ) (a : Address) (bytes : List ℕ)
      → IsCodec wire
      → peer_push wire s now a bytes ≡ (
          if ltb max_block_bytes (length bytes)
          then err internal
          else ok (put_ram paths s a bytes [] now))
  unfolding peer_push push_request answer
  peer_push-put s now a bytes codec =
      let f : Frame Address = record { op = push; addr = a; body_len = length bytes } in
      let reply : Frame Address = record { op = ack; addr = a; body_len = 0 } in
      elim (Bool-cases (ltb max_block_bytes (length bytes))) [
        | inl e ↦ rw (handle_stream-frame s now f bytes codec) (rw (e, answer) refl)
        | inr e ↦ rw (handle_stream-frame s now f bytes codec) (
            rw (e, answer)
              (rw (read_exact-length bytes) (rw (read_frame-alone wire reply codec) refl)))
      ]

  -- What a puller makes of a block that its peer holds.
  abbrev pub accepted : List ℕ → Result (List ℕ)
  accepted bytes = if ltb max_block_bytes (length bytes) then err invalid_argument else ok bytes

  pull_answer-block :
      (a : Address) (bytes : List ℕ)
      → IsCodec wire
      → pull_answer wire
          (write_frame wire (record { op = push; addr = a; body_len = length bytes }) ++ bytes)
        ≡ accepted bytes
  unfolding pull_answer
  pull_answer-block a bytes codec =
      let f : Frame Address = record { op = push; addr = a; body_len = length bytes } in
      elim (Bool-cases (ltb max_block_bytes (length bytes))) [
        | inl e ↦ rw (read_frame-write_frame wire f bytes codec) (rw (e, pull_answer) refl)
        | inr e ↦
            rw (read_frame-write_frame wire f bytes codec)
              (rw (e, pull_answer) (rw (read_exact-length bytes) refl))
      ]

  pull_answer-empty :
      (a : Address)
      → IsCodec wire
      → pull_answer wire (write_frame wire (record { op = push; addr = a; body_len = 0 })) ≡ ok []
  unfolding pull_answer
  pull_answer-empty a codec =
      let f : Frame Address = record { op = push; addr = a; body_len = 0 } in
      rw (read_frame-alone wire f codec) refl

  abbrev pub block_of : Result (List ℕ × Store paths) → Result (List ℕ)
  block_of (ok (block, s)) = ok block
  block_of (err e) = err e

  abbrev pub pulled : Option (List ℕ) → Result (List ℕ)
  pulled none = ok []
  pulled (some bytes) = accepted bytes

  block_of-bind :
      (r : Result (List ℕ)) (s : Store paths) → block_of (r >>= λ block. ok (block, s)) ≡ r
  block_of-bind (ok block) s = refl
  block_of-bind (err e) s = refl

  pull_answer-answer_pull :
      (s : Store paths) (f : Frame Address) (held : Option (List ℕ) × Ram.RamTier Address)
      → IsCodec wire
      → pull_answer wire (answer_pull wire s f held).0 ≡ pulled held.0
  pull_answer-answer_pull s f (none, hot') codec = pull_answer-empty f.addr codec
  pull_answer-answer_pull s f (some bytes, hot') codec = pull_answer-block f.addr bytes codec

  -- Where the codec reads what it writes, a pull gets the block that is in the peer's RAM, an error if
  -- it is longer than a puller accepts, and an empty block if it is not in RAM, on disk or not.
  peer_pull-get_bytes :
      (s : Store paths) (now : ℕ) (a : Address)
      → IsCodec wire
      → block_of (peer_pull wire s now a) ≡ pulled (Ram.get_bytes same s.hot a now).0
  unfolding peer_pull pull_request answer
  peer_pull-get_bytes s now a codec =
      let f : Frame Address = record { op = pull; addr = a; body_len = 0 } in
      let held = Ram.get_bytes same s.hot a now in
      let reply = answer_pull wire s f held in
      rw (handle_stream-alone s now f codec)
        (block_of-bind (pull_answer wire reply.0) reply.1 ∙ pull_answer-answer_pull s f held codec)

  -- Where the codec reads what it writes, a block that one peer pushes to a store is what the next peer
  -- pulls from it, as long as it is not longer than the store accepts; one that is longer fails at the
  -- push.
  pub peer_push-peer_pull :
      (s : Store paths) (now later : ℕ) (a : Address) (bytes : List ℕ)
      → IsCodec wire
      → block_of (peer_push wire s now a bytes >>= λ s'. peer_pull wire s' later a)
        ≡ (if ltb max_block_bytes (length bytes) then err internal else ok bytes)
  unfolding put_ram
  peer_push-peer_pull s now later a bytes codec =
      elim (Bool-cases (ltb max_block_bytes (length bytes))) [
        | inl e ↦ rw (peer_push-put s now a bytes codec) (rw e refl)
        | inr e ↦ rw (peer_push-put s now a bytes codec) (
            rw e (
              peer_pull-get_bytes (put_ram paths s a bytes [] now) later a codec
              ∙ ap pulled (get_bytes-put s.hot a bytes now later)
              ∙ rw e refl))
      ]
