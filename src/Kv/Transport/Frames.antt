-- ===== src/Kv/Transport/Frames.antt =====
-- The frames of rust/services/cgn-kvcached/src/transport.rs are read as they were written.
use cognitora_inference.Prelude.{
  ℕ, ◌≤◌, ◌≡◌, refl, ap, sym, ◌∙◌, false, some, List, [], ◌∷◌, ◌++◌, length, length-append, take,
  drop, ltb, arith,
}
use mathlib.Core.List.{append-nil}
use cognitora_inference.Kv.Transport.{
  ok, Frame, max_frame_bytes, to_be_bytes, read_len, read_exact, Wire, read_payload, read_frame,
  write_frame,
}

take-length {ℓ} : {A : Type ℓ} (xs ys : List A) → take (length xs) (xs ++ ys) ≡ xs
take-length [] ys = refl
take-length (x ∷ xs) ys = ap (◌∷◌ x) (take-length xs ys)

drop-length {ℓ} : {A : Type ℓ} (xs ys : List A) → drop (length xs) (xs ++ ys) ≡ ys
drop-length [] ys = refl
drop-length (x ∷ xs) ys = drop-length xs ys

read_exact-append : (xs ys : List ℕ) → read_exact (length xs) (xs ++ ys) ≡ ok (xs, ys)
unfolding read_exact
read_exact-append xs ys =
    let enough : ltb (length (xs ++ ys)) (length xs) ≡ false =
      ground (arith, length-append xs ys) in
    rw enough (rw (take-length xs ys, drop-length xs ys) refl)

pub read_exact-length : (xs : List ℕ) → read_exact (length xs) xs ≡ ok (xs, [])
read_exact-length xs =
    ap (λ ys. read_exact (length xs) ys) (sym (append-nil xs)) ∙ read_exact-append xs []

module _ (wire : Wire) where
  open wire use {paths, serialize, deserialize}
  open paths use {Address}

  -- The codec reads what it writes, and no frame is longer than a reader allows.
  pub record IsCodec : Type 0 where
    pub round_trip : (f : Frame Address) → deserialize (serialize f) ≡ some f
    pub short : (f : Frame Address) → length (serialize f) ≤ max_frame_bytes

  read_payload-serialize :
      (f : Frame Address) (body : List ℕ) (len : ℕ)
      → IsCodec
      → len ≡ length (serialize f)
      → read_payload wire len (serialize f ++ body) ≡ ok (f, body)
  unfolding read_payload
  read_payload-serialize f body len codec e =
      let fits : ltb max_frame_bytes (length (serialize f)) ≡ false =
        ground (arith, codec.short f) in
      rw e (
        rw (fits, read_payload)
          (rw (read_exact-append (serialize f) body) (rw (codec.round_trip f) refl)))

  -- A frame is read as it was written, and what follows it is left.
  pub read_frame-write_frame :
      (f : Frame Address) (body : List ℕ)
      → IsCodec
      → read_frame wire (write_frame wire f ++ body) ≡ ok (f, body)
  unfolding read_frame write_frame read_len to_be_bytes
  read_frame-write_frame f body codec =
      read_payload-serialize f body _ codec (omega (arith, codec.short f))

  pub read_frame-alone :
      (f : Frame Address) → IsCodec → read_frame wire (write_frame wire f) ≡ ok (f, [])
  read_frame-alone f codec =
      ap (read_frame wire) (sym (append-nil (write_frame wire f)))
      ∙ read_frame-write_frame f [] codec
