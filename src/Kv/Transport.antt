-- ===== src/Kv/Transport.antt =====
-- The transfer of blocks between stores, rust/services/cgn-kvcached/src/transport.rs.
--
-- A QUIC stream is the list of its bytes. The codec of frames, bincode, is a parameter, and a
-- connection that breaks in the middle is a list that is too short. The byte counters of the
-- transfers are left out.
pub mod Frames
pub mod Transfer
use cognitora_inference.Prelude.{
  ℕ, suc, zero, ◌+◌, ◌*◌, ◌/◌, ◌%◌, ◌^◌, ◌≤◌, ◌<◌, ◌≡◌, Bool, true, false, not, Option, none, some,
  List, [], ◌∷◌, ◌++◌, length, take, drop, ltb, if◌then◌else◌,
}
use cognitora_inference.Kv.Store.{Paths, Store, put_ram}
use cognitora_inference.Kv.Ram

-- What the agreement on security depends on.
pub record SecurityConfig : Type 0 where
  pub require_mtls : Bool
  -- The three files are named.
  pub has_files : Bool
  pub allow_insecure_quic : Bool

pub data QuicSecurity : Type 0 where
  mtls insecure : QuicSecurity

-- `none` is the error `Config`.
unfoldable pub from_config : SecurityConfig → Bool → Option QuicSecurity
from_config cfg is_loopback =
    if cfg.require_mtls
    then (if cfg.has_files then some mtls else none)
    else if is_loopback
    then some insecure
    else if cfg.allow_insecure_quic
    then some insecure
    else none

pub data Error : Type 0 where
  internal invalid_argument : Error

pub data Result {ℓ} (A : Type ℓ) : Type ℓ where
  err : Error → Result A
  ok : A → Result A

-- `?`.
infixl 5 ◌>>=◌
abbrev pub ◌>>=◌ {ℓ κ} : {A : Type ℓ} {B : Type κ} → Result A → (A → Result B) → Result B
err why >>= next = err why
ok value >>= next = next value

-- A handler that fails closes the connection: its peer fails to read the answer.
abbrev pub heard {ℓ} : {A : Type ℓ} → Result A → Result A
heard (ok a) = ok a
heard (err e) = err internal

pub data Op : Type 0 where
  pull push ack : Op

pub record Frame (Address : Type 0) : Type 0 where
  pub op : Op
  pub addr : Address
  pub body_len : ℕ

abbrev pub max_block_bytes : ℕ
max_block_bytes = 16 * 1024 * 1024

abbrev pub max_frame_bytes : ℕ
max_frame_bytes = 16 * 1024

-- `u32::to_be_bytes` of the length as a `u32`.
unfoldable pub to_be_bytes : ℕ → List ℕ
to_be_bytes n = n / 2 ^ 24 % 256 ∷ n / 2 ^ 16 % 256 ∷ n / 2 ^ 8 % 256 ∷ n % 256 ∷ []

-- `read_exact` of a four-byte header and `u32::from_be_bytes`.
unfoldable pub read_len : List ℕ → Result (ℕ × List ℕ)
read_len (a ∷ b ∷ c ∷ d ∷ rest) = ok (((a * 256 + b) * 256 + c) * 256 + d, rest)
read_len _ = err internal

unfoldable pub read_exact : ℕ → List ℕ → Result (List ℕ × List ℕ)
read_exact n bytes = if ltb (length bytes) n then err internal else ok (take n bytes, drop n bytes)

-- `none` of `bincode::deserialize` is an error.
abbrev pub decoded {ℓ} : {A : Type ℓ} → Option A → Result A
decoded none = err invalid_argument
decoded (some a) = ok a

abbrev pub permit : Bool → Result (Unit {0})
permit true = ok tt
permit false = err invalid_argument

pub record Wire : Type 1 where
  pub paths : Paths
  pub serialize : Frame paths.Address → List ℕ
  pub deserialize : List ℕ → Option (Frame paths.Address)

module _ (wire : Wire) where
  open wire use {paths, serialize, deserialize}
  open paths use {Address, same}

  -- A frame whose length is known, and what follows it.
  unfoldable pub read_payload : ℕ → List ℕ → Result (Frame Address × List ℕ)
  unfolding read_exact
  read_payload len rest = do
    _ ← permit (not (ltb max_frame_bytes len))
    (payload, body) ← read_exact len rest
    frame ← decoded (deserialize payload)
    ok (frame, body)

  unfoldable pub read_frame : List ℕ → Result (Frame Address × List ℕ)
  unfolding read_len read_payload
  read_frame bytes = do (len, rest) ← read_len bytes; read_payload len rest

  unfoldable pub write_frame : Frame Address → List ℕ
  unfolding to_be_bytes
  write_frame frame = to_be_bytes (length (serialize frame)) ++ serialize frame

  -- The answer to one stream of a connection, and the store after it.
  abbrev pub answer_pull :
      Store paths → Frame Address → Option (List ℕ) × Ram.RamTier Address → List ℕ × Store paths
  answer_pull s frame (none, hot') =
      (write_frame (record { op = push; addr = frame.addr; body_len = 0 }), record s { hot = hot' })
  answer_pull s frame (some bytes, hot') = (
    write_frame (record { op = push; addr = frame.addr; body_len = length bytes }) ++ bytes,
    record s { hot = hot' },
  )

  unfoldable pub answer :
      Store paths → ℕ → Frame Address → List ℕ → Op → Result (List ℕ × Store paths)
  unfolding write_frame read_exact put_ram Ram.get_bytes
  answer s now frame body pull = ok (answer_pull s frame (Ram.get_bytes same s.hot frame.addr now))
  answer s now frame body push = do
    _ ← permit (not (ltb max_block_bytes frame.body_len))
    (bytes, _) ← read_exact frame.body_len body
    ok (
      write_frame (record { op = ack; addr = frame.addr; body_len = 0 }),
      put_ram paths s frame.addr bytes [] now,
    )
  answer s now frame body ack = ok ([], s)

  -- One round of `handle_connection`. An error ends the connection.
  unfoldable pub handle_stream : Store paths → ℕ → List ℕ → Result (List ℕ × Store paths)
  unfolding read_frame answer
  handle_stream s now bytes = do (frame, body) ← read_frame bytes; answer s now frame body frame.op

  -- The streams of a connection in order, each with its time, up to the first error. The store after,
  -- and the answers that were sent.
  unfoldable pub handle_connection : Store paths → List (List ℕ × ℕ) → List (List ℕ) × Store paths
  unfolding handle_stream
  handle_connection s [] = ([], s)
  handle_connection s ((bytes, now) ∷ streams) = elim (handle_stream s now bytes) [
    | err e ↦ ([], s)
    | ok (reply, s') ↦ let (replies, last) = handle_connection s' streams in (reply ∷ replies, last)
  ]

  -- What `peer_pull` sends, and what it makes of the answer.
  unfoldable pub pull_request : Address → List ℕ
  unfolding write_frame
  pull_request a = write_frame (record { op = pull; addr = a; body_len = 0 })

  unfoldable pub pull_answer : List ℕ → Result (List ℕ)
  unfolding read_frame read_exact
  pull_answer bytes = do
    (resp, body) ← read_frame bytes
    _ ← permit (not (ltb max_block_bytes resp.body_len))
    (block, _) ← read_exact resp.body_len body
    ok block

  -- What `peer_push` sends; it waits for a frame and ignores it.
  unfoldable pub push_request : Address → List ℕ → List ℕ
  unfolding write_frame
  push_request a bytes =
      write_frame (record { op = push; addr = a; body_len = length bytes }) ++ bytes

  -- A pull from a peer whose store is `s`: the block or an error, and the peer's store.
  unfoldable pub peer_pull : Store paths → ℕ → Address → Result (List ℕ × Store paths)
  unfolding handle_stream pull_request pull_answer
  peer_pull s now a = do
    (reply, s') ← heard (handle_stream s now (pull_request a))
    block ← pull_answer reply
    ok (block, s')

  unfoldable pub peer_push : Store paths → ℕ → Address → List ℕ → Result (Store paths)
  unfolding handle_stream push_request read_frame
  peer_push s now a bytes = do
    (reply, s') ← heard (handle_stream s now (push_request a bytes))
    _ ← read_frame reply
    ok s'
