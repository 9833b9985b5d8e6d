-- ===== src/Agent/KvConfirmed.antt =====
-- The claims that an agent confirms to the store, `publish_kv_confirmed` of
-- rust/services/cgn-agent/src/health.rs.
--
-- A key of the store is the digest it is made of. `puts` and `deletes` say whether the store takes
-- the call for a key, `is_digest` whether a queued value has 32 bytes, and `low` is the test of the
-- free blocks, which is 32-bit floating point. The events are the calls that the store has taken.
pub mod Mirror
use cognitora_inference.Prelude.{
  ℕ, ◌/◌, Bool, true, false, not, ◌&&◌, List, [], ◌∷◌, ◌++◌, length, any, keep, ltb, if◌then◌else◌,
}
use cognitora_inference.Prelude.Distinct.{same, has}

abbrev pub kv_confirmed_max_keys : ℕ
kv_confirmed_max_keys = 4096

pub record ClaimStore : Type 1 where
  pub Digest : Type 0
  pub digests : Discrete Digest
  pub is_digest : Digest → Bool
  pub puts : Digest → Bool
  pub deletes : Digest → Bool

module _ (store : ClaimStore) where
  open store use {Digest, digests, is_digest, puts, deletes}

  pub data KvEvent : Type 0 where
    put delete : Digest → KvEvent

  -- Whether the pass came to its end, the keys that the agent tracks, oldest first, and the events.
  pub record Pass : Type 0 where
    pub completed : Bool
    pub published : List Digest
    pub events : List KvEvent

  abbrev pub after : KvEvent → Pass → Pass
  after e p = record p { events = e ∷ p.events }

  abbrev pub at : Bool → List Digest → Pass
  at completed published = record { completed = completed; published = published; events = [] }

  -- The loop over the queued digests; a failed put ends the pass.
  unfoldable pub confirm : List Digest → List Digest → Pass
  confirm published [] = at true published
  confirm published (d ∷ pending) =
      let fresh = is_digest d && not (has digests d published) in
      let rest = confirm (if fresh then published ++ (d ∷ []) else published) pending in
      if fresh then (if puts d then after (put d) rest else at false published) else rest

  -- The loop that drops the oldest keys; a key that the store refuses to delete is dropped as well.
  unfoldable pub shrink : ℕ → List Digest → Pass
  shrink target [] = at true []
  shrink target (k ∷ keys) =
      let rest = shrink target keys in
      if ltb target (length (k ∷ keys))
      then (if deletes k then after (delete k) rest else at false keys)
      else at true (k ∷ keys)

  unfoldable pub target_of : Bool → List Digest → ℕ
  target_of under_pressure published =
      if under_pressure then length published / 2 else kv_confirmed_max_keys

  unfoldable pub under_pressure : (ℕ → ℕ → Bool) → ℕ → ℕ → Bool
  under_pressure low free total = ltb 0 total && low free total

  abbrev pub then_shrink : Bool → Pass → Pass
  then_shrink pressure p =
      if p.completed
      then (let q = shrink (target_of pressure p.published) p.published in
          record q { events = p.events ++ q.events })
      else p

  unfoldable pub publish_kv_confirmed : (ℕ → ℕ → Bool) → ℕ → ℕ → List Digest → List Digest → Pass
  unfolding confirm shrink target_of under_pressure
  publish_kv_confirmed low free total published pending =
      then_shrink (under_pressure low free total) (confirm published pending)

  abbrev pub without : Digest → List Digest → List Digest
  without d keys = keep (λ k. not (same digests k d)) keys

  -- The keys in the store after some events.
  unfoldable pub replay : List KvEvent → List Digest → List Digest
  replay [] keys = keys
  replay (put d ∷ events) keys =
      replay events (if has digests d keys then keys else keys ++ (d ∷ []))
  replay (delete d ∷ events) keys = replay events (without d keys)
