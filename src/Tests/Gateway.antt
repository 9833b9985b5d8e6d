-- ===== src/Tests/Gateway.antt =====
-- The router of rust/services/cgn-router at concrete inputs.
use cognitora_inference.Prelude.{
  ℕ, ◌≡◌, refl, true, none, some, List, [], ◌∷◌, arith, ltb, if◌then◌else◌, ℕ_discrete, not, ◌==◌,
}
use cognitora_inference.Prelude.Maps.{get, insert, Unique}
use cognitora_inference.Router.Admission.{Limits, PoolInner, release}
use cognitora_inference.Router.Admission.Invariant.{IsValid}
use cognitora_inference.Router.Admission.Release.{Passed, release-IsValid}
use cognitora_inference.Router.Deadline.{DeadlineConfig, Asked}
use cognitora_inference.Router.PrefixIndex.{PrefixIndex, longest_prefix_overlap}
use cognitora_inference.Router.PrefixIndex.Overlap.{leading, longest_prefix_overlap-leading}

abbrev limits : Limits
limits = record { max_queue = 2; wait_queue_per_tenant = 3 }

-- Both slots are taken; tenant 7 has two requests parked and tenant 8 one.
abbrev busy : PoolInner ℕ
busy = record { inflight = 2; waiting = (7, 11 ∷ 12 ∷ []) ∷ (8, 13 ∷ []) ∷ []; turn = 7 ∷ 8 ∷ [] }

abbrev idle : PoolInner ℕ
idle = record { inflight = 1; waiting = []; turn = [] }

idle-IsValid : IsValid ℕ_discrete limits idle
unfolding get
idle-IsValid = record { bounded = omega arith; busy = ground arith; indexed = λ t. refl }

busy-IsValid : IsValid ℕ_discrete limits busy
unfolding get
busy-IsValid = record { bounded = omega arith; busy = λ e. refl; indexed = λ t. ground arith }

-- Request 11 has given up, so the next tenant's request gets the slot.
release-busy : (release ℕ_discrete (λ w. not (w == 11)) busy).0 ≡ some 13
unfolding release get insert ℕ_discrete
release-busy = refl

release-IsValid_example :
    IsValid ℕ_discrete limits (release ℕ_discrete (λ w. true) busy).1
    × Passed ℕ_discrete (λ w. true) busy (release ℕ_discrete (λ w. true) busy)
release-IsValid_example = release-IsValid ℕ_discrete limits (λ w. true) busy busy-IsValid

abbrev deadlines : DeadlineConfig
deadlines = record {
  deadline_admission = true;
  ttft_slo = 4000000000;
  max_concurrent_per_replica = 4;
}

abbrev hurried : Asked
hurried = record { deadline_ms = 200; max_tokens = none }

-- Nodes 1 and 2 hold the first digest, node 1 the second as well.
abbrev index : PrefixIndex ℕ_discrete ℕ_discrete
index = record {
  inner =
      (100, record { node_id = 1; last_seen = 5 } ∷ record { node_id = 2; last_seen = 6 } ∷ [])
      ∷ (200, record { node_id = 1; last_seen = 5 } ∷ [])
      ∷ [];
  ttl = 10;
}

abbrev asked : List ℕ
asked = 100 ∷ 200 ∷ 300 ∷ []

overlap-asked :
    get ℕ_discrete 1 (longest_prefix_overlap ℕ_discrete ℕ_discrete index asked 9) ≡ some 2
unfolding longest_prefix_overlap get insert ℕ_discrete
overlap-asked = refl

longest_prefix_overlap-leading_example :
    get ℕ_discrete 1 (longest_prefix_overlap ℕ_discrete ℕ_discrete index asked 9) ≡ (
      if ltb 0 (leading ℕ_discrete ℕ_discrete index 9 1 asked)
      then some (leading ℕ_discrete ℕ_discrete index 9 1 asked)
      else none)
longest_prefix_overlap-leading_example =
    longest_prefix_overlap-leading ℕ_discrete ℕ_discrete index asked 9 1

index-Unique : Unique ℕ_discrete index.inner
unfolding get ℕ_discrete
index-Unique = (refl, (refl, tt))
