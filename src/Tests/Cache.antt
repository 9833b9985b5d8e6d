-- ===== src/Tests/Cache.antt =====
-- The store of rust/services/cgn-kvcached at concrete inputs. Addresses are numbers, and the file
-- name of an address is its last digit.
use cognitora_inference.Prelude.{ℕ, ◌%◌, ◌≡◌, refl, true, none, some, List, [], ◌∷◌, ℕ_discrete}
use cognitora_inference.Prelude.Maps.{get, insert, remove}
use cognitora_inference.Kv.Ram.{RamSlot, RamTier, new, put, sort_by_age}
use cognitora_inference.Kv.Ram
use cognitora_inference.Kv.Ram.Laws.{Call, puts, gets, evicts, run}
use cognitora_inference.Kv.Store.{
  TierKind, ram, ssd, BlockMeta, Paths, Disk, Store, spill_to_ssd, lookup_with_promote,
}
use cognitora_inference.Kv.Store.Laws.{Works, tier_of, spill-promote}

abbrev last_digit : Paths
last_digit = record {
  Address = ℕ;
  same = ℕ_discrete;
  FilePath = ℕ;
  same_path = ℕ_discrete;
  layer_of = λ a. 0;
  path_for = λ a. a % 10;
}

abbrev disk : Disk last_digit
disk = λ o f. true

disk-Works : Works last_digit disk
disk-Works o f = refl

abbrev slot : RamSlot
slot = record { bytes = 1 ∷ 2 ∷ 3 ∷ []; last = 4 }

abbrev meta_of : TierKind → ℕ → BlockMeta
meta_of tier seen = record {
  model = 9 ∷ [];
  layer = 0;
  bytes = 3;
  created_unix = 4;
  last_seen_unix = seen;
  tier = tier;
}

-- Block 12 is in RAM, block 7 on the disk.
abbrev store : Store last_digit
store = record {
  hot = record { inner = (12, slot) ∷ []; capacity = 8; used = 3 };
  files = (7, 5 ∷ 6 ∷ []) ∷ [];
  index = (12, meta_of ram 4) ∷ (7, meta_of ssd 4) ∷ [];
  stats = record { hits = 0; misses = 0; evictions = 0; spills = 0 };
}

spill-promote_example :
    (get ℕ_discrete 12 (spill_to_ssd last_digit disk store 12 [] 5).1.hot.inner ≡ none)
    × (tier_of last_digit (get ℕ_discrete 12 (spill_to_ssd last_digit disk store 12 [] 5).1.index)
        ≡ some ssd)
    × ((lookup_with_promote last_digit disk (spill_to_ssd last_digit disk store 12 [] 5).1 12 6).0
        ≡ some (1 ∷ 2 ∷ 3 ∷ []))
    × (tier_of last_digit (
          get ℕ_discrete 12
            (lookup_with_promote last_digit disk
              (spill_to_ssd last_digit disk store 12 [] 5).1
              12
              6).1.index)
        ≡ some ram)
    × ((Ram.get_bytes ℕ_discrete
          (lookup_with_promote last_digit disk
            (spill_to_ssd last_digit disk store 12 [] 5).1
            12
            6).1.hot
          12
          6).0
        ≡ some (1 ∷ 2 ∷ 3 ∷ []))
unfolding get ℕ_discrete
spill-promote_example = spill-promote last_digit disk store 12 [] slot 5 6 disk-Works refl

abbrev calls : List (Call ℕ_discrete)
calls =
    puts 1 (4 ∷ 5 ∷ []) 3 ∷ puts 2 (6 ∷ []) 4 ∷ puts 1 (7 ∷ 8 ∷ 9 ∷ []) 5 ∷ gets 2 6 ∷ evicts 1 ∷ []

run-calls : (run ℕ_discrete calls (new ℕ_discrete 16)).used ≡ 1
unfolding run new put Ram.get_bytes Ram.evict insert get remove ℕ_discrete Ram.fetch_add
    Ram.fetch_sub
run-calls = refl

abbrev aged : List (ℕ × ℕ)
aged = (1, 9) ∷ (2, 3) ∷ (3, 9) ∷ []
