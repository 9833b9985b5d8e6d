-- ===== src/Kv/Ram.antt =====
-- `RamTier` of rust/libraries/cgn-kv/src/tier.rs. The map is an association list, an address any
-- type with a decidable equality; `now` is the clock's reading in seconds. Calls are sequential.
pub mod Laws
use cognitora_inference.Prelude.{
  ℕ, suc, ◌+◌, ◌-◌, ◌%◌, ◌^◌, Bool, true, false, Option, none, some, List, [], ◌∷◌, map, leb,
  if◌then◌else◌, length, take, is_some,
}
use cognitora_inference.Prelude.Maps.{get, insert, remove}

pub record RamSlot : Type 0 where
  pub bytes : List ℕ
  pub last : ℕ

pub record RamTier (A : Type 0) : Type 0 where
  pub inner : List (A × RamSlot)
  pub capacity : ℕ
  pub used : ℕ

abbrev pub u64 : ℕ
u64 = 2 ^ 64

-- `fetch_add` and `fetch_sub` of an `AtomicU64`.
unfoldable pub fetch_add : ℕ → ℕ → ℕ
fetch_add x n = (x + n) % u64

unfoldable pub fetch_sub : ℕ → ℕ → ℕ
fetch_sub x n = (x + (u64 - n % u64)) % u64

-- `sort_by_key` is stable: an entry goes behind those that are as old.
unfoldable pub insert_by_age : {A : Type 0} → A × ℕ → List (A × ℕ) → List (A × ℕ)
insert_by_age e [] = e ∷ []
insert_by_age (a, n) ((b, m) ∷ es) =
    if leb n m then (a, n) ∷ (b, m) ∷ es else (b, m) ∷ insert_by_age (a, n) es

unfoldable pub sort_by_age : {A : Type 0} → List (A × ℕ) → List (A × ℕ)
unfolding insert_by_age
sort_by_age [] = []
sort_by_age (e ∷ es) = insert_by_age e (sort_by_age es)

abbrev pub ages : {A : Type 0} → List (A × RamSlot) → List (A × ℕ)
ages [] = []
ages ((a, slot) ∷ m) = (a, slot.last) ∷ ages m

module _ {A : Type 0} (dec : Discrete A) where
  unfoldable pub new : ℕ → RamTier A
  new capacity = record { inner = []; capacity = capacity; used = 0 }

  unfoldable pub contains : RamTier A → A → Bool
  contains t a = is_some (get dec a t.inner)

  abbrev pub touch : RamTier A → A → RamSlot → ℕ → RamTier A
  touch t a slot now = record t { inner = insert dec a (record slot { last = now }) t.inner }

  -- The bytes of a block, which is touched.
  unfoldable pub get_bytes : RamTier A → A → ℕ → Option (List ℕ) × RamTier A
  get_bytes t a now = elim (get dec a t.inner) [
    | none ↦ (none, t)
    | some slot ↦ (some slot.bytes, touch t a slot now)
  ]

  abbrev pub fresh_slot : List ℕ → ℕ → RamSlot
  fresh_slot bytes now = record { bytes = bytes; last = now }

  -- Whether a block was replaced, and the tier after.
  unfoldable pub put : RamTier A → A → List ℕ → ℕ → Bool × RamTier A
  unfolding fetch_add fetch_sub
  put t a bytes now =
      let inner' = insert dec a (fresh_slot bytes now) t.inner in
      let used' = fetch_add t.used (length bytes) in
      elim (get dec a t.inner) [
        | none ↦ (false, record t { inner = inner'; used = used' })
        | some prev ↦
            (true, record t { inner = inner'; used = fetch_sub used' (length prev.bytes) })
      ]

  unfoldable pub evict : RamTier A → A → RamTier A
  unfolding fetch_sub
  evict t a = elim (get dec a t.inner) [
    | none ↦ t
    | some slot ↦ record t {
      inner = remove dec a t.inner;
      used = fetch_sub t.used (length slot.bytes);
    }
  ]

  unfoldable pub coldest : RamTier A → ℕ → List A
  unfolding sort_by_age
  coldest t n = map (λ e. e.0) (take n (sort_by_age (ages t.inner)))
