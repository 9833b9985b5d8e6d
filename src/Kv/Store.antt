-- ===== src/Kv/Store.antt =====
-- `Store` of rust/services/cgn-kvcached/src/tiers.rs, with `SsdTier` of
-- rust/libraries/cgn-kv/src/ssd.rs under it and the in-memory `IndexImpl` (the build without
-- `persistent-index`), whose calls do not fail.
--
-- `path_for` names the file of a block; `Disk` says how the file system answers: whether the next
-- write, read or removal at a path succeeds. The counters of the block transfer, which the store does
-- not touch, are left out. `now` is the clock's reading, the same within a call.
pub mod Laws
use cognitora_inference.Prelude.{
  ℕ, suc, zero, ◌+◌, ◌-◌, ◌*◌, ◌/◌, Bool, true, false, ◌&&◌, ◌||◌, Option, none, some, List, [],
  ◌∷◌, ltb, leb, ◌==◌, if◌then◌else◌, length,
}
use cognitora_inference.Prelude.Maps.{get, insert, remove}
use cognitora_inference.Kv.Ram.{RamTier, fetch_add}
use cognitora_inference.Kv.Ram

pub data TierKind : Type 0 where
  gpu ram ssd : TierKind

pub record BlockMeta : Type 0 where
  pub model : List ℕ
  pub layer : ℕ
  pub bytes : ℕ
  pub created_unix : ℕ
  pub last_seen_unix : ℕ
  pub tier : TierKind

pub record KvStats : Type 0 where
  pub hits : ℕ
  pub misses : ℕ
  pub evictions : ℕ
  pub spills : ℕ

pub record Paths : Type 1 where
  pub Address : Type 0
  pub same : Discrete Address
  pub FilePath : Type 0
  pub same_path : Discrete FilePath
  pub layer_of : Address → ℕ
  pub path_for : Address → FilePath

pub data Operation : Type 0 where
  reads writes removes : Operation

module _ (ps : Paths) where
  open ps use {Address, same, FilePath, same_path, layer_of, path_for}

  abbrev pub Disk : Type 0
  Disk = Operation → FilePath → Bool

  pub record Store : Type 0 where
    pub hot : RamTier Address
    pub files : List (FilePath × List ℕ)
    pub index : List (Address × BlockMeta)
    pub stats : KvStats

  abbrev pub meta : List ℕ → Address → ℕ → ℕ → TierKind → BlockMeta
  meta model a size now tier = record {
    model = model;
    layer = layer_of a;
    bytes = size;
    created_unix = now;
    last_seen_unix = now;
    tier = tier;
  }

  abbrev pub hit : Store → Store
  hit s = record s { stats = record s.stats { hits = fetch_add s.stats.hits 1 } }

  abbrev pub miss : Store → Store
  miss s = record s { stats = record s.stats { misses = fetch_add s.stats.misses 1 } }

  -- `SsdTier::read`: `none` for an error, `some none` where there is no file.
  unfoldable pub ssd_read : Disk → Store → Address → Option (Option (List ℕ))
  ssd_read disk s a =
      if disk reads (path_for a) then some (get same_path (path_for a) s.files) else none

  abbrev look_up :
      Store
      → Address
      → ℕ
      → Option (List ℕ) × RamTier Address
      → Option BlockMeta
      → Option BlockMeta × Store
  look_up s a now (some bytes, hot') indexed = (
    some (record (meta [] a (length bytes) now ram) { created_unix = 0 }),
    hit (record s { hot = hot' }),
  )
  look_up s a now (none, hot') (some m) = (some m, hit s)
  look_up s a now (none, hot') none = (none, miss s)

  -- `lookup`: the metadata of a block in RAM, made up as `RamTier::get` does, or that of the index.
  unfoldable pub lookup : Store → Address → ℕ → Option BlockMeta × Store
  lookup s a now = look_up s a now (Ram.get_bytes same s.hot a now) (get same a s.index)

  abbrev pub promoted : Store → Address → List ℕ → ℕ → Store
  promoted s a bytes now = hit (record s {
    hot = (Ram.put same s.hot a bytes now).1;
    index = insert same a (meta [] a (length bytes) now ram) s.index;
  })

  abbrev from_disk : Store → Address → ℕ → Option (Option (List ℕ)) → Option (List ℕ) × Store
  from_disk s a now (some (some bytes)) = (some bytes, promoted s a bytes now)
  from_disk s a now (some none) = (none, miss s)
  from_disk s a now none = (none, miss s)

  abbrev from_ram :
      Disk → Store → Address → ℕ → Option (List ℕ) × RamTier Address → Option (List ℕ) × Store
  from_ram disk s a now (some bytes, hot') = (some bytes, hit (record s { hot = hot' }))
  from_ram disk s a now (none, hot') = from_disk s a now (ssd_read disk s a)

  unfoldable pub lookup_with_promote : Disk → Store → Address → ℕ → Option (List ℕ) × Store
  unfolding ssd_read
  lookup_with_promote disk s a now = from_ram disk s a now (Ram.get_bytes same s.hot a now)

  unfoldable pub put_ram : Store → Address → List ℕ → List ℕ → ℕ → Store
  put_ram s a bytes model now = record s {
    hot = (Ram.put same s.hot a bytes now).1;
    index = insert same a (meta model a (length bytes) now ram) s.index;
  }

  abbrev spill_bytes :
      Disk → Store → Address → List ℕ → ℕ → Option (List ℕ) × RamTier Address → Bool × Store
  spill_bytes disk s a model now (none, hot') = (true, s)
  spill_bytes disk s a model now (some bytes, hot') =
      if disk writes (path_for a)
      then (
        true,
        record s {
          hot = Ram.evict same hot' a;
          files = insert same_path (path_for a) bytes s.files;
          index = insert same a (meta model a (length bytes) now ssd) s.index;
        },
      )
      else (false, record s { hot = hot' })

  -- Whether the call succeeded, and the store after. A failed write leaves the block, touched.
  unfoldable pub spill_to_ssd : Disk → Store → Address → List ℕ → ℕ → Bool × Store
  spill_to_ssd disk s a model now = spill_bytes disk s a model now (Ram.get_bytes same s.hot a now)

  -- The RAM copy goes first; if the file cannot be removed the index keeps the block.
  unfoldable pub forget : Disk → Store → Address → Bool × Store
  forget disk s a =
      let s' : Store = record s { hot = Ram.evict same s.hot a } in
      if disk removes (path_for a)
      then (
        true,
        record s' { files = remove same_path (path_for a) s.files; index = remove same a s.index },
      )
      else (false, s')

  abbrev model_of : Option BlockMeta → List ℕ
  model_of none = []
  model_of (some m) = m.model

  abbrev count_spill : Bool × Store → Store
  count_spill (true, s) = record s {
    stats = record s.stats { spills = fetch_add s.stats.spills 1 };
  }
  count_spill (false, s) = s

  unfoldable pub spill_all : Disk → ℕ → List Address → Store → Store
  unfolding spill_to_ssd
  spill_all disk now [] s = s
  spill_all disk now (a ∷ victims) s =
      spill_all disk now victims
        (count_spill (spill_to_ssd disk s a (model_of (get same a s.index)) now))

  -- The loop of `evict_pass`: a batch that makes no progress ends it, so the bytes in use are fuel
  -- enough.
  unfoldable pub spill_loop : Disk → ℕ → ℕ → ℕ → Store → Store
  unfolding spill_all
  spill_loop disk now target zero s = s
  spill_loop disk now target (suc fuel) s =
      let victims = Ram.coldest same s.hot 32 in
      let s' = spill_all disk now victims s in
      let again = spill_loop disk now target fuel s' in
      if leb s.hot.used target || length victims == 0
      then s
      else (if leb s.hot.used s'.hot.used then s' else again)

  abbrev pub expired : ℕ → ℕ → BlockMeta → Bool
  expired now ttl m = elim m.tier [
    | ssd ↦ ltb ttl (now - m.last_seen_unix)
    | gpu ↦ false
    | ram ↦ false
  ]

  abbrev count_eviction : Bool × Store → Store
  count_eviction (true, s) = record s {
    stats = record s.stats { evictions = fetch_add s.stats.evictions 1 };
  }
  count_eviction (false, s) = s

  -- The time-to-live pass over a snapshot of the index.
  unfoldable pub expire_all : Disk → ℕ → ℕ → List (Address × BlockMeta) → Store → Store
  unfolding forget
  expire_all disk now ttl [] s = s
  expire_all disk now ttl ((a, m) ∷ entries) s =
      expire_all disk now ttl entries
        (if expired now ttl m then count_eviction (forget disk s a) else s)

  -- `target` is the capacity times the watermark, which the source computes in floating point.
  unfoldable pub evict_pass : Disk → Store → ℕ → ℕ → ℕ → Store
  unfolding spill_loop expire_all
  evict_pass disk s target ttl now =
      let s' =
        if ltb 0 s.hot.capacity && ltb target s.hot.used
        then spill_loop disk now target (suc s.hot.used) s
        else s in
      if ttl == 0 then s' else expire_all disk now ttl s'.index s'

  unfoldable pub cold_count : List (Address × BlockMeta) → ℕ
  cold_count [] = 0
  cold_count ((a, m) ∷ index) = (elim m.tier [ ssd ↦ 1 | gpu ↦ 0 | ram ↦ 0 ]) + cold_count index

  -- `cold_block_count`.
  unfoldable pub cold_block_count : Store → ℕ
  unfolding cold_count
  cold_block_count s = cold_count s.index
