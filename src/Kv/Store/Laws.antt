-- ===== src/Kv/Store/Laws.antt =====
-- What the two-tier store of rust/services/cgn-kvcached/src/tiers.rs keeps across its tiers.
use cognitora_inference.Prelude.{
  ℕ, suc, ◌<◌, ◌≡◌, refl, ◌⊎◌, inl, inr, true, false, ◌&&◌, Option, none, some, List, [], ◌∷◌,
  arith, ltb, if◌then◌else◌, length, Bool-cases,
}
use cognitora_inference.Prelude.Maps.{get, insert, remove, get-insert, get-remove}
use cognitora_inference.Kv.Ram.{RamTier, RamSlot, fetch_add}
use cognitora_inference.Kv.Ram
use cognitora_inference.Kv.Store.{
  TierKind, ram, ssd, BlockMeta, Paths, Operation, reads, writes, removes, Disk, Store, meta,
  lookup_with_promote, spill_to_ssd, forget, spill_loop, expire_all, evict_pass, expired,
  count_eviction, promoted,
}

module _ (ps : Paths) where
  open ps use {Address, same, FilePath, same_path, path_for}

  abbrev pub Works : Disk ps → Type 0
  Works disk = (o : Operation) (f : FilePath) → disk o f ≡ true

  abbrev pub tier_of : Option BlockMeta → Option TierKind
  tier_of none = none
  tier_of (some m) = some m.tier

  ram_miss :
      (hot : RamTier Address) (a : Address) (now : ℕ)
      → get same a hot.inner ≡ none
      → Ram.get_bytes same hot a now ≡ (none, hot)
  unfolding Ram.get_bytes
  ram_miss hot a now e = rw (e, Ram.get_bytes)

  ram_hit :
      (hot : RamTier Address) (a : Address) (now : ℕ) (slot : RamSlot)
      → get same a hot.inner ≡ some slot
      → Ram.get_bytes same hot a now ≡ (some slot.bytes, Ram.touch same hot a slot now)
  unfolding Ram.get_bytes
  ram_hit hot a now slot e = rw (e, Ram.get_bytes)

  -- RAM after a touch and an eviction of `a`.
  get-evict :
      (hot : RamTier Address) (a b : Address) (now : ℕ) (slot : RamSlot)
      → get same a hot.inner ≡ some slot
      → (b ≡ a) ⊎ (get same b hot.inner ≡ none)
      → get same b (Ram.evict same (Ram.touch same hot a slot now) a).inner ≡ none
  unfolding Ram.evict
  get-evict hot a b now slot e h =
      let kept : RamSlot = record slot { last = now } in
      let after = insert same a kept hot.inner in
      let there : get same a after ≡ some kept =
        ground (arith, get-insert {V = RamSlot} same a a kept hot.inner) in
      rw (there, Ram.evict)
        (ground (
          arith,
          get-remove {V = RamSlot} same a b after,
          get-insert {V = RamSlot} same a b kept hot.inner,
        ))

  abbrev spilled : Store ps → Address → List ℕ → RamSlot → ℕ → Store ps
  spilled s a model slot now = record s {
    hot = Ram.evict same (Ram.touch same s.hot a slot now) a;
    files = insert same_path (path_for a) slot.bytes s.files;
    index = insert same a (meta ps model a (length slot.bytes) now ssd) s.index;
  }

  spill-spilled :
      (disk : Disk ps) (s : Store ps) (a : Address) (model : List ℕ) (slot : RamSlot) (now : ℕ)
      → Works disk
      → get same a s.hot.inner ≡ some slot
      → spill_to_ssd ps disk s a model now ≡ (true, spilled s a model slot now)
  unfolding spill_to_ssd
  spill-spilled disk s a model slot now works e =
      rw (ram_hit s.hot a now slot e) (rw (works writes (path_for a)))

  find-promoted :
      (disk : Disk ps) (s : Store ps) (b : Address) (bytes : List ℕ) (now : ℕ)
      → Works disk
      → get same b s.hot.inner ≡ none
      → get same_path (path_for b) s.files ≡ some bytes
      → lookup_with_promote ps disk s b now ≡ (some bytes, promoted ps s b bytes now)
  unfolding lookup_with_promote
  find-promoted disk s b bytes now works e f =
      rw (ram_miss s.hot b now e) (rw (works reads (path_for b)) (rw f))

  promoted_lem :
      (s : Store ps) (b : Address) (bytes : List ℕ) (now later : ℕ)
      → (tier_of (get same b (promoted ps s b bytes now).index) ≡ some ram)
        × ((Ram.get_bytes same (promoted ps s b bytes now).hot b later).0 ≡ some bytes)
  unfolding Ram.put Ram.get_bytes
  promoted_lem s b bytes now later = (
    ground (arith, get-insert same b b (meta ps [] b (length bytes) now ram) s.index),
    ground (arith, get-insert same b b (Ram.fresh_slot same bytes now) s.hot.inner),
  )

  find_spilled :
      (disk : Disk ps) (s : Store ps) (a b : Address) (model : List ℕ) (slot : RamSlot) (t u : ℕ)
      → Works disk
      → get same a s.hot.inner ≡ some slot
      → path_for b ≡ path_for a
      → (b ≡ a) ⊎ (get same b s.hot.inner ≡ none)
      → let down = (spill_to_ssd ps disk s a model t).1 in
        lookup_with_promote ps disk down b u ≡ (some slot.bytes, promoted ps down b slot.bytes u)
  find_spilled disk s a b model slot t u works e path gone =
      rw (spill-spilled disk s a model slot t works e) (
        find-promoted disk (spilled s a model slot t) b slot.bytes u works
          (get-evict s.hot a b t slot e gone)
          (ground (arith, get-insert same_path (path_for a) (path_for b) slot.bytes s.files)))

  -- While the disk works, a block that is spilled from RAM leaves RAM, the index says SSD, and the
  -- next lookup returns the same bytes, after which RAM holds them again and the index says RAM.
  pub spill-promote :
      (disk : Disk ps) (s : Store ps) (a : Address) (model : List ℕ) (slot : RamSlot) (t u : ℕ)
      → Works disk
      → get same a s.hot.inner ≡ some slot
      → let down = (spill_to_ssd ps disk s a model t).1 in
        let up = lookup_with_promote ps disk down a u in
        (get same a down.hot.inner ≡ none)
        × (tier_of (get same a down.index) ≡ some ssd)
        × (up.0 ≡ some slot.bytes)
        × (tier_of (get same a up.1.index) ≡ some ram)
        × ((Ram.get_bytes same up.1.hot a u).0 ≡ some slot.bytes)
  spill-promote disk s a model slot t u works e =
      let down = spilled s a model slot t in
      rw (find_spilled disk s a a model slot t u works e refl (inl refl)) (
        rw (spill-spilled disk s a model slot t works e) (
          get-evict s.hot a a t slot e (inl refl),
          ground (arith, get-insert same a a (meta ps model a (length slot.bytes) t ssd) s.index),
          refl,
          (promoted_lem down a slot.bytes u u).0,
          (promoted_lem down a slot.bytes u u).1,
        ))

  -- Two addresses with one file name: after one is spilled, a lookup of the other, not in RAM,
  -- returns the bytes of the first.
  spill-mixes :
      (disk : Disk ps) (s : Store ps) (a b : Address) (model : List ℕ) (slot : RamSlot) (t u : ℕ)
      → Works disk
      → get same a s.hot.inner ≡ some slot
      → path_for b ≡ path_for a
      → get same b s.hot.inner ≡ none
      → (lookup_with_promote ps disk (spill_to_ssd ps disk s a model t).1 b u).0 ≡ some slot.bytes
  spill-mixes disk s a b model slot t u works e path gone =
      rw (find_spilled disk s a b model slot t u works e path (inr gone)) refl

  dropped :
      (disk : Disk ps) (s : Store ps) (b : Address)
      → Works disk
      → (count_eviction ps (forget ps disk s b)).index ≡ remove same b s.index
  unfolding forget
  dropped disk s b works = rw (works removes (path_for b)) refl

  expire-kept :
      (disk : Disk ps) (now ttl : ℕ) (s : Store ps) (a b : Address) (m x : BlockMeta)
      → Works disk
      → get same a
          (if expired ps now ttl x then count_eviction ps (forget ps disk s b) else s).index
        ≡ some m
      → (get same a s.index ≡ some m) × (a ≡ b → expired ps now ttl x ≡ false)
  expire-kept disk now ttl s a b m x works g = elim (Bool-cases (expired ps now ttl x)) [
    | inl e ↦ ground (arith, g, e, dropped disk s b works, get-remove same b a s.index)
    | inr e ↦ (ground (arith, g, e), λ _. e)
  ]

  expire_all_lem :
      (disk : Disk ps) (now ttl : ℕ) (entries : List (Address × BlockMeta)) (s : Store ps)
      (a : Address) (m : BlockMeta)
      → Works disk
      → get same a (expire_all ps disk now ttl entries s).index ≡ some m
      → (get same a s.index ≡ some m) × (get same a entries ≡ some m → expired ps now ttl m ≡ false)
  unfolding expire_all get
  expire_all_lem disk now ttl [] s a m works g = (g, λ h. cc)
  expire_all_lem disk now ttl ((b, x) ∷ entries) s a m works g =
      let rest = expire_all_lem disk now ttl entries _ a m works g in
      let one = expire-kept disk now ttl s a b m x works rest.0 in
      (one.0, ground (arith, one.1, rest.1))

  -- After a pass of the evictor with a time to live above zero, while files can be removed, no block
  -- of the index is expired: any block still indexed is not on SSD, or was seen within the time to
  -- live.
  evict_pass-expired :
      (disk : Disk ps) (s : Store ps) (target ttl now : ℕ) (a : Address) (m : BlockMeta)
      → Works disk
      → 0 < ttl
      → get same a (evict_pass ps disk s target ttl now).index ≡ some m
      → expired ps now ttl m ≡ false
  unfolding evict_pass
  evict_pass-expired disk s target ttl now a m works positive g =
      let s' : Store ps =
        if ltb 0 s.hot.capacity && ltb target s.hot.used
        then spill_loop ps disk now target (suc s.hot.used) s
        else s in
      let swept : get same a (expire_all ps disk now ttl s'.index s').index ≡ some m =
        ground (arith, g, positive) in
      let kept = expire_all_lem disk now ttl s'.index s' a m works swept in kept.1 kept.0
