-- ===== src/Kv/Ram/Laws.antt =====
-- The byte count of `RamTier`, and the order in which it gives blocks up,
-- rust/libraries/cgn-kv/src/tier.rs.
use cognitora_inference.Prelude.{
  ℕ, ◌+◌, ◌%◌, ◌≤◌, ◌≡◌, refl, ap, Option, none, some, List, [], ◌∷◌, arith, leb, length,
  Bool-cases, inl, inr, Option-cases,
}
use mathlib.Core.List.{Perm}
use mathlib.Core.List.Perm
use cognitora_inference.Prelude.Maps.{get, insert, remove, Unique, insert-Unique, remove-Unique}
use cognitora_inference.Kv.Ram.{
  RamSlot, RamTier, u64, new, put, evict, get_bytes, fresh_slot, sort_by_age, insert_by_age,
}

abbrev pub size_of : Option RamSlot → ℕ
size_of none = 0
size_of (some s) = length s.bytes

module _ {A : Type 0} (dec : Discrete A) where
  abbrev pub total : List (A × RamSlot) → ℕ
  total [] = 0
  total ((a, s) ∷ m) = length s.bytes + total m

  -- The counter is the sum of the block sizes, as far as 64 bits hold it.
  pub record IsValid (t : RamTier A) : Type 0 where
    pub counted : t.used ≡ total t.inner % u64
    pub unique : Unique dec t.inner

  total-insert :
      (a : A) (s : RamSlot) (m : List (A × RamSlot))
      → total (insert dec a s m) + size_of (get dec a m) ≡ total m + length s.bytes
  unfolding get insert
  total-insert a s [] = omega arith
  total-insert a s ((b, w) ∷ m) = ground (arith, total-insert a s m)

  remove_absent : (a : A) (m : List (A × RamSlot)) → get dec a m ≡ none → remove dec a m ≡ m
  unfolding get remove
  remove_absent a [] h = refl
  remove_absent a ((b, w) ∷ m) h = ground (arith, remove_absent a m)

  total-remove :
      (a : A) (m : List (A × RamSlot))
      → Unique dec m
      → total (remove dec a m) + size_of (get dec a m) ≡ total m
  unfolding get remove
  total-remove a [] u = omega arith
  total-remove a ((b, w) ∷ m) u = ground (arith, total-remove a m u.1, remove_absent b m u.0)

  put-IsValid :
      (t : RamTier A) (a : A) (bytes : List ℕ) (now : ℕ)
      → IsValid t
      → IsValid (put dec t a bytes now).1
  unfolding put
  put-IsValid t a bytes now v = elim (Option-cases (get dec a t.inner)) [
    | inl e ↦
        rw (e, put)
          (record {
            counted =
                omega (
                  arith,
                  total-insert a (fresh_slot dec bytes now) t.inner,
                  ap size_of e,
                  v.counted,
                );
            unique = insert-Unique dec a (fresh_slot dec bytes now) t.inner v.unique;
          })
    | inr (s, e) ↦
        rw (e, put)
          (record {
            counted =
                omega (
                  arith,
                  total-insert a (fresh_slot dec bytes now) t.inner,
                  ap size_of e,
                  v.counted,
                );
            unique = insert-Unique dec a (fresh_slot dec bytes now) t.inner v.unique;
          })
  ]

  evict-IsValid : (t : RamTier A) (a : A) → IsValid t → IsValid (evict dec t a)
  unfolding evict
  evict-IsValid t a v = elim (Option-cases (get dec a t.inner)) [
    | inl e ↦ rw (e, evict) v
    | inr (s, e) ↦
        rw (e, evict)
          (record {
            counted = omega (arith, total-remove a t.inner v.unique, ap size_of e, v.counted);
            unique = remove-Unique dec a t.inner v.unique;
          })
  ]

  get_bytes-IsValid :
      (t : RamTier A) (a : A) (now : ℕ) → IsValid t → IsValid (get_bytes dec t a now).1
  unfolding get_bytes
  get_bytes-IsValid t a now v = elim (Option-cases (get dec a t.inner)) [
    | inl e ↦ rw (e, get_bytes) v
    | inr (s, e) ↦
        rw (e, get_bytes)
          (record {
            counted =
                omega (
                  arith,
                  total-insert a (record s { last = now }) t.inner,
                  ap size_of e,
                  v.counted,
                );
            unique = insert-Unique dec a (record s { last = now }) t.inner v.unique;
          })
  ]

  pub data Call : Type 0 where
    puts : A → List ℕ → ℕ → Call
    gets : A → ℕ → Call
    evicts : A → Call

  unfoldable pub run : List Call → RamTier A → RamTier A
  run [] t = t
  run (puts a bytes now ∷ cs) t = run cs (put dec t a bytes now).1
  run (gets a now ∷ cs) t = run cs (get_bytes dec t a now).1
  run (evicts a ∷ cs) t = run cs (evict dec t a)

  pub run-IsValid : (cs : List Call) (t : RamTier A) → IsValid t → IsValid (run cs t)
  unfolding run
  run-IsValid [] t v = v
  run-IsValid (puts a bytes now ∷ cs) t v =
      run-IsValid cs (put dec t a bytes now).1 (put-IsValid t a bytes now v)
  run-IsValid (gets a now ∷ cs) t v =
      run-IsValid cs (get_bytes dec t a now).1 (get_bytes-IsValid t a now v)
  run-IsValid (evicts a ∷ cs) t v = run-IsValid cs (evict dec t a) (evict-IsValid t a v)

  -- After any calls on a new tier the byte counter is the number of bytes that the resident blocks
  -- hold, modulo 2 ^ 64, and no address is resident twice.
  run-new-IsValid : (capacity : ℕ) (cs : List Call) → IsValid (run cs (new dec capacity))
  unfolding new
  run-new-IsValid capacity cs =
      run-IsValid cs (new dec capacity) (record { counted = omega arith; unique = tt })

abbrev pub AtLeast : {A : Type 0} → ℕ → List (A × ℕ) → Type 0
AtLeast n [] = Unit
AtLeast n ((a, m) ∷ es) = (n ≤ m) × AtLeast n es

abbrev pub IsSorted : {A : Type 0} → List (A × ℕ) → Type 0
IsSorted [] = Unit
IsSorted ((a, n) ∷ es) = AtLeast n es × IsSorted es

AtLeast-mono : {A : Type 0} (m n : ℕ) (es : List (A × ℕ)) → m ≤ n → AtLeast n es → AtLeast m es
AtLeast-mono m n [] h k = tt
AtLeast-mono m n ((a, x) ∷ es) h (k, ks) = (omega arith, AtLeast-mono m n es h ks)

insert_by_age-AtLeast :
    {A : Type 0} (k n : ℕ) (a : A) (es : List (A × ℕ))
    → k ≤ n
    → AtLeast k es
    → AtLeast k (insert_by_age (a, n) es)
unfolding insert_by_age
insert_by_age-AtLeast k n a [] h ks = (h, tt)
insert_by_age-AtLeast k n a ((b, m) ∷ es) h (km, ks) = elim (Bool-cases (leb n m)) [
  | inl e ↦ rw e (h, (km, ks))
  | inr e ↦ rw e (km, insert_by_age-AtLeast k n a es h ks)
]

insert_by_age-IsSorted :
    {A : Type 0} (a : A) (n : ℕ) (es : List (A × ℕ))
    → IsSorted es
    → IsSorted (insert_by_age (a, n) es)
unfolding insert_by_age
insert_by_age-IsSorted a n [] s = (tt, tt)
insert_by_age-IsSorted a n ((b, m) ∷ es) (low, s) = elim (Bool-cases (leb n m)) [
  | inl e ↦ let nm : n ≤ m = ground arith in rw e ((nm, AtLeast-mono n m es nm low), (low, s))
  | inr e ↦
      let mn : m ≤ n = ground arith in
      rw e (insert_by_age-AtLeast m n a es mn low, insert_by_age-IsSorted a n es s)
]

insert_by_age-perm :
    {A : Type 0} (e : A × ℕ) (es : List (A × ℕ)) → Perm (insert_by_age e es) (e ∷ es)
unfolding insert_by_age
insert_by_age-perm e [] = Perm.refl (e ∷ [])
insert_by_age-perm (a, n) ((b, m) ∷ es) = elim (Bool-cases (leb n m)) [
  | inl q ↦ rw q (Perm.refl ((a, n) ∷ (b, m) ∷ es))
  | inr q ↦
      rw q
        (Perm.trans (Perm.cons (b, m) (insert_by_age-perm (a, n) es)) (Perm.swap (a, n) (b, m) es))
]

-- The order in which blocks are given up is by age: the entries of the tier, rearranged so that
-- none stands before one touched earlier.
sort_by_age-IsSorted :
    {A : Type 0} (es : List (A × ℕ)) → IsSorted (sort_by_age es) × Perm (sort_by_age es) es
unfolding sort_by_age
sort_by_age-IsSorted [] = (tt, Perm.refl [])
sort_by_age-IsSorted (e ∷ es) =
    let (s, p) = sort_by_age-IsSorted es in
    (
      insert_by_age-IsSorted e.0 e.1 (sort_by_age es) s,
      Perm.trans (insert_by_age-perm e (sort_by_age es)) (Perm.cons e p),
    )
