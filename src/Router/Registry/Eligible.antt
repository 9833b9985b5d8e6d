-- ===== src/Router/Registry/Eligible.antt =====
-- Which nodes the registry of rust/services/cgn-router/src/cluster/registry.rs offers.
use cognitora_inference.Prelude.{
  ℕ, ◌+◌, ◌≡◌, refl, sym, ◌∙◌, ap, Bool, true, false, Option, none, some, List, [], ◌∷◌,
  if◌then◌else◌, arith, Option-cases, inl, inr,
}
use mathlib.Core.Logic.{ite}
use cognitora_inference.Prelude.Maps.{
  get, insert, remove, get-insert, Unique, insert-Unique, remove-Unique,
}
use cognitora_inference.Router.Registry.{
  NodeRole, Fleet, NodeEntry, Registry, upsert, look_up, forget, set_cordon, eligible, nodes_for,
}

module _ (fleet : Fleet) where
  open fleet use {NodeId, ids, Model}

  abbrev pub Node : Type 0
  Node = NodeEntry fleet

  -- Every node stands once, under its own id.
  abbrev pub Keyed : Registry fleet → Type 0
  Keyed [] = Unit
  Keyed ((id, n) ∷ registry) = (n.node_id ≡ id) × Keyed registry

  pub record IsValid (registry : Registry fleet) : Type 0 where
    pub unique : Unique ids registry
    pub keyed : Keyed registry

  -- How often a node id is offered.
  abbrev pub offers : NodeId → List Node → ℕ
  offers id [] = 0
  offers id (n ∷ nodes) = ite (ids n.node_id id) 1 0 + offers id nodes

  abbrev pub is_offered : Option Node → NodeRole → Option Model → Bool
  is_offered none role model = false
  is_offered (some n) role model = eligible fleet role model n

  offers-absent :
      (id : NodeId) (registry : Registry fleet) (role : NodeRole) (model : Option Model)
      → Keyed registry
      → get ids id registry ≡ none
      → offers id (nodes_for fleet registry role model) ≡ 0
  unfolding nodes_for get
  offers-absent id [] role model k g = refl
  offers-absent id ((i, n) ∷ registry) role model (e, k) g =
      ground (arith, offers-absent id registry role model k, e, g)

  -- A valid registry offers a node exactly once if it is registered and eligible, and not at all
  -- otherwise.
  pub nodes_for-eligible :
      (registry : Registry fleet) (id : NodeId) (role : NodeRole) (model : Option Model)
      → IsValid registry
      → offers id (nodes_for fleet registry role model)
        ≡ (if is_offered (look_up fleet registry id) role model then 1 else 0)
  unfolding nodes_for look_up get
  nodes_for-eligible [] id role model v = refl
  nodes_for-eligible ((i, n) ∷ registry) id role model v =
      let rest =
        nodes_for-eligible registry id role model
          (record { unique = v.unique.1; keyed = v.keyed.1 }) in
      let absent = offers-absent i registry role model v.keyed.1 v.unique.0 in
      elim (ids i id) [
        | yes p ↦ ground (
          arith,
          rest,
          p,
          v.keyed.0,
          v.unique.0,
          absent,
          ap (λ x. offers x (nodes_for fleet registry role model)) p,
        )
        | no q ↦ ground (arith, rest, q, v.keyed.0)
      ]

  insert-Keyed :
      (id : NodeId) (n : Node) (registry : Registry fleet)
      → n.node_id ≡ id
      → Keyed registry
      → Keyed (insert ids id n registry)
  unfolding insert
  insert-Keyed id n [] e k = (e, tt)
  insert-Keyed id n ((i, m) ∷ registry) e k = ground (arith, insert-Keyed id n registry e k.1, k, e)

  get-Keyed :
      (id : NodeId) (registry : Registry fleet) {n : Node}
      → Keyed registry
      → get ids id registry ≡ some n
      → n.node_id ≡ id
  unfolding get
  get-Keyed id [] k g = absurd (ground arith)
  get-Keyed id ((i, m) ∷ registry) {n} k g = elim (ids i id) [
    | yes p ↦ ground (arith, g, k, p)
    | no q ↦ get-Keyed id registry {n = n} k.1 (ground (arith, g, q))
  ]

  pub upsert-IsValid :
      (registry : Registry fleet) (n : Node) → IsValid registry → IsValid (upsert fleet registry n)
  unfolding upsert
  upsert-IsValid registry n v = record {
    unique = insert-Unique ids n.node_id n registry v.unique;
    keyed = insert-Keyed n.node_id n registry refl v.keyed;
  }

  remove-Keyed :
      (id : NodeId) (registry : Registry fleet) → Keyed registry → Keyed (remove ids id registry)
  unfolding remove
  remove-Keyed id [] k = tt
  remove-Keyed id ((i, m) ∷ registry) k = ground (arith, remove-Keyed id registry k.1, k)

  pub forget-IsValid :
      (registry : Registry fleet) (id : NodeId)
      → IsValid registry
      → IsValid (forget fleet registry id)
  unfolding forget
  forget-IsValid registry id v = record {
    unique = remove-Unique ids id registry v.unique;
    keyed = remove-Keyed id registry v.keyed;
  }

  pub set_cordon-IsValid :
      (registry : Registry fleet) (id : NodeId) (cordoned : Bool)
      → IsValid registry
      → IsValid (set_cordon fleet registry id cordoned)
  unfolding set_cordon
  set_cordon-IsValid registry id cordoned v = elim (Option-cases (get ids id registry)) [
    | inl g ↦ rw (g, set_cordon) v
    | inr (n, g) ↦
        rw (g, set_cordon)
          (record {
            unique = insert-Unique ids id (record n { cordoned = cordoned }) registry v.unique;
            keyed =
                insert-Keyed id (record n { cordoned = cordoned }) registry
                  (get-Keyed id registry v.keyed g) v.keyed;
          })
  ]

  look_up-set_cordon :
      (registry : Registry fleet) (id other : NodeId) (role : NodeRole) (model : Option Model)
      → is_offered (look_up fleet (set_cordon fleet registry id true) other) role model
        ≡ ite (ids id other) false (is_offered (look_up fleet registry other) role model)
  unfolding set_cordon look_up eligible
  look_up-set_cordon registry id other role model = elim (Option-cases (get ids id registry)) [
    | inl g ↦
        rw (g, set_cordon)
          (elim (ids id other)
            as (λ c.
              is_offered (get ids other registry) role model
              ≡ ite c false (is_offered (get ids other registry) role model)) [
                | yes p ↦
                    (let h : get ids other registry ≡ none =
                        ap (λ z. get ids z registry) (sym p) ∙ g in
                      rw h refl)
                | no q ↦ refl
              ])
    | inr (n, g) ↦
        let n' : Node = record n { cordoned = true } in
        rw (g, set_cordon)
          (rw (get-insert {V = Node} ids id other n' registry)
            (elim (ids id other)
              as (λ c.
                is_offered (ite c (some n') (get ids other registry)) role model
                ≡ ite c false (is_offered (get ids other registry) role model)) [
                  | yes p ↦ refl
                  | no q ↦ refl
                ]))
  ]

  -- Cordoning a node of a valid registry takes it out of every offer, and changes no offer of another
  -- node.
  nodes_for-set_cordon :
      (registry : Registry fleet) (id other : NodeId) (role : NodeRole) (model : Option Model)
      → IsValid registry
      → offers other (nodes_for fleet (set_cordon fleet registry id true) role model)
        ≡ ite (ids id other) 0 (offers other (nodes_for fleet registry role model))
  nodes_for-set_cordon registry id other role model v = ground (
    arith,
    nodes_for-eligible (set_cordon fleet registry id true) other role model
        (set_cordon-IsValid registry id true v),
    nodes_for-eligible registry other role model v,
    look_up-set_cordon registry id other role model,
  )
