-- ===== src/Router/Admission.antt =====
-- The slot pool of one (model, role), rust/services/cgn-router/src/admission.rs. Each operation is
-- one hold of the pool's lock. A parked request is named by its oneshot channel; `live w` says
-- whether the receiver of `w` still exists when the slot is sent to it.
pub mod Invariant
pub mod Release
use cognitora_inference.Prelude.{
  ℕ, suc, zero, ◌+◌, ◌-◌, Bool, true, false, ◌&&◌, ◌||◌, not, Option, none, some, List, [], ◌∷◌,
  ◌++◌, ltb, leb, ◌==◌, if◌then◌else◌, length,
}
use cognitora_inference.Prelude.Maps.{get, insert, remove}

-- `max_queue` and `wait_queue_per_tenant` of the router's `[admission]` section.
pub record Limits : Type 0 where
  pub max_queue : ℕ
  pub wait_queue_per_tenant : ℕ

pub data Rejected : Type 0 where
  queue_full wait_timeout : Rejected

pub record PoolInner {ℓ} (T : Type ℓ) : Type ℓ where
  pub inflight : ℕ
  pub waiting : List (T × List ℕ)
  pub turn : List T

abbrev pub is_empty {ℓ} : {A : Type ℓ} → List A → Bool
is_empty [] = true
is_empty (x ∷ xs) = false

abbrev pub or_empty {ℓ} : {A : Type ℓ} → Option (List A) → List A
or_empty none = []
or_empty (some xs) = xs

-- What the locked part of `admit` decides.
pub data Decision {ℓ} (T : Type ℓ) : Type ℓ where
  admitted refused parked : PoolInner T → Decision T

abbrev pub after {ℓ} : {T : Type ℓ} → Decision T → PoolInner T
after (admitted p) = p
after (refused p) = p
after (parked p) = p

module _ {T : Type 0} (dec : Discrete T) where
  unfoldable pub has_slot : Limits → PoolInner T → Bool
  has_slot limits p = ltb p.inflight limits.max_queue && is_empty p.turn

  unfoldable pub try_admit : Limits → PoolInner T → Option (PoolInner T)
  try_admit limits p =
      if leb limits.max_queue p.inflight || not (is_empty p.turn)
      then none
      else some (record p { inflight = p.inflight + 1 })

  abbrev pub queue_of : T → PoolInner T → List ℕ
  queue_of tenant p = or_empty (get dec tenant p.waiting)

  unfoldable pub park : Limits → T → ℕ → PoolInner T → Decision T
  unfolding has_slot
  park limits tenant w p =
      let queue = queue_of tenant p in
      if has_slot limits p
      then admitted (record p { inflight = p.inflight + 1 })
      else if leb limits.wait_queue_per_tenant (length queue)
      then refused
          (if is_empty queue then record p { waiting = remove dec tenant p.waiting } else p)
      else parked (record p {
        waiting = insert dec tenant (queue ++ w ∷ []) p.waiting;
        turn = if length queue == 0 then p.turn ++ tenant ∷ [] else p.turn;
      })

  -- Take the first waiter of the tenant at the front, whose queue is `queue`; the tenant goes to
  -- the back while it has more.
  unfoldable pub take_turn : T → List T → List ℕ → PoolInner T → Option ℕ × PoolInner T
  take_turn tenant rest [] p =
      (none, record p { waiting = remove dec tenant p.waiting; turn = rest })
  take_turn tenant rest (w ∷ []) p =
      (some w, record p { waiting = remove dec tenant p.waiting; turn = rest })
  take_turn tenant rest (w ∷ w' ∷ ws) p = (
    some w,
    record p { waiting = insert dec tenant (w' ∷ ws) p.waiting; turn = rest ++ tenant ∷ [] },
  )

  abbrev pub is_live : (ℕ → Bool) → Option ℕ → Bool
  is_live live none = false
  is_live live (some w) = live w

  -- The loop of `release`, over what is left of `turn`: the waiter that got the slot, if any did.
  -- Every round takes a tenant without a queue off `turn`, or a waiter out of a queue.
  unfoldable pub release_loop : ℕ → (ℕ → Bool) → List T → PoolInner T → Option ℕ × PoolInner T
  unfolding take_turn
  release_loop zero live turn p = (none, p)
  release_loop (suc fuel) live [] p = (none, record p { inflight = p.inflight - 1; turn = [] })
  release_loop (suc fuel) live (tenant ∷ rest) p = elim (get dec tenant p.waiting) [
    | none ↦ release_loop fuel live rest (record p { turn = rest })
    | some queue ↦
        let (waiter, p') = take_turn tenant rest queue p in
        let again = release_loop fuel live p'.turn p' in
        if is_live live waiter then (waiter, p') else again
  ]

  unfoldable pub queued : List (T × List ℕ) → ℕ
  queued [] = 0
  queued ((t, q) ∷ m) = length q + queued m

  unfoldable pub release : (ℕ → Bool) → PoolInner T → Option ℕ × PoolInner T
  unfolding release_loop queued
  release live p = release_loop (suc (length p.turn + queued p.waiting)) live p.turn p

-- How the wait of a parked request ends: its slot came, its sender was dropped, or the timer fired,
-- with whether a slot had come by the time the receiver was closed.
pub data Wake : Type 0 where
  granted : Wake
  dropped : Wake
  timed_out : Bool → Wake

-- The permit, or why there is none.
unfoldable pub wake_up : Wake → Option Rejected
wake_up granted = none
wake_up dropped = some queue_full
wake_up (timed_out arrived) = if arrived then none else some wait_timeout
