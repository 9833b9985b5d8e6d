-- ===== src/Router/Usage/Charges.antt =====
-- What the ledger of rust/services/cgn-router/src/usage.rs knows after a history of charges.
use cognitora_inference.Prelude.{
  ℕ, ◌+◌, ◌/◌, ◌%◌, ◌≤◌, ◌<◌, ◌≡◌, refl, ◌↔◌, none, some, List, [], ◌∷◌, ◌==◌, if◌then◌else◌, ap,
  arith, Option-cases, Bool-cases, inl, inr,
}
use mathlib.Core.Logic.{ite}
use cognitora_inference.Prelude.Maps.{get, get-insert}
use cognitora_inference.Router.Usage.{
  Entry, Principal, u64, minute_secs, entry_or_default, over_budget, over_rate, check_entry,
  charged, check_at, charge_at, report,
}

pub record Charge (S : Type 0) : Type 0 where
  pub subject : S
  pub prompt : ℕ
  pub completion : ℕ
  pub time : ℕ

module _ {S : Type 0} (dec : Discrete S) where
  -- The ledger after the charges of a history, whose newest charge is its head.
  unfoldable pub ledger : List (Charge S) → List (S × Entry)
  unfolding charge_at
  ledger [] = []
  ledger (c ∷ history) = charge_at dec (ledger history) c.subject c.prompt c.completion c.time

  -- The tokens charged to a subject, ever and in one minute.
  unfoldable pub spent : S → List (Charge S) → ℕ
  spent s [] = 0
  spent s (c ∷ history) = ite (dec c.subject s) (c.prompt + c.completion) 0 + spent s history

  unfoldable pub spent_in : S → ℕ → List (Charge S) → ℕ
  spent_in s minute [] = 0
  spent_in s minute (c ∷ history) =
      ite (dec c.subject s) (if c.time / minute_secs == minute then c.prompt + c.completion else 0)
        0
      + spent_in s minute history

  -- The clock does not go back.
  abbrev pub IsOrdered : ℕ → List (Charge S) → Type 0
  IsOrdered now [] = Unit
  IsOrdered now (c ∷ history) = (c.time ≤ now) × IsOrdered c.time history

  abbrev pub entry_of : S → List (S × Entry) → Entry
  entry_of s entries = entry_or_default (get dec s entries)

  charge-entry :
      (entries : List (S × Entry)) (s u : S) (prompt completion time : ℕ)
      → entry_of u (charge_at dec entries s prompt completion time)
        ≡ ite
            (dec s u)
            (charged (entry_of u entries) (prompt + completion) time)
            (entry_of u entries)
  unfolding charge_at
  charge-entry entries s u prompt completion time =
      let inserted =
        get-insert {V = Entry} dec s u (charged (entry_of s entries) (prompt + completion) time)
          entries in
      elim (dec s u) [
        | yes p ↦ ground (
          arith,
          inserted,
          p,
          ap (λ z. charged (entry_of z entries) (prompt + completion) time) p,
        )
        | no n ↦ ground (arith, inserted, n)
      ]

  ledger-total :
      (history : List (Charge S)) (s : S)
      → (entry_of s (ledger history)).total ≡ spent s history % u64
  unfolding ledger spent charged get
  ledger-total [] s = omega arith
  ledger-total (c ∷ history) s =
      rw (charge-entry (ledger history) c.subject s c.prompt c.completion c.time)
        (ground (arith, ledger-total history s))

  IsOrdered-later :
      (t now : ℕ) (history : List (Charge S))
      → t ≤ now
      → IsOrdered t history
      → IsOrdered now history
  IsOrdered-later t now [] le o = tt
  IsOrdered-later t now (c ∷ history) le o = (omega (arith, o.0, le), o.1)

  spent_in-later :
      (s : S) (minute t : ℕ) (history : List (Charge S))
      → IsOrdered t history
      → t / minute_secs < minute
      → spent_in s minute history ≡ 0
  unfolding spent_in
  spent_in-later s minute t [] o lt = refl
  spent_in-later s minute t (c ∷ history) (le, o) lt =
      ground (arith, spent_in-later s minute c.time history o (omega arith))

  -- The window of an entry after a charge at `t`, seen at `now`; `at_t` and `at_now` are what was
  -- spent before in the two minutes.
  charged-window :
      (e : Entry) (tokens t now at_t at_now : ℕ)
      → t ≤ now
      → (if e.window_minute == t / minute_secs then e.window_tokens else 0) ≡ at_t % u64
      → (t / minute_secs ≡ now / minute_secs → at_t ≡ at_now)
      → (t / minute_secs < now / minute_secs → at_now ≡ 0)
      → (if (charged e tokens t).window_minute == now / minute_secs
          then (charged e tokens t).window_tokens
          else 0)
        ≡ ((if t / minute_secs == now / minute_secs then tokens else 0) + at_now) % u64
  unfolding charged
  charged-window e tokens t now at_t at_now le h same later =
      elim (Bool-cases (t / minute_secs == now / minute_secs)) [
        | inl q ↦
            let p : t / minute_secs ≡ now / minute_secs = ground (arith, q) in
            rw q (omega (arith, h, same p))
        | inr q ↦
            let lt : t / minute_secs < now / minute_secs = ground (arith, q, le) in
            rw q (omega (arith, later lt))
      ]

  ledger-window :
      (history : List (Charge S)) (s : S) (now : ℕ)
      → IsOrdered now history
      → (if (entry_of s (ledger history)).window_minute == now / minute_secs
          then (entry_of s (ledger history)).window_tokens
          else 0)
        ≡ spent_in s (now / minute_secs) history % u64
  unfolding ledger spent_in get
  ledger-window [] s now o = ground arith
  ledger-window (c ∷ history) s now (le, o) =
      let old = entry_of s (ledger history) in
      let new =
        charged-window old (c.prompt + c.completion) c.time now
          (spent_in s (c.time / minute_secs) history) (spent_in s (now / minute_secs) history) le
          (ledger-window history s c.time o) (λ q. ap (λ m. spent_in s m history) q)
          (spent_in-later s (now / minute_secs) c.time history o) in
      rw (charge-entry (ledger history) c.subject s c.prompt c.completion c.time)
        (elim (dec c.subject s)
          as (λ x.
            (if (ite x (charged old (c.prompt + c.completion) c.time) old).window_minute
                == now / minute_secs
              then (ite x (charged old (c.prompt + c.completion) c.time) old).window_tokens
              else 0)
            ≡ (ite x
                  (if c.time / minute_secs == now / minute_secs then c.prompt + c.completion else 0)
                  0
                + spent_in s (now / minute_secs) history)
              % u64) [
                | yes p ↦ new
                | no n ↦
                    ground
                      (arith, ledger-window history s now (IsOrdered-later c.time now history le o))
              ])

  -- While the clock does not go back, a report is what was spent: in all, and in the current minute,
  -- as far as 64 bits hold it.
  report-spent :
      (history : List (Charge S)) (p : Principal S) (now : ℕ)
      → IsOrdered now history
      → report dec (ledger history) p now
        ≡ (spent p.subject history % u64, spent_in p.subject (now / minute_secs) history % u64)
  unfolding report
  report-spent history p now o =
      let total = ledger-total history p.subject in
      let window = ledger-window history p.subject now o in
      elim (Option-cases (get dec p.subject (ledger history))) [
        | inl g ↦ ground (arith, total, window, g)
        | inr (e, g) ↦ ground (arith, total, window, g)
      ]

  -- While the clock does not go back, a key with both limits, each of them above zero, may go on
  -- exactly while what it has spent, modulo 2^64, is below its budget and what it has spent in this
  -- minute, modulo 2^64, is below its rate.
  pub check_at-spent :
      (history : List (Charge S)) (s : S) (tpm budget now : ℕ)
      → 0 < tpm
      → 0 < budget
      → IsOrdered now history
      → (check_at dec
            (ledger history)
            (record { subject = s; tpm = some tpm; budget = some budget })
            now
          ≡ none)
        ↔ ((spent s history % u64 < budget) × (spent_in s (now / minute_secs) history % u64 < tpm))
  unfolding check_at check_entry over_budget over_rate
  check_at-spent history s tpm budget now pt pb o =
      let total = ledger-total history s in
      let window = ledger-window history s now o in
      elim (Option-cases (get dec s (ledger history))) [
        | inl g ↦ ground (arith, total, window, g, pt, pb)
        | inr (e, g) ↦ ground (arith, total, window, g, pt, pb)
      ]
