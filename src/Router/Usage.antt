-- ===== src/Router/Usage.antt =====
-- The usage ledger of rust/services/cgn-router/src/usage.rs. A subject is any type with decidable
-- equality; the limits `tpm` and `budget` of a key's scopes are the fields of `Principal`. The sums
-- are those of a `u64`. The usage file is left out.
pub mod Charges
use cognitora_inference.Prelude.{
  ℕ, ◌+◌, ◌-◌, ◌/◌, ◌%◌, ◌^◌, Bool, true, false, ◌&&◌, Option, none, some, List, [], leb, ◌==◌,
  if◌then◌else◌, ◌||◌,
}
use cognitora_inference.Prelude.Maps.{get, insert}

abbrev pub u64 : ℕ
u64 = 2 ^ 64

abbrev pub minute_secs : ℕ
minute_secs = 60

-- The total, and the tokens charged in the window's minute.
pub record Entry : Type 0 where
  pub total : ℕ
  pub window_minute : ℕ
  pub window_tokens : ℕ

pub data Exceeded : Type 0 where
  budget_exhausted : (budget : ℕ) → Exceeded
  rate_exceeded : (tpm retry_after_secs : ℕ) → Exceeded

pub record Principal (S : Type 0) : Type 0 where
  pub subject : S
  pub tpm : Option ℕ
  pub budget : Option ℕ

abbrev pub fresh_entry : Entry
fresh_entry = record { total = 0; window_minute = 0; window_tokens = 0 }

abbrev pub entry_or_default : Option Entry → Entry
entry_or_default none = fresh_entry
entry_or_default (some e) = e

abbrev pub is_limited : Option ℕ → Bool
is_limited none = false
is_limited (some n) = true

unfoldable pub over_budget : Option ℕ → Entry → Bool
over_budget none e = false
over_budget (some budget) e = leb budget e.total

unfoldable pub over_rate : Option ℕ → Entry → ℕ → Bool
over_rate none e now = false
over_rate (some tpm) e now = e.window_minute == now / minute_secs && leb tpm e.window_tokens

abbrev number : Option ℕ → ℕ
number none = 0
number (some n) = n

unfoldable pub check_entry : Option ℕ → Option ℕ → Entry → ℕ → Option Exceeded
unfolding over_budget over_rate
check_entry tpm budget e now =
    if over_budget budget e
    then some (budget_exhausted (number budget))
    else if over_rate tpm e now
    then some (rate_exceeded (number tpm) (minute_secs - now % minute_secs))
    else none

-- The entry after a charge: a new minute starts a new window.
unfoldable pub charged : Entry → ℕ → ℕ → Entry
charged e tokens now =
    let minute = now / minute_secs in
    let before = if e.window_minute == minute then e.window_tokens else 0 in
    record {
      total = (e.total + tokens) % u64;
      window_minute = minute;
      window_tokens = (before + tokens) % u64;
    }

module _ {S : Type 0} (dec : Discrete S) where
  -- `none` when the request may go on.
  unfoldable pub check_at : List (S × Entry) → Principal S → ℕ → Option Exceeded
  unfolding check_entry
  check_at entries p now =
      if is_limited p.tpm || is_limited p.budget
      then (elim (get dec p.subject entries) [
        | none ↦ none
        | some e ↦ check_entry p.tpm p.budget e now
      ])
      else none

  unfoldable pub charge_at : List (S × Entry) → S → ℕ → ℕ → ℕ → List (S × Entry)
  unfolding charged
  charge_at entries subject prompt completion now =
      insert dec subject
        (charged (entry_or_default (get dec subject entries)) (prompt + completion) now) entries

  -- `report`: the total, and the tokens of the current minute.
  unfoldable pub report : List (S × Entry) → Principal S → ℕ → ℕ × ℕ
  report entries p now = elim (get dec p.subject entries) [
    | none ↦ (0, 0)
    | some e ↦ (e.total, if e.window_minute == now / minute_secs then e.window_tokens else 0)
  ]
