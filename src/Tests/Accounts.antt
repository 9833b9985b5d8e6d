-- ===== src/Tests/Accounts.antt =====
-- The usage ledger and the node registry of rust/services/cgn-router, and the client address of
-- rust/libraries/cgn-ratelimit, at concrete inputs.
use cognitora_inference.Prelude.{
  if◌then◌else◌, ◌==◌, Option, ℕ, ◌%◌, ◌<◌, ◌≡◌, ◌↔◌, refl, true, false, none, some, List, [], ◌∷◌,
  arith, ℕ_discrete,
}
use cognitora_inference.Prelude.Maps.{get, insert}
use cognitora_inference.Router.Usage.{Principal, u64, check_at, report}
use cognitora_inference.Router.Usage.Charges.{
  Charge, ledger, spent, spent_in, IsOrdered, check_at-spent,
}
use cognitora_inference.Router.ClientIp.{Parser, IpAddr, v4, Cidr, shifted, is_trusted, client_ip}
use cognitora_inference.Router.ClientIp.Hops.{client_ip-untrusted}
use cognitora_inference.Router.Registry.{Fleet, NodeEntry, Registry}
use cognitora_inference.Router.Registry.Eligible.{IsValid}

-- Two charges of key 1 in the first minute and one in the second, newest first.
abbrev charges : List (Charge ℕ)
charges =
    record { subject = 1; prompt = 7; completion = 3; time = 70 }
    ∷ record { subject = 2; prompt = 1; completion = 1; time = 50 }
    ∷ record { subject = 1; prompt = 20; completion = 5; time = 10 }
    ∷ []

charges-IsOrdered : IsOrdered ℕ_discrete 80 charges
charges-IsOrdered = (omega arith, (omega arith, (omega arith, tt)))

abbrev key : Principal ℕ
key = record { subject = 1; tpm = some 30; budget = some 1000 }

report-charges : report ℕ_discrete (ledger ℕ_discrete charges) key 80 ≡ (35, 10)
unfolding report ledger get insert ℕ_discrete
report-charges = refl

check_at-spent_example :
    (check_at ℕ_discrete (ledger ℕ_discrete charges) key 80 ≡ none)
    ↔ ((spent ℕ_discrete 1 charges % u64 < 1000) × (spent_in ℕ_discrete 1 1 charges % u64 < 30))
check_at-spent_example =
    check_at-spent ℕ_discrete charges 1 30 1000 80 (omega arith) (omega arith) charges-IsOrdered

-- 10.0.0.0/8.
abbrev internal : List Cidr
internal = record { net = v4 167772160; bits = 8 } ∷ []

-- The letters a and b are the addresses 10.0.0.2 and 203.0.113.1, a blank is trimmed.
abbrev read_letter : List ℕ → Option IpAddr
read_letter [] = none
read_letter (c ∷ s) =
    if c == b'a' then some (v4 167772162) else if c == b'b' then some (v4 3405803777) else none

abbrev trim_start : List ℕ → List ℕ
trim_start [] = []
trim_start (c ∷ s) = if c == b' ' then s else c ∷ s

abbrev letters : Parser
letters = record { trim = trim_start; parse = read_letter }

-- "a,b, a": the leftmost entry is forged.
client_ip-untrusted_example :
    client_ip letters
      (some (v4 167772161))
      (some (b'a' ∷ b',' ∷ b'b' ∷ b',' ∷ b' ' ∷ b'a' ∷ []))
      (is_trusted internal)
    ≡ some (v4 3405803777)
unfolding is_trusted shifted
client_ip-untrusted_example =
    client_ip-untrusted letters (is_trusted internal) (v4 167772161) (v4 3405803777) (b'b' ∷ [])
      (b'a' ∷ []) ((b' ' ∷ b'a' ∷ []) ∷ []) refl (((v4 167772162, refl, refl), tt))
      (refl, (refl, tt)) refl refl

abbrev fleet : Fleet
fleet = record { NodeId = ℕ; ids = ℕ_discrete; Model = ℕ; models = ℕ_discrete; Info = ℕ }

abbrev node : ℕ → ℕ → NodeEntry fleet
node id role = record {
  node_id = id;
  role = role;
  model = some 9;
  cordoned = false;
  ready = true;
  draining = false;
  adapters = 5 ∷ [];
  info = 0;
}

abbrev registry : Registry fleet
registry = (1, node 1 2) ∷ (2, node 2 3) ∷ []

registry-IsValid : IsValid fleet registry
unfolding get ℕ_discrete
registry-IsValid = record { unique = (refl, (refl, tt)); keyed = (refl, (refl, tt)) }
