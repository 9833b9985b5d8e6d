-- ===== src/Tests/Exchange.antt =====
-- Block transfer, confirmed claims, authorization and the cascade at concrete inputs.
use cognitora_inference.Prelude.{
  ℕ, ◌≡◌, ◌+◌, ◌-◌, ◌*◌, refl, Bool, true, not, ◌&&◌, ◌||◌, some, none, is_some, Option, List, [],
  ◌∷◌, any, arith, ltb, ◌==◌, suc, zero, ℕ_discrete, ap,
}
use cognitora_inference.Kv.Store.{Paths, Store}
use cognitora_inference.Kv.Transport.{
  Op, pull, push, ack, Frame, Wire, ok, peer_push, peer_pull, ◌>>=◌,
}
use cognitora_inference.Kv.Transport.Frames.{IsCodec}
use cognitora_inference.Kv.Transport.Transfer.{block_of, peer_push-peer_pull}
use cognitora_inference.Agent.KvConfirmed
use cognitora_inference.Agent.KvConfirmed.{publish_kv_confirmed}
use cognitora_inference.Agent.KvConfirmed.Mirror.{Mirrors, publish_kv_confirmed-Mirrors}
use cognitora_inference.Router.Cascade
use cognitora_inference.Router.Cascade.{StepOutcome, Cascade, CascadeResult}
use mathlib.Core.List.{List-discrete}
use cognitora_inference.Router.Usage.{Entry, check_at}
use cognitora_inference.Router.Authz.{Text, Principal, api_key, star, has_scope, authorize, limited}
use cognitora_inference.Router.Authz.Models.{
  lets_model, is_model_scope, is_granted, authorize-granted,
}

abbrev paths : Paths
paths = record {
  Address = ℕ;
  same = ℕ_discrete;
  FilePath = ℕ;
  same_path = ℕ_discrete;
  layer_of = λ a. 0;
  path_for = λ a. a;
}

abbrev op_byte : Op → ℕ
op_byte pull = 0
op_byte push = 1
op_byte ack = 2

abbrev op_of : ℕ → Op
op_of zero = pull
op_of (suc zero) = push
op_of (suc (suc n)) = ack

-- A codec of three numbers.
abbrev serialize : Frame ℕ → List ℕ
serialize f = op_byte f.op ∷ f.addr ∷ f.body_len ∷ []

abbrev deserialize : List ℕ → Option (Frame ℕ)
deserialize (o ∷ a ∷ n ∷ []) = some (record { op = op_of o; addr = a; body_len = n })
deserialize _ = none

abbrev wire : Wire
wire = record { paths = paths; serialize = serialize; deserialize = deserialize }

op_of-op_byte : (o : Op) → op_of (op_byte o) ≡ o
op_of-op_byte pull = refl
op_of-op_byte push = refl
op_of-op_byte ack = refl

wire-IsCodec : IsCodec wire
wire-IsCodec = record {
  round_trip = λ f.
      ap (λ o. some (record { op = o; addr = f.addr; body_len = f.body_len })) (op_of-op_byte f.op);
  short = λ f. omega arith;
}

abbrev store : Store paths
store = record {
  hot = record { inner = []; capacity = 100; used = 0 };
  files = [];
  index = [];
  stats = record { hits = 0; misses = 0; evictions = 0; spills = 0 };
}

peer_push-peer_pull_example :
    block_of wire (peer_push wire store 1 5 (10 ∷ 20 ∷ []) >>= λ s. peer_pull wire s 2 5)
    ≡ ok (10 ∷ 20 ∷ [])
peer_push-peer_pull_example = peer_push-peer_pull wire store 1 2 5 (10 ∷ 20 ∷ []) wire-IsCodec

-- The store refuses to take key 9.
abbrev kv : KvConfirmed.ClaimStore
kv = record {
  Digest = ℕ;
  digests = ℕ_discrete;
  is_digest = λ d. ltb d 100;
  puts = λ d. not (d == 9);
  deletes = λ d. true;
}

abbrev low : ℕ → ℕ → Bool
low free total = ltb (free + 20) total

-- Under pressure, with a digest twice, one that is no digest, and one that the store refuses.
publish_kv_confirmed-Mirrors_example :
    Mirrors kv (1 ∷ 2 ∷ []) (publish_kv_confirmed kv low 1 1000 (1 ∷ 2 ∷ []) (3 ∷ 3 ∷ 200 ∷ 4 ∷ []))
unfolding ℕ_discrete
publish_kv_confirmed-Mirrors_example =
    publish_kv_confirmed-Mirrors kv low 1 1000 (1 ∷ 2 ∷ []) (3 ∷ 3 ∷ 200 ∷ 4 ∷ []) (λ k. refl)
      (refl, (refl, tt))

abbrev models : Cascade.Models
models = record { Model = ℕ; no_model = 0; Text = ℕ; no_text = 0; Logprob = ℕ; zero_logprob = 0 }

-- A model answers with its own number as its confidence.
abbrev ask : ℕ → ℕ → StepOutcome models
ask n model = record { text = model; logprob = model; tokens = 8; finish = 0 }

abbrev cascade : Cascade models
cascade = record { steps = 3 ∷ 7 ∷ 9 ∷ []; is_low = λ p. ltb p 5 }

second_answers : (Cascade.run models cascade ask).model_used ≡ 7
unfolding Cascade.run
second_answers = refl

abbrev texts : Discrete Text
texts = List-discrete ℕ_discrete

-- Only two digits and fewer are read as numbers here.
abbrev parse_u64 : Text → Option ℕ
parse_u64 (a ∷ []) = some (a - 48)
parse_u64 (a ∷ b ∷ []) = some ((a - 48) * 10 + (b - 48))
parse_u64 _ = none

-- A caller "k" with the scopes "chat" and "model:m*", and a budget of 50.
abbrev chat : Text
chat = 99 ∷ 104 ∷ 97 ∷ 116 ∷ []

abbrev caller : Principal
caller = record {
  subject = 107 ∷ [];
  scopes =
      chat
      ∷ (109 ∷ 111 ∷ 100 ∷ 101 ∷ 108 ∷ 58 ∷ 109 ∷ 42 ∷ [])
      ∷ (98 ∷ 117 ∷ 100 ∷ 103 ∷ 101 ∷ 116 ∷ 58 ∷ 53 ∷ 48 ∷ [])
      ∷ [];
  kind = api_key;
}

abbrev usage : List (Text × Entry)
usage = (107 ∷ [], record { total = 49; window_minute = 0; window_tokens = 0 }) ∷ []

authorize-granted_example :
    is_granted texts parse_u64
      (authorize texts parse_u64 usage true (some caller) chat (109 ∷ 49 ∷ []) 0)
    ≡ ((not true || has_scope texts parse_u64 caller chat)
        && ((any (lets_model texts parse_u64 (109 ∷ 49 ∷ [])) caller.scopes
              || (not (any (is_model_scope texts parse_u64) caller.scopes)
                  || has_scope texts parse_u64 caller star))
            && not (is_some (check_at texts usage (limited texts parse_u64 caller) 0))))
authorize-granted_example =
    authorize-granted texts parse_u64 usage true caller chat (109 ∷ 49 ∷ []) 0
