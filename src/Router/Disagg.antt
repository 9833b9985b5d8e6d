-- ===== src/Router/Disagg.antt =====
-- When a request is split over two nodes, rust/services/cgn-router/src/disagg.rs.
use cognitora_inference.Prelude.{ℕ, Bool, not, ◌||◌, ltb, if◌then◌else◌}
use cognitora_inference.Router.Registry
use cognitora_inference.Router.Registry.{NodeRole}

pub data Plan : Type 0 where
  colocate : Plan
  split : (prefill_role decode_role : NodeRole) → Plan

unfoldable pub plan : Bool → ℕ → ℕ → Plan
plan enabled colocate_below_tokens prompt_tokens =
    if not enabled || ltb prompt_tokens colocate_below_tokens
    then colocate
    else split Registry.prefill Registry.decode
