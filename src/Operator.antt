-- ===== src/Operator.antt =====
-- rust/services/cgn-operator: the planner of replica counts.
pub mod Planner
