-- ===== src/Workflow/Normalize.antt =====
-- `Normalize` of internal/domain/workflows/validation.go: defaults for what a definition leaves out.
pub mod Twice
use onecatch.Base.{
  String, ◌==◌, if◌then◌else◌, map, trim_space, to_lower, ◌≡◌, refl, arith, List, [], ◌∷◌,
}
use onecatch.Base.Int.{ℤ, pos, is_zero}
use onecatch.Workflow.Model.{Step, Edge, Policy, Definition, step_agent, edge_next}

abbrev pub default_max_rework_rounds : ℤ
default_max_rework_rounds = pos 3

abbrev pub default_max_consecutive_failures : ℤ
default_max_consecutive_failures = pos 3

-- 30 * 60
abbrev pub default_step_timeout_seconds : ℤ
default_step_timeout_seconds = pos 1800

-- A zero value is replaced.
abbrev or_default : ℤ → ℤ → ℤ
or_default d z = if is_zero z then d else z

unfoldable pub normalize_policy : Policy → Policy
normalize_policy p = record {
  max_rework_rounds = or_default default_max_rework_rounds p.max_rework_rounds;
  max_consecutive_failures = or_default default_max_consecutive_failures p.max_consecutive_failures;
  step_timeout_seconds = or_default default_step_timeout_seconds p.step_timeout_seconds;
}

unfoldable pub normalize_step : Step → Step
normalize_step s = record s {
  reasoning_effort = to_lower (trim_space s.reasoning_effort);
  kind = if s.kind == "" then step_agent else s.kind;
  worker_id = if s.worker_id == "" then "local" else s.worker_id;
}

unfoldable pub normalize_edge : Edge → Edge
normalize_edge e = record e { kind = if e.kind == "" then edge_next else e.kind }

unfoldable pub normalize : Definition → Definition
normalize def = record def {
  policy = normalize_policy def.policy;
  steps = map normalize_step def.steps;
  edges = map normalize_edge def.edges;
}
