-- ===== src/Examples.antt =====
-- A small workflow and runs of it, on which the theorems are applied: `plan`, then `build`, then
-- `review`, which can send work back to `build`.
pub mod Graph
pub mod Runs
pub mod Desktop
pub mod Tasks
pub mod Collector
pub mod Scheduler
pub mod Protocol
pub mod Attempts
pub mod Settings
use onecatch.Base.{
  String, List, [], ◌∷◌, ◌≡◌, refl, false, String_discrete, trim_space, trim_left, trim_right,
  is_space, to_lower, lower_from, is_identifier, show_nat,
}
use onecatch.Base.Int.{pos}
use onecatch.Base.Dict
use onecatch.Harness.{find_harness, supports_effort, catalog}
use onecatch.Workflow.Model.{
  Step, Edge, Definition, step_agent, edge_next, edge_rework, RunStatus, pending, completed, paused,
  Run, NodeState, NodeStatus,
}
use onecatch.Workflow.Graph.{is_next, upstream, downstream, scan, descendants_loop, descendants}
use onecatch.Workflow.Normalize.{normalize, normalize_policy, normalize_step, normalize_edge}
use onecatch.Workflow.Validation.{
  item_path, validate_policy, effort_ok, validate_agent, validate_command, validate_kind,
  validate_step, validate_steps, validate_edge, validate_edges, validate_parts, validate_rework,
  step_writes, validate_writes_with, validate_writes, validate_graph, validate_normal, validate,
}
use onecatch.Workflow.Validation.Acyclic.{count_arcs, release, visit, visited_steps, acyclic}
use onecatch.Workflow.Validation.Spec.{IsValid, validate_iff}
use onecatch.Workflow.State.{pending_node, zero_node}

abbrev pub step : String → Step
step id = record {
  id = id;
  name = id;
  kind = step_agent;
  runtime = "codex";
  model = "";
  reasoning_effort = "";
  sandbox = "workspace-write";
  worker_id = "local";
  prompt = "";
  command = "";
}

abbrev pub back : Edge
back = record { from = "review"; to = "build"; kind = edge_rework; max_rounds = pos 0 }

abbrev pub sample : Definition
sample = record {
  id = "sample";
  name = "Sample";
  description = "";
  steps = step "plan" ∷ step "build" ∷ step "review" ∷ [];
  edges =
      record { from = "plan"; to = "build"; kind = edge_next; max_rounds = pos 0 }
      ∷ record { from = "build"; to = "review"; kind = edge_next; max_rounds = pos 0 }
      ∷ back
      ∷ [];
  policy = record {
    max_rework_rounds = pos 2;
    max_consecutive_failures = pos 2;
    step_timeout_seconds = pos 60;
  };
  loop_enabled = false;
  created_at = 0;
  updated_at = 0;
}

abbrev node : String → NodeStatus → NodeState
node id s = record (pending_node id) { status = s; inbox = [] }

abbrev pub run_with : RunStatus → NodeStatus → Run
run_with s review = record {
  id = "run";
  task_id = "task";
  workflow_id = "sample";
  loop_enabled = false;
  loop_round = 0;
  revision = 4;
  status = s;
  current_step_id = "review";
  sessions = [];
  nodes =
      ("plan", node "plan" completed)
      ∷ ("build", node "build" completed)
      ∷ ("review", node "review" review)
      ∷ [];
  rework_rounds = [];
  pause_reason = "";
  last_error = "";
  started_at = 1;
  updated_at = 2;
  completed_at = 0;
  max_concurrency = pos 2;
  interrupt_grace_seconds = pos 10;
  runtime_settings = [];
}

pub sample_valid : validate sample ≡ []
unfolding String_discrete trim_space trim_left trim_right is_space to_lower lower_from is_identifier
    find_harness supports_effort catalog is_next upstream downstream scan descendants_loop
    descendants normalize normalize_policy normalize_step normalize_edge validate_policy effort_ok
    validate_agent validate_command validate_kind validate_step validate_steps validate_edge
    validate_edges validate_parts validate_rework step_writes validate_writes_with validate_writes
    validate_graph validate_normal validate count_arcs release visit visited_steps acyclic
    Dict.lookup Dict.insert
sample_valid = refl

pub sample-IsValid : IsValid sample
unfolding normalize normalize_policy normalize_step normalize_edge trim_space trim_left trim_right
    to_lower lower_from String_discrete
sample-IsValid = (validate_iff sample).0 sample_valid
