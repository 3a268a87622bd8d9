-- ===== src/Workflow/Lifecycle.antt =====
-- internal/domain/workflows/engine.go: a run's start, pause, resume, cancellation, and the steps that
-- reopen for unread messages.
pub mod Start
pub mod Resume
pub mod Reopen
use mathlib.Core.Option
use onecatch.Base.{
  ℕ, suc, String, Bool, true, false, not, ◌&&◌, ◌||◌, List, [], ◌∷◌, ◌++◌, map, is_empty, ◌==◌,
  if◌then◌else◌, trim_space, is_blank,
}
use onecatch.Base.Int.{pos}
use onecatch.Base.Dict
use onecatch.Base.Dict.{Dict}
use onecatch.Workflow.Model.{
  Step, Definition, RunStatus, NodeStatus, pending, Message, message_from_human, NodeState, Run,
}
use onecatch.Workflow.Graph.{entry_steps, sink_steps, descendants}
use onecatch.Workflow.Normalize.{normalize}
use onecatch.Workflow.Validation.{validate}
use onecatch.Workflow.State.{
  Result, ok, err, ◌>>=◌, ◌>>◌, guard, invalid_definition, run_id_required, invalid_run_state,
  unknown_step, index_out_of_range, validate_run_definition, pending_node, Nodes, node_at,
  change_all, with_status, ensure_all, ensure_nodes, deliver, deliver_all, is_completed,
  ready_steps,
}
use onecatch.Workflow.Verdict.{is_running, step_exists}

-- `ids[0]`
abbrev pub first : List String → Result String
first [] = err index_out_of_range
first (id ∷ ids) = ok id

abbrev pub initial_nodes : List Step → Dict NodeState → Dict NodeState
initial_nodes [] nodes = nodes
initial_nodes (s ∷ ss) nodes = initial_nodes ss (Dict.insert s.id (pending_node s.id) nodes)

unfoldable pub initial_run : Definition → String → String → ℕ → Run
initial_run def run_id entry now = record {
  id = run_id;
  task_id = "";
  workflow_id = def.id;
  loop_enabled = def.loop_enabled;
  loop_round = if def.loop_enabled then 1 else 0;
  revision = 1;
  status = RunStatus.ready;
  current_step_id = entry;
  sessions = [];
  nodes = initial_nodes def.steps [];
  rework_rounds = [];
  pause_reason = "";
  last_error = "";
  started_at = now;
  updated_at = now;
  completed_at = 0;
  max_concurrency = pos 0;
  interrupt_grace_seconds = pos 0;
  runtime_settings = [];
}

unfoldable pub new_run : Definition → String → ℕ → Result Run
new_run input run_id now = do
  let def = normalize input
  guard (is_empty (validate def)) (invalid_definition (validate def))
  guard (not (is_blank run_id)) run_id_required
  entry ← first (entry_steps def)
  ok (initial_run def run_id entry now)

abbrev is_ready_run : RunStatus → Bool
is_ready_run RunStatus.ready = true
is_ready_run _ = false

unfoldable pub start : Definition → Run → ℕ → Result Run
start input run now = do
  let def = normalize input
  validate_run_definition def run
  guard (is_ready_run run.status) (invalid_run_state "start" run.status)
  ok (record (ensure_nodes def run) { status = RunStatus.running; updated_at = now })

-- A passed step among `ids` reopens, and its id is recorded.
unfoldable pub reopen_passed : List String → Nodes × List String → Nodes × List String
reopen_passed [] state = state
reopen_passed (id ∷ ids) state =
    let node = node_at state.0 id in
    reopen_passed ids (
      if is_completed node.status
      then (Dict.insert id (with_status pending node) state.0, state.1 ++ id ∷ [])
      else state)

-- The loop over the steps: a passed step with messages reopens with the steps below it.
unfoldable pub reopen_steps : Definition → List Step → Nodes × List String → Nodes × List String
reopen_steps def [] state = state
reopen_steps def (s ∷ ss) state =
    let node = node_at state.0 s.id in
    reopen_steps def ss (
      if is_completed node.status && not (is_empty node.inbox)
      then reopen_passed (s.id ∷ descendants def s.id) state
      else state)

unfoldable pub reopen_for_inbox : Definition → Run → Run × List String
reopen_for_inbox input run =
    let def = normalize input in
    let (nodes, ids) = reopen_steps def def.steps (ensure_all def.steps run.nodes, []) in
    (record run { nodes = nodes }, ids)

-- The closure `reopen` of `Resume`.
abbrev pub reopened : NodeState → NodeState
reopened node = record node { status = pending; error = ""; failures = 0 }

abbrev pub reopen_all : List String → Run → Run
reopen_all ids run = record run { nodes = change_all reopened ids run.nodes }

abbrev pub is_interrupted : NodeStatus → Bool
is_interrupted NodeStatus.running = true
is_interrupted NodeStatus.paused = true
is_interrupted NodeStatus.failed = true
is_interrupted _ = false

-- `for stepID, node := range out.Nodes`, which visits the nodes in any order.
abbrev pub reopened_if_interrupted : NodeState → NodeState
reopened_if_interrupted node = if is_interrupted node.status then reopened node else node

abbrev pub reopen_interrupted : Run → Run
reopen_interrupted run = record run { nodes = Dict.map_values reopened_if_interrupted run.nodes }

abbrev pub can_resume : RunStatus → Bool
can_resume RunStatus.paused = true
can_resume RunStatus.completed = true
can_resume RunStatus.failed = true
can_resume _ = false

abbrev pub is_completed_run : RunStatus → Bool
is_completed_run RunStatus.completed = true
is_completed_run _ = false

-- The `switch` of `Resume`.
unfoldable pub reopen_from : Definition → RunStatus → String → Run → Result Run
reopen_from def status from out =
    if from == ""
    then ok (
        if is_completed_run status then reopen_all (sink_steps def) out else reopen_interrupted out)
    else (do
      guard (step_exists def from) (unknown_step from)
      ok (reopen_all (from ∷ descendants def from) out))

abbrev pub resumed : ℕ → Run → Run
resumed now out = record out {
  rework_rounds = [];
  status = RunStatus.running;
  completed_at = 0;
  pause_reason = "";
  last_error = "";
  updated_at = now;
}

unfoldable pub deliver_resume : Definition → String → String → ℕ → Run → Run
deliver_resume def from message now out =
    let human : Message = record {
      from = message_from_human;
      text = trim_space message;
      at = now;
    } in
    if is_blank message
    then out
    else if from == ""
    then deliver_all (map (λ s. s.id) (ready_steps def out)) human out
    else deliver from human out

unfoldable pub resume : Definition → Run → String → String → ℕ → Result Run
resume input run from message now = do
  let def = normalize input
  validate_run_definition def run
  guard (can_resume run.status) (invalid_run_state "resume" run.status)
  out ← reopen_from def run.status from (ensure_nodes def run)
  ok (deliver_resume def from message now (resumed now out))

unfoldable pub pause : Definition → Run → String → String → ℕ → Result Run
pause input run reason message now = do
  let def = normalize input
  validate_run_definition def run
  guard (is_running run.status) (invalid_run_state "pause" run.status)
  ok (record run {
    status = RunStatus.paused;
    pause_reason = trim_space reason;
    last_error = trim_space message;
    updated_at = now;
  })

abbrev pub can_cancel : RunStatus → Bool
can_cancel RunStatus.ready = true
can_cancel RunStatus.paused = true
can_cancel _ = false

unfoldable pub cancel : Definition → Run → ℕ → Result Run
cancel input run now = do
  let def = normalize input
  validate_run_definition def run
  guard (can_cancel run.status) (invalid_run_state "cancel" run.status)
  ok (record run { status = RunStatus.cancelled; pause_reason = ""; updated_at = now })
