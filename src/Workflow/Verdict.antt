-- ===== src/Workflow/Verdict.antt =====
-- internal/domain/workflows/engine.go: what a finished or failed step does to the run.
pub mod Edges
pub mod Apply
pub mod Budget
pub mod Failure
use Prim.Native.String
use mathlib.Core.Option
use onecatch.Base.{
  ℕ, suc, ◌+◌, String, Bool, true, false, List, [], ◌∷◌, Option, none, some, find, ◌==◌,
  if◌then◌else◌, trim_space, is_blank,
}
use onecatch.Base.Int.{ℤ, pos, leb_ℤ, is_zero, show_int}
use onecatch.Base.Dict
use onecatch.Base.Dict.{Dict}
use onecatch.Workflow.Model.{
  Edge, Definition, RunStatus, NodeStatus, pending, paused, completed, running, Message, NodeState,
  Run, Outcome, verdict_pass, verdict_rework, verdict_ask_human,
}
use onecatch.Workflow.Graph.{rework_edges, rework_path, edge_key, find_step}
use onecatch.Workflow.Normalize.{normalize}
use onecatch.Workflow.State.{
  Result, ok, err, ◌>>=◌, ◌>>◌, guard, unknown_step, invalid_run_state, invalid_outcome,
  no_rework_edge, target_required, not_a_target, unknown_verdict, node_of, set_node, change_all,
  with_status, ensure_nodes, deliver,
}

abbrev pub pause_reason_ask_human : String
pause_reason_ask_human = "ask_human"

abbrev pub pause_reason_rework_limit : String
pause_reason_rework_limit = "rework_limit_reached"

abbrev pub pause_reason_failure_limit : String
pause_reason_failure_limit = "max_consecutive_failures_reached"

abbrev pub is_running : RunStatus → Bool
is_running RunStatus.running = true
is_running _ = false

-- Several rework edges: the target must name one.
chosen_edge : String → String → List Edge → Result Edge
chosen_edge step_id target edges = elim (find (λ e. e.to == target) edges) [
  | some edge ↦ ok edge
  | none ↦ err (invalid_outcome step_id (not_a_target target))
]

-- One edge, or more than one, and no target.
only_edge : String → List Edge → Result Edge
only_edge step_id [] = err (invalid_outcome step_id no_rework_edge)
only_edge step_id (edge ∷ []) = ok edge
only_edge step_id (edge ∷ other ∷ edges) = err (invalid_outcome step_id target_required)

pick_edge : String → String → List Edge → Result Edge
unfolding chosen_edge only_edge
pick_edge step_id target [] = err (invalid_outcome step_id no_rework_edge)
pick_edge step_id target (edge ∷ edges) =
    if target == ""
    then only_edge step_id (edge ∷ edges)
    else chosen_edge step_id target (edge ∷ edges)

unfoldable pub rework_edge : Definition → String → String → Result Edge
unfolding pick_edge
rework_edge def step_id target = pick_edge step_id target (rework_edges def step_id)

unfoldable pub feedback_text : Outcome → String
feedback_text outcome =
    if is_blank outcome.feedback then trim_space outcome.summary else trim_space outcome.feedback

-- `rounds[key]`, of the map `run.ReworkRounds`.
unfoldable pub rounds_at : Dict ℕ → String → ℕ
rounds_at rounds key = Option.get_or (Dict.lookup key rounds) 0

-- Zero rounds on the edge leave the bound to the policy.
unfoldable pub rework_limit : Definition → Edge → ℤ
rework_limit def edge =
    if is_zero edge.max_rounds then def.policy.max_rework_rounds else edge.max_rounds

-- `for pathStep := range ReworkPath(…) { … }`, over any order of the path.
abbrev pub reset_all : List String → Run → Run
reset_all ids run = record run { nodes = change_all (with_status pending) ids run.nodes }

-- The node of a step that has just finished, with its status as it was.
abbrev pub finished_node : Outcome → ℕ → NodeState → NodeState
finished_node outcome now node = record node {
  verdict = outcome.verdict;
  summary = trim_space outcome.summary;
  error = "";
  failures = 0;
  inbox = [];
  finished_at = now;
}

abbrev pub limit_message : Edge → ℤ → Outcome → String
limit_message edge limit outcome = String.◌++◌ edge.from (
    String.◌++◌ " sent work back to " (
      String.◌++◌ edge.to (
        String.◌++◌ " " (
          String.◌++◌ (show_int limit)
            (String.◌++◌ " times; latest feedback: " (feedback_text outcome))))))

-- `case VerdictPass`
unfoldable pub apply_pass : String → NodeState → Run → Run
apply_pass step_id node out = set_node step_id (record node { status = completed }) out

-- `case VerdictAskHuman`
unfoldable pub apply_ask_human : String → NodeState → Run → Run
apply_ask_human step_id node out = record (set_node step_id (record node { status = paused }) out) {
  status = RunStatus.paused;
  pause_reason = pause_reason_ask_human;
  last_error = node.summary;
}

-- The edge has used up its rounds: the run pauses.
unfoldable pub rework_exhausted : Definition → Edge → String → Outcome → NodeState → Run → Run
rework_exhausted def edge step_id outcome node out =
    record (set_node step_id (record node { status = paused }) out) {
      status = RunStatus.paused;
      pause_reason = pause_reason_rework_limit;
      last_error = limit_message edge (rework_limit def edge) outcome;
    }

abbrev pub count_round : String → Run → Run
count_round key run = record run {
  rework_rounds = Dict.insert key (suc (rounds_at run.rework_rounds key)) run.rework_rounds;
}

-- The edge has rounds left: one is used, the path reopens and the target receives the feedback.
unfoldable pub rework_again : Definition → Edge → String → Outcome → ℕ → NodeState → Run → Run
rework_again def edge step_id outcome now node out =
    let counted = count_round (edge_key edge.from edge.to) out in
    let reset = reset_all (rework_path def edge.from edge.to) (set_node step_id node counted) in
    deliver edge.to (record { from = step_id; text = feedback_text outcome; at = now }) reset

abbrev pub exhausted : Definition → Edge → Run → Bool
exhausted def edge run =
    leb_ℤ (rework_limit def edge) (pos (rounds_at run.rework_rounds (edge_key edge.from edge.to)))

-- `case VerdictRework`
unfoldable pub apply_rework : Definition → String → Outcome → ℕ → NodeState → Run → Result Run
apply_rework def step_id outcome now node out = do
  edge ← rework_edge def step_id outcome.target
  ok (
      if exhausted def edge out
      then rework_exhausted def edge step_id outcome node out
      else rework_again def edge step_id outcome now node out)

unfoldable pub apply_verdict : Definition → String → Outcome → ℕ → NodeState → Run → Result Run
apply_verdict def step_id outcome now node out =
    if outcome.verdict == verdict_pass
    then ok (apply_pass step_id node out)
    else if outcome.verdict == verdict_ask_human
    then ok (apply_ask_human step_id node out)
    else if outcome.verdict == verdict_rework
    then apply_rework def step_id outcome now node out
    else err (invalid_outcome step_id (unknown_verdict outcome.verdict))

abbrev pub step_exists : Definition → String → Bool
step_exists def id = elim (find_step def id) [ some s ↦ true | none ↦ false ]

-- The copy of the run that an outcome is written to.
abbrev pub opened : Definition → Run → ℕ → Run
opened def run now = record (ensure_nodes def run) { updated_at = now }

unfoldable pub apply_outcome : Definition → Run → String → Outcome → ℕ → Result Run
apply_outcome input run step_id outcome now = do
  let def = normalize input
  guard (step_exists def step_id) (unknown_step step_id)
  guard (is_running run.status) (invalid_run_state "apply outcome" run.status)
  let out = opened def run now
  apply_verdict def step_id outcome now (finished_node outcome now (node_of out step_id)) out

unfoldable pub check_outcome : Definition → String → Outcome → Result (Unit {0})
check_outcome input step_id outcome =
    if outcome.verdict == verdict_pass
    then ok tt
    else if outcome.verdict == verdict_ask_human
    then ok tt
    else if outcome.verdict == verdict_rework
    then (rework_edge (normalize input) step_id outcome.target >>= λ _. ok tt)
    else err (invalid_outcome step_id (unknown_verdict outcome.verdict))

-- Below the limit the step returns to pending; at the limit the run pauses.
unfoldable pub record_step_failure : Definition → Run → String → String → ℕ → Run
record_step_failure input run step_id message now =
    let def = normalize input in
    let out = opened def run now in
    let old = node_of out step_id in
    let node = record old {
      failures = suc old.failures;
      error = trim_space message;
      finished_at = now;
    } in
    if leb_ℤ def.policy.max_consecutive_failures (pos node.failures)
    then record (set_node step_id (record node { status = paused }) out) {
      status = RunStatus.paused;
      pause_reason = pause_reason_failure_limit;
      last_error = node.error;
    }
    else set_node step_id (record node { status = pending }) out
