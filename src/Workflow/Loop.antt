-- ===== src/Workflow/Loop.antt =====
-- internal/domain/workflows/loop.go: the next round of a workflow that runs in a loop.
pub mod Rounds
use Prim.Native.String
use Prim.Native.Nat.{max}
use onecatch.Base.{
  ℕ, suc, String, not, ◌&&◌, List, [], ◌∷◌, ◌++◌, is_empty, ◌==◌, if◌then◌else◌, show_nat,
}
use onecatch.Base.Dict
use onecatch.Workflow.Model.{Step, Definition, RunStatus, pending, Message, NodeState, Run}
use onecatch.Workflow.Graph.{entry_steps}
use onecatch.Workflow.Validation.{validate}
use onecatch.Workflow.State.{
  Result, ok, err, nil_map, ◌>>=◌, ◌>>◌, guard, invalid_definition, invalid_run_state, Nodes,
  node_at, deliver_all,
}
use onecatch.Workflow.Lifecycle.{first, is_completed_run}

abbrev join : String → String → String
join = String.◌++◌

-- What a round leaves of a step's node.
abbrev pub fresh_node : String → NodeState → NodeState
fresh_node id node = record node {
  step_id = id;
  status = pending;
  verdict = "";
  error = "";
  summary = "";
  failures = 0;
  started_at = 0;
  finished_at = 0;
}

-- The lines of the summaries so far, with that of a step that has one.
abbrev pub summarized : Step → NodeState → List String → List String
summarized s node lines =
    if node.summary == "" then lines else lines ++ join s.name (join ": " node.summary) ∷ []

-- The turns of the loop over the steps, on a map that is not nil.
unfoldable pub reset_steps : List Step → Nodes → List String → Nodes × List String
reset_steps [] nodes lines = (nodes, lines)
reset_steps (s ∷ ss) nodes lines =
    let node = node_at nodes s.id in
    reset_steps ss (Dict.insert s.id (fresh_node s.id node) nodes) (summarized s node lines)

-- The loop over the steps. A map without entries is taken for nil, which is what the storage reads back
-- for it (`omitempty`): the first write to it panics.
unfoldable pub reset_round : List Step → Nodes → List String → Result (Nodes × List String)
reset_round ss nodes lines =
    if is_empty nodes && not (is_empty ss) then err nil_map else ok (reset_steps ss nodes lines)

-- `strings.Join(lines, "\n")`
unfoldable pub join_lines : List String → String
join_lines [] = ""
join_lines (l ∷ []) = l
join_lines (l ∷ m ∷ ls) = join l (join "\n" (join_lines (m ∷ ls)))

unfoldable pub round_message : ℕ → List String → String
round_message round lines = join "开始循环第 " (
    join (show_nat round) (
      join
        " 轮。根据原始目标、上一轮成果和新的人工指令推进下一项有价值的工作；不要重复已完成的工作。如果目标已完成或缺少后续任务，返回 ask_human 等待人工指导。\n上一轮成果：\n"
        (join_lines lines)))

abbrev pub next_round : ℕ → ℕ
next_round round = suc (max 1 round)

-- The run with its round counted and nothing left of the last one but its nodes.
abbrev pub round_opened : Run → ℕ → Run
round_opened run now = record run {
  loop_round = next_round run.loop_round;
  status = RunStatus.running;
  completed_at = 0;
  updated_at = now;
  pause_reason = "";
  last_error = "";
  rework_rounds = [];
}

unfoldable pub next_loop_round : Definition → Run → ℕ → Result Run
next_loop_round def run now = do
  guard (run.loop_enabled && is_completed_run run.status) (invalid_run_state "loop" run.status)
  guard (is_empty (validate def)) (invalid_definition (validate def))
  (nodes, lines) ← reset_round def.steps run.nodes []
  entry ← first (entry_steps def)
  let message : Message = record {
    from = "onecatch";
    text = round_message (next_round run.loop_round) lines;
    at = now;
  }
  ok (
      deliver_all (entry_steps def) message
        (record (round_opened run now) { nodes = nodes; current_step_id = entry }))
