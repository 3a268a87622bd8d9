-- ===== src/Scheduler/Steps.antt =====
-- internal/usecase/workflows/scheduler.go: what the goroutine of a step sends (executeStep), and
-- commandOutcome of command.go. What it writes besides (the record of the attempt, events, snapshots of
-- Git) leaves no trace in the result. What it calls is answered by an `Attempt`.
use mathlib.Core.Option
use Prim.Native.String
use Prim.Native.String.{[] as nil_text, ◌∷◌ as ◌:::◌}
use onecatch.Base.{
  ℕ, zero, suc, ◌-◌, String, Bool, not, ◌||◌, List, [], ◌∷◌, Option, none, some, if◌then◌else◌,
  ◌==◌, trim_space, is_blank, has_prefix, text_length,
}
use onecatch.Base.Dict
use onecatch.Workflow.Model.{
  Step, Edge, Definition, Run, Outcome, step_command, verdict_pass, verdict_rework,
}
use onecatch.Workflow.Graph.{rework_edges}
use onecatch.Workflow.Protocol.{Json}
use onecatch.Scheduler.{StepError, StepResult}
use onecatch.Scheduler.Results.{fits}
use onecatch.Scheduler.Answers.{Words, Answer, answers, fails, agent_outcome}

-- `agentrun.Result`, as far as the verdict needs it.
pub record RunResult : Type 0 where
  pub session_id : String
  pub succeeded : Bool
  pub final_message : String

-- What one attempt is answered, in the order in which it asks.
pub record Attempt : Type 0 where
  -- `nextAttempt`, and `ListStepRuns` after it.
  pub next_attempt : Option StepError
  pub list_step_runs : Option StepError
  pub save_step_run : Option StepError
  pub acquire : Option StepError
  -- The runner, or the command, and then `collector.Close`.
  pub result : RunResult
  pub error : Option StepError
  pub close : Option StepError
  -- `ctx.Err()` after it.
  pub ended : Option StepError

abbrev pub pause_reason_workspace_locked : String
pause_reason_workspace_locked = "workspace_locked"

abbrev pub infrastructure_codes : List String
infrastructure_codes =
    "worker_unavailable" ∷ "worker_unauthorized" ∷ "worker_workspace_unmapped"
    ∷ "worker_runtime_unavailable" ∷ "runtime_unavailable" ∷ "workspace_locked"
    ∷ "worktree_local_only" ∷ "remote_fs_local_agent_required" ∷ "command_local_only" ∷ []

-- `strings.Contains(text, s)`
unfoldable pub holds : String → String → Bool
holds s nil_text = s == ""
holds s (c ::: text) = let rest = holds s text in has_prefix s (c ::: text) || rest

unfoldable pub first_code : List String → String → String
first_code [] message = ""
first_code (code ∷ codes) message =
    let rest = first_code codes message in if holds code message then code else rest

abbrev pub infrastructure_reason : StepError → String
infrastructure_reason e = first_code infrastructure_codes e.text

unfoldable pub drop_runes : ℕ → String → String
drop_runes zero s = s
drop_runes (suc n) nil_text = ""
drop_runes (suc n) (c ::: s) = drop_runes n s

unfoldable pub tail_runes : String → ℕ → String
tail_runes text limit =
    if fits limit text then text else String.◌++◌ "…" (drop_runes (text_length text - limit) text)

abbrev join : String → String → String
join = String.◌++◌

abbrev fenced : String → String
fenced text = join "\n\n```\n" (join text "\n```")

abbrev quoted : String → String
quoted command = join "`" (join command "`")

unfoldable pub command_summary : Step → String → String
command_summary step output =
    let summary = join (quoted step.command) " passed." in
    if output == "" then summary else join summary (fenced (tail_runes output 2000))

-- A command that fails goes back along the step's first rework edge.
unfoldable pub failed_command : Step → String → List Edge → Answer
failed_command step output [] = fails (join (quoted step.command) (join " failed:" (fenced output)))
failed_command step output (edge ∷ edges) = answers (record {
  verdict = verdict_rework;
  target = edge.to;
  summary = join (quoted step.command) " failed";
  feedback = join (quoted step.command) (join " failed:" (fenced output));
})

unfoldable pub command_outcome : Definition → Step → RunResult → Option StepError → Answer
command_outcome def step result (some e) = fails e.text
command_outcome def step result none =
    let output = trim_space result.final_message in
    if result.succeeded
    then answers (record {
      verdict = verdict_pass;
      target = "";
      summary = command_summary step output;
      feedback = "";
    })
    else failed_command step output (rework_edges def step.id)

unfoldable pub failure_message : Option StepError → String → String
failure_message (some e) message = e.text
failure_message none message =
    if is_blank message then "agent did not complete successfully" else message

abbrev no_outcome : Outcome
no_outcome = record { verdict = ""; summary = ""; feedback = ""; target = "" }

-- `stepResult{step: step, err: err, pause: pause}`
abbrev pub paused_by : Step → String → String → StepError → StepResult
paused_by step session pause e = record {
  step = step;
  session_id = session;
  outcome = no_outcome;
  failure = "";
  pause = pause;
  error = some e;
}

abbrev pub sent : Step → String → Answer → StepResult
sent step session (answers outcome) = record {
  step = step;
  session_id = session;
  outcome = outcome;
  failure = "";
  pause = "";
  error = none;
}
sent step session (fails text) = record {
  step = step;
  session_id = session;
  outcome = no_outcome;
  failure = text;
  pause = "";
  error = none;
}

-- A command's verdict, a failure of the agent, or the verdict in its reply.
unfoldable pub step_answer :
    Json → Words → Definition → Step → RunResult → Option StepError → Answer
step_answer json words def step result (some e) =
    if step.kind == step_command
    then command_outcome def step result (some e)
    else fails (failure_message (some e) result.final_message)
step_answer json words def step result none =
    if step.kind == step_command
    then command_outcome def step result none
    else if not result.succeeded
    then fails (failure_message none result.final_message)
    else agent_outcome json words def step result.final_message

-- The `switch`, by the error of the attempt.
unfoldable pub by_error :
    Json → Words → Definition → Step → RunResult → Option StepError → StepResult
by_error json words def step result none =
    sent step result.session_id (step_answer json words def step result none)
by_error json words def step result (some e) =
    if not (infrastructure_reason e == "")
    then paused_by step result.session_id (infrastructure_reason e) e
    else sent step result.session_id (step_answer json words def step result (some e))

-- An error of the collector's storage counts where the attempt has none of its own.
unfoldable pub attempt_error : Attempt → Option StepError
attempt_error attempt = elim attempt.error [
  | some e ↦ some e
  | none ↦ elim attempt.close [
    | some e ↦ some (record e { text = join "persist runtime event: " e.text })
    | none ↦ none
  ]
]

unfoldable pub run_attempt : Json → Words → Definition → Step → Attempt → StepResult
run_attempt json words def step attempt = elim attempt.ended [
  | some e ↦ paused_by step attempt.result.session_id "" e
  | none ↦ by_error json words def step attempt.result (attempt_error attempt)
]

unfoldable pub step_writes : Step → Bool
step_writes step = (step.kind == step_command) || not (step.sandbox == "read-only")

-- Go on, or stop at an error with the reason of a pause.
abbrev pub unless : Step → String → Option StepError → StepResult → StepResult
unless step pause none next = next
unless step pause (some e) next = paused_by step "" pause e

abbrev pub only_if : Bool → Option StepError → Option StepError
only_if test e = if test then e else none

unfoldable pub execute_step : Json → Words → Definition → Run → Step → Attempt → StepResult
execute_step json words def run step attempt =
    let resumes = not (Option.get_or (Dict.lookup step.id run.sessions) "" == "") in
    unless step "storage_error" (only_if resumes attempt.next_attempt) (
      unless step "storage_error" (only_if resumes attempt.list_step_runs) (
        unless step "storage_error" attempt.save_step_run (
          unless step pause_reason_workspace_locked (only_if (step_writes step) attempt.acquire)
            (run_attempt json words def step attempt))))
