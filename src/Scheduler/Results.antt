-- ===== src/Scheduler/Results.antt =====
-- internal/usecase/workflows/scheduler.go: applyStepResult and what a step's goroutine makes of its
-- result.
use Prim.Native.String
use Prim.Native.String.{[] as nil_text, ◌∷◌ as ◌:::◌}
use onecatch.Base.{
  has_prefix, first_chars, ℕ, zero, suc, String, Bool, true, false, not, ◌&&◌, ◌||◌, Option, none,
  some, if◌then◌else◌, ◌==◌,
}
use onecatch.Base.Dict
use onecatch.Workflow.Model.{
  RunStatus, NodeStatus, pending, paused, Message, NodeState, Run, Outcome,
}
use onecatch.Workflow.State.{Result, ok, err, node_of, set_node, deliver, all_completed}
use onecatch.Workflow.Verdict.{apply_outcome, record_step_failure, is_running}
use onecatch.Scheduler.{
  Reply, reply, fault, ◌>>=◌, nil_error, StepError, StepResult, World, Drive, stopped,
}

abbrev pub protocol_failure : String
protocol_failure = "the reply did not end with a valid verdict JSON object"

abbrev pub protocol_reminder_message : String
protocol_reminder_message =
    "Your previous reply did not end with the required verdict JSON object. Finish the step and end with exactly one JSON object as described in the response contract."

abbrev pub max_stored_summary_runes : ℕ
max_stored_summary_runes = 8000

-- `len([]rune(text)) <= n`
unfoldable pub fits : ℕ → String → Bool
fits n nil_text = true
fits zero (c ::: s) = false
fits (suc n) (c ::: s) = fits n s

unfoldable pub truncate_runes : String → ℕ → String
truncate_runes text limit =
    if fits limit text then text else String.◌++◌ (first_chars limit text) "…"

-- The text of an error that is expected to be there: a method call on a nil error panics.
unfoldable pub error_text : Option StepError → Reply String
error_text none = fault nil_error
error_text (some e) = reply e.text

-- Interrupted, or cancelled because a sibling paused the run.
unfoldable pub is_interruption : Bool → Option StepError → Bool
is_interruption ended none = false
is_interruption ended (some e) = ended || e.is_canceled

abbrev pub ended_node : NodeStatus → String → ℕ → NodeState → NodeState
ended_node s error now node = record node { status = s; error = error; finished_at = now }

abbrev pub with_run : Drive → Run → Drive
with_run d run = record d { run = run }

unfoldable pub apply_interruption : World → String → Drive → Drive
apply_interruption world id d =
    let node = node_of d.run id in
    with_run d (set_node id (ended_node pending node.error world.now node) d.run)

-- The first pause of the run gives its reason.
unfoldable pub apply_pause : World → String → String → String → Drive → Drive
apply_pause world id reason text d =
    let next =
      with_run d (set_node id (ended_node paused text world.now (node_of d.run id)) d.run) in
    if d.pause_reason == ""
    then record next { pause_reason = reason; pause_message = text }
    else next

abbrev pub reminder : ℕ → Message
reminder now = record { from = "onecatch"; text = protocol_reminder_message; at = now }

unfoldable pub apply_failure : World → String → String → Drive → Drive
apply_failure world id failure d =
    let failed = record_step_failure d.definition d.run id failure world.now in
    with_run d (
      if has_prefix protocol_failure failure
      then deliver id (reminder world.now) failed
      else failed)

-- The outcome as it is stored.
abbrev pub stored : Outcome → Outcome
stored outcome = record outcome {
  summary = truncate_runes outcome.summary max_stored_summary_runes;
  feedback = truncate_runes outcome.feedback max_stored_summary_runes;
}

-- A verdict that the engine does not accept counts as a failure of the step.
unfoldable pub apply_accepted : World → String → Drive → Result Run → Drive
apply_accepted world id d (ok next) = with_run d next
apply_accepted world id d (err e) =
    with_run d (record_step_failure d.definition d.run id (world.describe e) world.now)

unfoldable pub apply_result : World → StepResult → Drive → Reply Drive
apply_result world item d =
    if is_interruption (stopped world 3) item.error
    then reply (apply_interruption world item.step.id d)
    else if not (item.pause == "")
    then (do text ← error_text item.error; reply (apply_pause world item.step.id item.pause text d))
    else if not (item.failure == "")
    then reply (apply_failure world item.step.id item.failure d)
    else reply (
        apply_accepted world item.step.id d
          (apply_outcome d.definition d.run item.step.id (stored item.outcome) world.now))

-- The last verdict and the completion of the run are one write.
unfoldable pub completes : Drive → Bool
completes d = is_running d.run.status && (d.pause_reason == "") && all_completed d.definition d.run

abbrev pub complete : Drive → Drive
complete d =
    with_run d (record d.run { status = RunStatus.completed; completed_at = d.run.updated_at })

abbrev pub touch : ℕ → Drive → Drive
touch now d = with_run d (record d.run { updated_at = now })

abbrev pub complete_if_done : Drive → Drive
complete_if_done d = if completes d then complete d else d

abbrev pub keep_session : StepResult → Drive → Drive
keep_session item d =
    if item.session_id == ""
    then d
    else with_run d
        (record d.run { sessions = Dict.insert item.step.id item.session_id d.run.sessions })

unfoldable pub apply_step_result : World → StepResult → Drive → Reply Drive
apply_step_result world item d = do
  applied ← apply_result world item (keep_session item d)
  let final = complete_if_done (touch world.now applied)
  saved ← world.save final.run final.run.revision
  reply (with_run final saved)
