-- ===== src/Scheduler/Turns.antt =====
-- internal/usecase/workflows/scheduler.go: the loop of drive, one round at a time, and what follows it.
use onecatch.Base.{
  ℕ, suc, String, Bool, true, false, not, ◌&&◌, ◌||◌, List, is_empty, select, contains,
  if◌then◌else◌, ◌==◌, ◌≡◌,
}
use onecatch.Workflow.Model.{Definition, RunStatus, Run}
use onecatch.Workflow.Graph.{sink_steps, step_ids}
use onecatch.Workflow.Lifecycle.{reopen_for_inbox, is_completed_run}
use onecatch.Workflow.Verdict.{is_running}
use onecatch.Workflow.Loop.{next_loop_round}
use onecatch.Scheduler.{
  Reply, reply, fault, ◌>>=◌, ◌>>◌, of_engine, settings_invalid, fault_text, RunResolution,
  StepResult, World, Drive, stopped, pause, deliver_instructions, pause_reason_blocked,
  pause_reason_interrupted,
}
use onecatch.Scheduler.Refresh.{refresh_loop_definition}
use onecatch.Scheduler.Start.{start_ready_steps}
use onecatch.Scheduler.Results.{apply_step_result, with_run}

-- A round of the loop goes on to the next one, or the loop's function returns.
pub data Turn : Type 0 where
  goes_on : Drive → Turn
  returns : Reply Run → Turn

abbrev pub is_paused_run : RunStatus → Bool
is_paused_run RunStatus.paused = true
is_paused_run _ = false

-- The loop's next round is opened first, if the context has ended just after a round.
unfoldable pub end_interrupted : World → Drive → Reply Run
end_interrupted world d = do
  run ←
      (if d.run.loop_enabled && is_completed_run d.run.status
        then of_engine (next_loop_round d.definition d.run world.now)
        else reply d.run)
  pause world d.definition run pause_reason_interrupted world.ended

-- The `switch` after the loop.
unfoldable pub conclude : World → Drive → Reply Run
conclude world d =
    if stopped world 4
    then end_interrupted world d
    else if not (d.pause_reason == "")
    then pause world d.definition d.run d.pause_reason d.pause_message
    else if is_paused_run d.run.status
    then (world.set_task_status >> reply d.run)
    else if is_completed_run d.run.status
    then (world.set_task_status >> (world.write_summary d.run >> reply d.run))
    else if not (is_running d.run.status)
    then reply d.run
    else pause world d.definition d.run pause_reason_blocked "no step is ready to run"

-- `reopenForMessages`: `none` where no step reopens; the messages stay delivered.
unfoldable pub reopen_for_messages : World → Drive → Reply (Bool × Drive)
reopen_for_messages world d = do
  told ← deliver_instructions world d.definition d.run (sink_steps d.definition) false
  let (opened, ids) = reopen_for_inbox d.definition told
  let next = record opened { status = RunStatus.running; completed_at = 0; updated_at = world.now }
  (if is_empty ids
      then reply (false, with_run d told)
      else (world.save next told.revision >>= λ saved. reply (true, with_run d saved)))

unfoldable pub open_round : World → Drive → Reply Drive
open_round world d = do
  next ← of_engine (next_loop_round d.definition d.run world.now)
  saved ← world.save next d.run.revision
  world.journal
  reply (record d { run = saved; include_follow_up = true })

abbrev pub pause_settings : World → Definition → Run → String → Reply Run
pause_settings world def run text = pause world def run "execution_settings_invalid" text

abbrev pub as_turn : Reply Drive → Turn
as_turn (reply d) = goes_on d
as_turn (fault f) = returns (fault f)

-- A completed run of a loop goes to its next round, under the refreshed definition.
unfoldable pub round_turn : World → Drive → Run × Reply Definition → Turn
round_turn world d (run, reply def) =
    as_turn (open_round world (record d { definition = def; run = run }))
round_turn world d (run, fault f) = returns (
    pause_settings world d.definition (record run { status = RunStatus.running })
      (fault_text world f))

-- The loop goes on if steps reopened, and ends if not.
unfoldable pub reopened_turn : World → Reply (Bool × Drive) → Turn
reopened_turn world (fault f) = returns (fault f)
reopened_turn world (reply (true, next)) = goes_on next
reopened_turn world (reply (false, next)) = returns (conclude world next)

abbrev pub is_open : World → ℕ → Drive → Bool
is_open world place d = (d.pause_reason == "") && not (stopped world place)

-- Nothing is in flight.
unfoldable pub settle : World → Drive → Turn
settle world d =
    if is_completed_run d.run.status && d.run.loop_enabled && is_open world 1 d
    then round_turn world d (refresh_loop_definition world d)
    else if (is_running d.run.status || is_completed_run d.run.status) && is_open world 2 d
    then reopened_turn world (reopen_for_messages world d)
    else returns (conclude world d)

abbrev pub without : String → List String → List String
without id ids = select (λ x. not (x == id)) ids

-- A step in flight has sent its result. An error ends the loop, which waits for the other steps.
unfoldable pub receive : World → StepResult → Drive → Turn
receive world item d =
    as_turn (apply_step_result world item (record d { inflight = without item.step.id d.inflight }))

unfoldable pub start_turn : World → List String → Drive → Reply Drive
start_turn world preserve d =
    if is_running d.run.status && is_open world 0 d
    then start_ready_steps world preserve d
    else reply d

unfoldable pub continue_turn : World → StepResult → Drive → Turn
continue_turn world item d = if is_empty d.inflight then settle world d else receive world item d

-- An error of the settings pauses the run.
unfoldable pub started_turn : World → StepResult → Drive → Reply Drive → Turn
started_turn world item d (reply next) = continue_turn world item next
started_turn world item d (fault (settings_invalid text)) =
    returns (pause_settings world d.definition d.run (fault_text world (settings_invalid text)))
started_turn world item d (fault f) = returns (fault f)

-- One round of the loop; `item` is the result that it receives if steps are in flight.
unfoldable pub turn : World → List String → StepResult → Drive → Turn
turn world preserve item d = started_turn world item d (start_turn world preserve d)

-- The result that a round receives comes from a step that is in flight.
abbrev pub Sent : World → List String → StepResult → Drive → Type 0
Sent world preserve item d =
    (mid : Drive)
    → start_turn world preserve d ≡ reply mid
    → is_empty mid.inflight ≡ false
    → contains mid.inflight item.step.id ≡ true

-- What the loop relies on in its surroundings: the repository stores the run that it is given at the
-- next revision, and the resolver of settings keeps the steps.
pub record Steady (world : World) : Type 0 where
  pub saves :
      (run out : Run) (n : ℕ) → world.save run n ≡ reply out → out ≡ record run { revision = suc n }
  pub keeps :
      (def : Definition) (out : Definition × RunResolution)
      → world.resolve def ≡ reply out
      → step_ids out.0 ≡ step_ids def

-- The rounds that a drive may have gone through.
pub data Rounds (preserve : List String) (first : Drive) : Drive → Type 0 where
  none_yet : Rounds preserve first first
  one_more :
      {d next : Drive}
      → Rounds preserve first d
      → (world : World) (item : StepResult) → Steady world
      → Sent world preserve item d
      → turn world preserve item d ≡ goes_on next
      → Rounds preserve first next
