-- ===== src/Examples/Scheduler.antt =====
-- The theorems about the scheduler and the stored runs, on the small workflow.
use onecatch.Base.{
  suc, String, Bool, true, false, List, [], none, ◌≡◌, ◌≢◌, ◌⊎◌, refl, sym, ap, ◌∙◌, arith,
  contains, length, ◌++◌, ◌≤◌, String_discrete, trim_space, trim_left, trim_right, is_space,
  to_lower, lower_from, is_identifier,
}
use onecatch.Base.Int.{pos}
use onecatch.Base.Dict
use onecatch.Harness.{find_harness, supports_effort, catalog}
use onecatch.Workflow.Model.{RunStatus, pending, running, completed, Run, verdict_pass}
use onecatch.Workflow.Graph.{step_ids}
use onecatch.Workflow.State.{node_at, node_of, has_node}
use onecatch.Scheduler.{
  Reply, reply, reply_injective, fault, RunResolution, StepResult, World, Drive,
}
use onecatch.Scheduler.Start.{begin, start_ready_steps, settle_nodes}
use onecatch.Scheduler.Turns.{
  Turn, goes_on, returns, Steady, Sent, Rounds, none_yet, one_more, turn, start_turn,
}
use onecatch.Scheduler.Invariant.{CanDrive, IsClear, Rounds-Tidy}
use onecatch.Scheduler.Tidy.{Tidy}
use onecatch.Workflow.Graph.{
  is_next, upstream, downstream, scan, descendants_loop, descendants, find_step,
}
use onecatch.Workflow.Normalize.{normalize, normalize_policy, normalize_step, normalize_edge}
use onecatch.Workflow.Validation.{
  validate_policy, effort_ok, validate_agent, validate_command, validate_kind, validate_step,
  validate_steps, validate_edge, validate_edges, validate_parts, validate_rework, step_writes,
  validate_writes_with, validate_writes, validate_graph, validate_normal, validate,
}
use onecatch.Workflow.Validation.Acyclic.{count_arcs, release, visit, visited_steps, acyclic}
use onecatch.Workflow.State.{ready_steps, ensure_all, all_completed}
use onecatch.Workflow.Verdict.{apply_outcome, apply_verdict, apply_pass, record_step_failure}
use onecatch.Scheduler.{deliver_instructions}
use onecatch.Scheduler.Start.{
  holds_messages, waiting_steps, limit_of, chosen_steps, mark_started, launch, start_waiting,
}
use onecatch.Scheduler.Refresh.{
  is_foreign, refresh_step_settings, candidate_step, candidate_steps, candidate_of, check_candidate,
  drop_sessions, put_all, apply_run_resolution, refresh_starting_settings,
}
use onecatch.Scheduler.Results.{
  apply_step_result, apply_result, is_interruption, error_text, apply_accepted, completes, fits,
  truncate_runes,
}
use onecatch.Scheduler.Turns.{started_turn, continue_turn, receive}
use onecatch.Scheduler.Progress.{start_makes_progress, start_is_within_limit}
use onecatch.Workflow.State.Ready.{Startable}
use onecatch.Scheduler.Moves.{status_at}
use onecatch.Scheduler.Late.{HasVerdict, failures_of, late_verdict_is_a_failure, pass_empties_inbox}
use onecatch.Examples.{step as step_named, sample, sample_valid, run_with}

abbrev no_resolution : RunResolution
no_resolution = record {
  max_concurrency = pos 0;
  interrupt_grace_seconds = pos 0;
  runtime_settings = [];
}

-- Everything goes well, and nobody has anything to say.
abbrev pub world : World
world = record {
  alive = 9;
  ended = "context canceled";
  now = 7;
  save = λ run n. reply (record run { revision = suc n });
  claim = λ f. reply [];
  journal = reply tt;
  latest = none;
  resolve = λ def. reply (def, no_resolution);
  save_definition = λ old new. reply tt;
  set_task_status = reply tt;
  write_summary = λ run. reply tt;
  describe = λ e. "refused";
  concurrency = pos 2;
}

world-Steady : Steady world
world-Steady = record {
  saves = λ run out n e. sym (reply_injective e);
  keeps = λ def out e. ap (λ r. step_ids r.0) (sym (reply_injective e));
}

abbrev first_run : Run
first_run = run_with RunStatus.running pending

first_run-CanDrive : CanDrive sample first_run
unfolding node_at has_node Dict.lookup String_discrete
first_run-CanDrive = record { valid = sample_valid; known = λ x m. ground arith }

first_run-IsClear : IsClear sample first_run
unfolding node_at has_node Dict.lookup String_discrete
first_run-IsClear x m h = ground arith

abbrev start : Drive
start = begin sample first_run true

abbrev item : StepResult
item = record {
  step = step_named "review";
  session_id = "session";
  outcome = record { verdict = verdict_pass; summary = "done"; feedback = ""; target = "" };
  failure = "";
  pause = "";
  error = none;
}

-- A state to read where the loop does not go on.
abbrev drive_of : Turn → Drive
drive_of (goes_on d) = d
drive_of (returns r) = start

abbrev is_going : Turn → Bool
is_going (goes_on d) = true
is_going (returns r) = false

going_on : (t : Turn) → is_going t ≡ true → t ≡ goes_on (drive_of t)
going_on (goes_on d) h = refl
going_on (returns r) h = cc

abbrev has_review : Reply Drive → Bool
has_review (reply d) = contains d.inflight "review"
has_review (fault f) = false

review_starts : has_review (start_turn world [] start) ≡ true
unfolding String_discrete trim_space trim_left trim_right is_space to_lower lower_from is_identifier
    find_harness supports_effort catalog is_next upstream downstream scan descendants_loop
    descendants normalize normalize_policy normalize_step normalize_edge validate_policy effort_ok
    validate_agent validate_command validate_kind validate_step validate_steps validate_edge
    validate_edges validate_parts validate_rework step_writes validate_writes_with validate_writes
    validate_graph validate_normal validate count_arcs release visit visited_steps acyclic
    Dict.lookup Dict.insert Dict.delete node_at has_node find_step ready_steps settle_nodes begin
    holds_messages waiting_steps limit_of chosen_steps mark_started launch start_waiting
    start_ready_steps start_turn deliver_instructions is_foreign refresh_step_settings
    candidate_step candidate_steps candidate_of check_candidate drop_sessions put_all
    apply_run_resolution refresh_starting_settings
review_starts = refl

review_passes : is_going (turn world [] item start) ≡ true
unfolding String_discrete trim_space trim_left trim_right is_space to_lower lower_from is_identifier
    find_harness supports_effort catalog is_next upstream downstream scan descendants_loop
    descendants normalize normalize_policy normalize_step normalize_edge validate_policy effort_ok
    validate_agent validate_command validate_kind validate_step validate_steps validate_edge
    validate_edges validate_parts validate_rework step_writes validate_writes_with validate_writes
    validate_graph validate_normal validate count_arcs release visit visited_steps acyclic
    Dict.lookup Dict.insert Dict.delete node_at has_node find_step ready_steps settle_nodes begin
    holds_messages waiting_steps limit_of chosen_steps mark_started launch start_waiting
    start_ready_steps start_turn deliver_instructions is_foreign refresh_step_settings
    candidate_step candidate_steps candidate_of check_candidate drop_sessions put_all
    apply_run_resolution refresh_starting_settings turn started_turn continue_turn receive
    apply_step_result apply_result is_interruption error_text apply_accepted completes apply_outcome
    apply_verdict apply_pass ensure_all all_completed fits truncate_runes
review_passes = refl

review_Sent : Sent world [] item start
review_Sent mid e n = ap has_review (sym e) ∙ review_starts

after_review : Rounds [] start (drive_of (turn world [] item start))
after_review =
    one_more none_yet world item world-Steady review_Sent
      (going_on (turn world [] item start) review_passes)

Rounds-Tidy_example : Tidy (IsClear sample first_run) (drive_of (turn world [] item start))
Rounds-Tidy_example =
    Rounds-Tidy sample first_run true (drive_of (turn world [] item start)) first_run-CanDrive
      after_review

-- A drive to read where there is an error.
abbrev drive_in : Reply Drive → Drive
drive_in (reply d) = d
drive_in (fault f) = start

abbrev is_reply : Reply Drive → Bool
is_reply (reply d) = true
is_reply (fault f) = false

replied : (r : Reply Drive) → is_reply r ≡ true → r ≡ reply (drive_in r)
replied (reply d) h = refl
replied (fault f) h = cc

start_replies : is_reply (start_ready_steps world [] start) ≡ true
unfolding String_discrete trim_space trim_left trim_right is_space to_lower lower_from is_identifier
    find_harness supports_effort catalog is_next upstream downstream scan descendants_loop
    descendants normalize normalize_policy normalize_step normalize_edge validate_policy effort_ok
    validate_agent validate_command validate_kind validate_step validate_steps validate_edge
    validate_edges validate_parts validate_rework step_writes validate_writes_with validate_writes
    validate_graph validate_normal validate count_arcs release visit visited_steps acyclic
    Dict.lookup Dict.insert Dict.delete node_at has_node find_step ready_steps settle_nodes begin
    holds_messages waiting_steps limit_of chosen_steps mark_started launch start_waiting
    start_ready_steps start_turn deliver_instructions is_foreign refresh_step_settings
    candidate_step candidate_steps candidate_of check_candidate drop_sessions put_all
    apply_run_resolution refresh_starting_settings
start_replies = refl

abbrev launched : Drive
launched = drive_in (start_ready_steps world [] start)

start_makes_progress_example : (launched.inflight ≢ []) ⊎ (all_completed sample start.run ≡ true)
unfolding begin String_discrete
start_makes_progress_example =
    start_makes_progress sample first_run true [] first_run-CanDrive start launched world
      first_run-IsClear none_yet world-Steady refl refl refl refl
      (replied (start_ready_steps world [] start) start_replies)

start_is_within_limit_example :
    (more : List String) × (launched.inflight ≡ start.inflight ++ more)
    × ((x : String)
        → contains more x ≡ true
        → Startable sample start.run x × (contains start.inflight x ≡ false))
    × ((length launched.inflight ≤ length start.inflight)
        ⊎ (length launched.inflight ≤ limit_of world launched.run))
unfolding begin
start_is_within_limit_example =
    start_is_within_limit sample first_run true [] first_run-CanDrive start launched world none_yet
      world-Steady refl (replied (start_ready_steps world [] start) start_replies)

abbrev driving : Run → Drive
driving run = record {
  definition = sample;
  run = run;
  inflight = [];
  pause_reason = "";
  pause_message = "";
  include_follow_up = false;
}

item-HasVerdict : HasVerdict item
item-HasVerdict = record { error = refl; pause = refl; failure = refl }

abbrev stopped_drive : Drive
stopped_drive = driving (run_with RunStatus.paused running)

abbrev late : Drive
late = drive_in (apply_step_result world item stopped_drive)

late_replies : is_reply (apply_step_result world item stopped_drive) ≡ true
unfolding String_discrete trim_space trim_left trim_right is_space to_lower lower_from is_identifier
    find_harness supports_effort catalog is_next upstream downstream scan descendants_loop
    descendants normalize normalize_policy normalize_step normalize_edge validate_policy effort_ok
    validate_agent validate_command validate_kind validate_step validate_steps validate_edge
    validate_edges validate_parts validate_rework step_writes validate_writes_with validate_writes
    validate_graph validate_normal validate count_arcs release visit visited_steps acyclic
    Dict.lookup Dict.insert Dict.delete node_at has_node find_step ready_steps settle_nodes begin
    holds_messages waiting_steps limit_of chosen_steps mark_started launch start_waiting
    start_ready_steps start_turn deliver_instructions is_foreign refresh_step_settings
    candidate_step candidate_steps candidate_of check_candidate drop_sessions put_all
    apply_run_resolution refresh_starting_settings turn started_turn continue_turn receive
    apply_step_result apply_result is_interruption error_text apply_accepted completes apply_outcome
    apply_verdict apply_pass ensure_all all_completed fits truncate_runes record_step_failure
late_replies = refl

late_verdict_is_a_failure_example :
    (late.run.status ≡ RunStatus.paused)
    × (status_at late.run "review" ≢ completed)
    × (failures_of sample late.run.nodes "review"
        ≡ suc (failures_of sample stopped_drive.run.nodes "review"))
unfolding normalize normalize_step find_step String_discrete
late_verdict_is_a_failure_example =
    late_verdict_is_a_failure world item stopped_drive late world-Steady item-HasVerdict refl refl
      (replied (apply_step_result world item stopped_drive) late_replies)

abbrev live_drive : Drive
live_drive = driving (run_with RunStatus.running running)

abbrev done : Drive
done = drive_in (apply_step_result world item live_drive)

done_replies : is_reply (apply_step_result world item live_drive) ≡ true
unfolding String_discrete trim_space trim_left trim_right is_space to_lower lower_from is_identifier
    find_harness supports_effort catalog is_next upstream downstream scan descendants_loop
    descendants normalize normalize_policy normalize_step normalize_edge validate_policy effort_ok
    validate_agent validate_command validate_kind validate_step validate_steps validate_edge
    validate_edges validate_parts validate_rework step_writes validate_writes_with validate_writes
    validate_graph validate_normal validate count_arcs release visit visited_steps acyclic
    Dict.lookup Dict.insert Dict.delete node_at has_node find_step ready_steps settle_nodes begin
    holds_messages waiting_steps limit_of chosen_steps mark_started launch start_waiting
    start_ready_steps start_turn deliver_instructions is_foreign refresh_step_settings
    candidate_step candidate_steps candidate_of check_candidate drop_sessions put_all
    apply_run_resolution refresh_starting_settings turn started_turn continue_turn receive
    apply_step_result apply_result is_interruption error_text apply_accepted completes apply_outcome
    apply_verdict apply_pass ensure_all all_completed fits truncate_runes
done_replies = refl

pass_empties_inbox_example :
    ((node_of done.run "review").inbox ≡ []) × (status_at done.run "review" ≡ completed)
unfolding normalize normalize_step find_step String_discrete
pass_empties_inbox_example =
    pass_empties_inbox world item live_drive done world-Steady item-HasVerdict refl refl refl
      (replied (apply_step_result world item live_drive) done_replies)
