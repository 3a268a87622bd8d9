-- ===== src/Examples/Runs.antt =====
-- The theorems about runs on the small workflow.
use onecatch.Base.{
  not, ◌&&◌, ℕ, ◌+◌, ◌≤◌, String, true, false, ◌≡◌, ◌≢◌, ◌↔◌, ◌⊎◌, List, [], ◌∷◌, map, contains,
  length, if◌then◌else◌, String_discrete, ne_of_test, refl, arith,
}
use onecatch.Base.Dict
use onecatch.Workflow.Model.{
  unset, pending, running, completed, paused, RunStatus, Outcome, Run, verdict_pass, verdict_rework,
}
use onecatch.Workflow.Graph.{rework_edges, descendants, step_ids, find_step, edge_key}
use onecatch.Workflow.Normalize.{normalize, normalize_policy, normalize_step, normalize_edge}
use onecatch.Workflow.State.{
  ok, node_at, node_of, ensure_all, has_node, ready_steps, all_completed, with_status, is_completed,
}
use onecatch.Workflow.State.Ready.{contains-ready_steps, ready_steps_progress, Startable, Idle}
use onecatch.Workflow.Verdict.{apply_outcome, rework_edge, rework_limit, rounds_at}
use onecatch.Workflow.Verdict.Apply.{Reworked, Passed, apply_outcome-rework, apply_outcome-pass}
use onecatch.Workflow.Verdict.Budget.{
  Capped, budget, sends_back, apply_outcome-Capped, apply_outcome-budget,
}
use onecatch.Workflow.Verdict.Failure.{Counts, fails, record_step_failure-Counts}
use onecatch.Workflow.Lifecycle.{resume, reopen_for_inbox}
use onecatch.Workflow.Lifecycle.Resume.{Continues, resume_from, resume_progress}
use onecatch.Workflow.Lifecycle.Reopen.{unread, reopen_for_inbox_drains}
use onecatch.Examples.{sample, sample_valid, sample-IsValid, back, run_with}

abbrev live : Run
live = run_with RunStatus.running running

abbrev stopped : Run
stopped = run_with RunStatus.paused paused

abbrev outcome : String → Outcome
outcome verdict = record { verdict = verdict; summary = "s"; feedback = "again"; target = "" }

contains-ready_steps_example :
    (contains (map (λ s. s.id) (ready_steps sample live)) "review" ≡ true)
    ↔ ((contains (step_ids sample) "review" ≡ true) × Startable sample live "review")
contains-ready_steps_example = contains-ready_steps sample live "review"

abbrev waiting : Run
waiting = run_with RunStatus.running pending

waiting-Idle : Idle sample waiting
unfolding node_at Dict.lookup String_discrete
waiting-Idle x m = ground arith

ready_steps_progress_example :
    (all_completed sample waiting ≡ true)
    ⊎ ((x : String) × (contains (map (λ s. s.id) (ready_steps sample waiting)) x ≡ true))
ready_steps_progress_example = ready_steps_progress sample waiting sample-IsValid waiting-Idle

live_back : rework_edge (normalize sample) "review" "" ≡ ok back
unfolding rework_edge rework_edges normalize normalize_edge String_discrete
live_back = refl

sent_back :
    (out : Run) × (apply_outcome sample live "review" (outcome verdict_rework) 9 ≡ ok out)
    × Reworked sample live "review" (outcome verdict_rework) 9 back out
unfolding normalize normalize_policy normalize_step rework_limit rounds_at Dict.lookup
    String_discrete edge_key find_step
sent_back =
    apply_outcome-rework sample live "review" (outcome verdict_rework) 9 back refl refl refl
      live_back refl

apply_outcome-rework_example :
    (out : Run) × (apply_outcome sample live "review" (outcome verdict_rework) 9 ≡ ok out)
    × Reworked sample live "review" (outcome verdict_rework) 9 back out
unfolding normalize normalize_policy normalize_step rework_limit rounds_at Dict.lookup
    String_discrete edge_key find_step
apply_outcome-rework_example =
    apply_outcome-rework sample live "review" (outcome verdict_rework) 9 back refl refl refl
      live_back refl

apply_outcome-pass_example :
    (out : Run) × (apply_outcome sample live "review" (outcome verdict_pass) 9 ≡ ok out)
    × Passed sample live "review" (outcome verdict_pass) 9 out
unfolding normalize normalize_step String_discrete find_step
apply_outcome-pass_example =
    apply_outcome-pass sample live "review" (outcome verdict_pass) 9 refl refl refl

-- The run that the rework verdict leaves.
abbrev reworked : Run
reworked = sent_back.0

live-Capped : Capped live
unfolding rounds_at Dict.lookup
live-Capped key = omega arith

apply_outcome-Capped_example : Capped reworked
apply_outcome-Capped_example =
    apply_outcome-Capped sample live reworked "review" (outcome verdict_rework) 9 sample_valid
      live-Capped sent_back.1

apply_outcome-budget_example :
    budget sample reworked + sends_back (outcome verdict_rework) reworked ≤ budget sample live
apply_outcome-budget_example =
    apply_outcome-budget sample live reworked "review" (outcome verdict_rework) 9 sent_back.1

abbrev first_failure : String × ℕ
first_failure = ("killed", 7)

abbrev later_failures : List (String × ℕ)
later_failures = ("killed", 8) ∷ []

record_step_failure-Counts_example :
    Counts sample "review"
      ((node_at (ensure_all (normalize sample).steps live.nodes) "review").failures
        + length (first_failure ∷ later_failures))
      live
      (fails sample "review" live (first_failure ∷ later_failures))
record_step_failure-Counts_example =
    record_step_failure-Counts sample "review" live first_failure later_failures

abbrev build : String
build = "build"

build_named : build ≢ ""
unfolding String_discrete
build_named = ne_of_test build "" refl

resume_from_example :
    (out : Run) × (resume sample stopped "build" "go on" 9 ≡ ok out)
    × Continues sample stopped "build" "go on" 9 out
    × ((x : String)
        → (node_of out x).status ≡ (
            if contains ("build" ∷ descendants (normalize sample) "build") x
            then pending
            else (node_at (ensure_all (normalize sample).steps stopped.nodes) x).status))
unfolding normalize normalize_step String_discrete find_step
resume_from_example =
    resume_from sample stopped "build" "go on" 9 (sample_valid, refl) refl build_named refl

paused_not_completed : RunStatus.paused ≢ RunStatus.completed
paused_not_completed e = cc

abbrev passed : Run
passed = run_with RunStatus.completed completed

stopped_set :
    (x : String)
    → contains (step_ids (normalize sample)) x ≡ true
    → (node_at (ensure_all (normalize sample).steps stopped.nodes) x).status ≢ unset
unfolding normalize normalize_step node_at ensure_all has_node Dict.lookup Dict.insert
    String_discrete
stopped_set x m = ground arith

resume_progress_example :
    (out : Run) × (resume sample stopped "" "go on" 9 ≡ ok out)
    × ((all_completed (normalize sample) out ≡ true)
        ⊎ ((x : String) × (contains (map (λ s. s.id) (ready_steps (normalize sample) out)) x
              ≡ true)))
resume_progress_example =
    resume_progress sample stopped "" "go on" 9 (sample_valid, refl) refl refl paused_not_completed
      stopped_set

reopen_for_inbox_drains_example :
    let before = ensure_all (normalize sample).steps passed.nodes in
    let (after, ids) = reopen_for_inbox sample passed in
    ((contains (step_ids (normalize sample)) "build" && unread (node_of after "build")) ≡ false)
    × (node_of after "build" ≡ (
        if contains ids "build"
        then with_status pending (node_at before "build")
        else node_at before "build"))
    × ((contains ids "build" && not (is_completed (node_at before "build").status)) ≡ false)
reopen_for_inbox_drains_example = reopen_for_inbox_drains sample passed "build"

abbrev looping : Run
looping = record passed { loop_enabled = true; loop_round = 1 }
