-- ===== src/Examples/Attempts.antt =====
-- The theorems about the attempt of a step, on the small workflow.
use onecatch.Base.{true, none, some, ◌≡◌, ◌≤◌, ℕ, [], false}
use onecatch.Workflow.Model.{RunStatus, running}
use onecatch.Workflow.Protocol.{Json, finished}
use onecatch.Scheduler.{StepError, World, Drive}
use onecatch.Scheduler.Answers.{Words}
use onecatch.Scheduler.Steps.{Attempt}
use onecatch.Scheduler.Sandbox.{
  rank, rank_of, or_else, workspace_write, allowed_sandbox, allowed_sandbox_is_within,
}
use onecatch.Examples.{sample, run_with}
use onecatch.Examples.Scheduler.{world}

abbrev json : Json
json = record { outcome = λ s. none; object = λ s. none; rest = λ s. finished }

abbrev words : Words
words = record { protocol = λ e. "refused"; engine = λ e. "refused" }

abbrev canceled : StepError
canceled = record { text = "context canceled"; is_canceled = true }

-- The lock was not to be had, and the context ended meanwhile.
abbrev attempt : Attempt
attempt = record {
  next_attempt = none;
  list_step_runs = none;
  save_step_run = none;
  acquire = some (record { text = "workspace_locked"; is_canceled = false });
  result = record { session_id = "s1"; succeeded = true; final_message = "" };
  error = some canceled;
  close = none;
  ended = some canceled;
}

abbrev ended_world : World
ended_world = record world { alive = 0 }

abbrev drive : Drive
drive = record {
  definition = sample;
  run = run_with RunStatus.running running;
  inflight = [];
  pause_reason = "";
  pause_message = "";
  include_follow_up = false;
}

allowed_sandbox_is_within_example :
    (n : ℕ) × (rank (allowed_sandbox "full" "read-only") ≡ some n)
    × (n ≤ rank_of (or_else "read-only" workspace_write))
    × (n ≤ rank_of (or_else "full" (or_else "read-only" workspace_write)))
allowed_sandbox_is_within_example = allowed_sandbox_is_within "full" "read-only"
