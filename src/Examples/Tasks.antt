-- ===== src/Examples/Tasks.antt =====
-- The theorem about tasks on a queued task.
use onecatch.Base.{◌≡◌, ◌↔◌, true, false, contains, some}
use onecatch.Task.{Task, execution_queued, status_queued, categories, validate}
use onecatch.Task.Rules.{Texts, ModeOk, SandboxOk, AgentOk, StatusOk, validate_task_iff}

abbrev queued : Task
queued = record {
  category = "fix";
  id = "task";
  workspace_id = "space";
  title = "Fix";
  prompt = "Fix it";
  workflow_id = "sample";
  sandbox = "read-only";
  harness = "codex";
  model = "";
  reasoning_effort = "";
  service_tier = "";
  status = status_queued;
  execution_mode = execution_queued;
  queue = some record {
    state = "waiting";
    enqueued_at = 5;
    activated_at = 0;
    activation_source = "";
    authorized = false;
  };
}

validate_task_iff_example : (validate queued ≡ true) ↔ (
    (contains categories queued.category ≡ true)
    × Texts queued
    × ModeOk queued
    × SandboxOk queued
    × AgentOk queued
    × StatusOk queued)
validate_task_iff_example = validate_task_iff queued
