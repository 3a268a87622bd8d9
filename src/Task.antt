-- ===== src/Task.antt =====
-- internal/domain/tasks/task.go: what a task may be. The fields that `Validate` does not read, the
-- worktree, the attachments and the marks of the list, are left out.
pub mod Rules
use onecatch.Base.{
  ℕ, String, Bool, true, false, not, ◌&&◌, ◌||◌, Option, none, some, List, [], ◌∷◌, contains, ◌==◌,
  if◌then◌else◌, is_blank, eqb,
}
use onecatch.Harness.{is_known}

abbrev pub status_queued : String
status_queued = "queued"

abbrev pub execution_queued : String
execution_queued = "queued"

abbrev pub execution_immediate : String
execution_immediate = "immediate"

pub record QueueInfo : Type 0 where
  pub state : String
  pub enqueued_at : ℕ
  pub activated_at : ℕ
  pub activation_source : String
  pub authorized : Bool

pub record Task : Type 0 where
  pub category : String
  pub id : String
  pub workspace_id : String
  pub title : String
  pub prompt : String
  pub workflow_id : String
  pub sandbox : String
  pub harness : String
  pub model : String
  pub reasoning_effort : String
  pub service_tier : String
  pub status : String
  pub execution_mode : String
  pub queue : Option QueueInfo

-- `switch category`
abbrev pub categories : List String
categories =
    "" ∷ "feat" ∷ "fix" ∷ "refactor" ∷ "perf" ∷ "docs" ∷ "test" ∷ "chore" ∷ "research" ∷ "other"
    ∷ []

unfoldable pub valid_category : String → Bool
valid_category category = contains categories category

-- The statuses besides `queued`.
abbrev pub later_statuses : List String
later_statuses = "ready" ∷ "running" ∷ "paused" ∷ "completed" ∷ "failed" ∷ "cancelled" ∷ []

unfoldable pub is_enqueued : Task → Bool
is_enqueued t = not (
    not (t.execution_mode == execution_queued)
    || elim t.queue [ none ↦ true | some q ↦ eqb q.enqueued_at 0 ])

unfoldable pub lacks_text : Task → Bool
lacks_text t =
    is_blank t.id
    || is_blank t.workspace_id
    || is_blank t.title
    || is_blank t.prompt
    || is_blank t.workflow_id

unfoldable pub odd_mode : Task → Bool
odd_mode t =
    not (t.execution_mode == "")
    && not (t.execution_mode == execution_immediate)
    && not (t.execution_mode == execution_queued)

unfoldable pub odd_sandbox : Task → Bool
odd_sandbox t =
    not (t.sandbox == "")
    && not (t.sandbox == "read-only")
    && not (t.sandbox == "workspace-write")
    && not (t.sandbox == "full")

abbrev pub has_agent_choice : Task → Bool
has_agent_choice t =
    not (is_blank t.model) || not (is_blank t.reasoning_effort) || not (is_blank t.service_tier)

unfoldable pub unknown_harness : Task → Bool
unknown_harness t = not (t.harness == "") && not (is_known t.harness)

unfoldable pub stray_choice : Task → Bool
stray_choice t = (t.harness == "") && has_agent_choice t

-- `Validate`: whether it returns no error.
unfoldable pub validate : Task → Bool
validate t =
    if not (valid_category t.category)
    then false
    else if lacks_text t
    then false
    else if odd_mode t
    then false
    else if odd_sandbox t
    then false
    else if unknown_harness t
    then false
    else if stray_choice t
    then false
    else if t.status == status_queued
    then is_enqueued t
    else contains later_statuses t.status
