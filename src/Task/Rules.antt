-- ===== src/Task/Rules.antt =====
-- The tasks that are accepted, and the ways through a task's life that stay accepted.
use onecatch.Base.{
  true, false, some, contains, is_blank, ◌≡◌, ◌≢◌, ◌↔◌, ◌⊎◌, inl, inr, Option-cases, arith,
}
use onecatch.Harness.{is_known}
use onecatch.Task.{
  Task, QueueInfo, status_queued, execution_queued, execution_immediate, categories, valid_category,
  later_statuses, is_enqueued, lacks_text, odd_mode, odd_sandbox, unknown_harness, stray_choice,
  validate,
}

abbrev pub Texts : Task → Type 0
Texts t =
    (is_blank t.id ≡ false)
    × (is_blank t.workspace_id ≡ false)
    × (is_blank t.title ≡ false)
    × (is_blank t.prompt ≡ false)
    × (is_blank t.workflow_id ≡ false)

abbrev pub ModeOk : Task → Type 0
ModeOk t =
    (t.execution_mode ≡ "")
    ⊎ (t.execution_mode ≡ execution_immediate)
    ⊎ (t.execution_mode ≡ execution_queued)

abbrev pub SandboxOk : Task → Type 0
SandboxOk t =
    (t.sandbox ≡ "")
    ⊎ (t.sandbox ≡ "read-only")
    ⊎ (t.sandbox ≡ "workspace-write")
    ⊎ (t.sandbox ≡ "full")

-- A harness is named and known, or none is named and nothing is chosen for one.
abbrev pub AgentOk : Task → Type 0
AgentOk t =
    (t.harness ≢ "") × (is_known t.harness ≡ true)
    ⊎ (t.harness ≡ "")
      × (is_blank t.model ≡ true)
      × (is_blank t.reasoning_effort ≡ true)
      × (is_blank t.service_tier ≡ true)

-- A queued task waits in the queue since some time; every other task has one of the later statuses.
abbrev pub StatusOk : Task → Type 0
StatusOk t =
    (t.status ≡ status_queued)
      × (t.execution_mode ≡ execution_queued)
      × ((q : QueueInfo) × (t.queue ≡ some q) × (q.enqueued_at ≢ 0))
    ⊎ (t.status ≢ status_queued) × (contains later_statuses t.status ≡ true)

enqueued_iff :
    (t : Task)
    → (is_enqueued t ≡ true)
      ↔ (t.execution_mode ≡ execution_queued)
        × ((q : QueueInfo) × (t.queue ≡ some q) × (q.enqueued_at ≢ 0))
unfolding is_enqueued
enqueued_iff t = elim (Option-cases t.queue) [
  | inl e ↦ (λ h. ground (arith, e), λ (m, (q, f, n)). ground (arith, e))
  | inr (q, e) ↦
      (λ h. (ground (arith, e), (q, e, ground (arith, e))), λ (m, (p, f, n)). ground (arith, e))
]

Texts-iff : (t : Task) → (lacks_text t ≡ false) ↔ Texts t
unfolding lacks_text
Texts-iff t = ground arith

mode_iff : (t : Task) → (odd_mode t ≡ false) ↔ ModeOk t
unfolding odd_mode
mode_iff t = ground arith

sandbox_iff : (t : Task) → (odd_sandbox t ≡ false) ↔ SandboxOk t
unfolding odd_sandbox
sandbox_iff t = ground arith

agent_iff : (t : Task) → ((unknown_harness t ≡ false) × (stray_choice t ≡ false)) ↔ AgentOk t
unfolding unknown_harness stray_choice
agent_iff t = ground arith

-- A task is accepted exactly when its category is known, its texts are not blank, its mode, sandbox and
-- agent are allowed, and its status agrees with its place in the queue.
pub validate_task_iff :
    (t : Task)
    → (validate t ≡ true) ↔ (
        (contains categories t.category ≡ true)
        × Texts t
        × ModeOk t
        × SandboxOk t
        × AgentOk t
        × StatusOk t)
unfolding validate valid_category
validate_task_iff t =
    ground (arith, Texts-iff t, mode_iff t, sandbox_iff t, agent_iff t, enqueued_iff t)
