-- ===== src/Workflow/Validation/Parts.antt =====
-- What the first pass of `Validate` demands of the parts of a definition, said without its loops.
use onecatch.Base.{
  ℕ, String, true, false, List, [], some, contains, is_blank, is_identifier, ◌≡◌, refl, ◌≢◌, ◌↔◌,
  ◌⊎◌, arith, append-eq-nil, String_discrete, ne_of_test,
}
use onecatch.Base.Int.{pos, ◌≤ℤ◌}
use onecatch.Harness.{Harness, find_harness, supports_effort}
use onecatch.Workflow.Model.{Step, Policy, step_agent, step_command}
use onecatch.Workflow.Validation.{
  validate_policy, validate_step, effort_ok, validate_kind, item_path, validate_agent,
  validate_command,
}

abbrev pub PolicyOk : Policy → Type 0
PolicyOk p =
    (pos 1 ≤ℤ p.max_rework_rounds)
    × (p.max_rework_rounds ≤ℤ pos 50)
    × (pos 1 ≤ℤ p.max_consecutive_failures)
    × (p.max_consecutive_failures ≤ℤ pos 100)
    × (pos 1 ≤ℤ p.step_timeout_seconds)
    × (p.step_timeout_seconds ≤ℤ pos 86400)

pub validate_policy_iff : (p : Policy) → (validate_policy p ≡ []) ↔ PolicyOk p
unfolding validate_policy
validate_policy_iff p = ground arith

-- The harness that runs the step knows its reasoning effort.
abbrev pub EffortOk : Step → Type 0
EffortOk s =
    (s.reasoning_effort ≡ "")
    ⊎ ((h : Harness) × (find_harness s.runtime ≡ some h)
        × (supports_effort h s.reasoning_effort ≡ true))

abbrev pub SandboxOk : String → Type 0
SandboxOk s = (s ≡ "") ⊎ (s ≡ "read-only") ⊎ (s ≡ "workspace-write") ⊎ (s ≡ "full")

abbrev pub AgentOk : Step → Type 0
AgentOk s =
    (s.kind ≡ step_agent)
    × EffortOk s
    × (is_blank s.runtime ≡ false)
    × SandboxOk s.sandbox
    × ((s.worker_id ≡ "local") ⊎ (s.sandbox ≢ "full"))

abbrev pub CommandOk : Step → Type 0
CommandOk s = (s.kind ≡ step_command) × (is_blank s.command ≡ false) × (s.worker_id ≡ "local")

abbrev pub StepOk : Step → Type 0
StepOk s =
    (is_identifier s.id ≡ true)
    × (is_blank s.name ≡ false)
    × (is_identifier s.worker_id ≡ true)
    × (AgentOk s ⊎ CommandOk s)

effort_ok_iff : (s : Step) → ((s.reasoning_effort ≡ "") ⊎ (effort_ok s ≡ true)) ↔ EffortOk s
unfolding effort_ok
effort_ok_iff s = ground arith

-- The tests of `case StepAgent`, in its order.
abbrev AgentTests : Step → Type 0
AgentTests s =
    ((s.reasoning_effort ≡ "") ⊎ (effort_ok s ≡ true))
    × (is_blank s.runtime ≡ false)
    × SandboxOk s.sandbox
    × ((s.worker_id ≡ "local") ⊎ (s.sandbox ≢ "full"))

validate_agent_iff : (path : String) (s : Step) → (validate_agent path s ≡ []) ↔ AgentTests s
unfolding validate_agent
validate_agent_iff path s = ground arith

validate_command_iff :
    (path : String) (s : Step)
    → (validate_command path s ≡ []) ↔ ((is_blank s.command ≡ false) × (s.worker_id ≡ "local"))
unfolding validate_command
validate_command_iff path s = ground arith

AgentTests-iff : (s : Step) → s.kind ≡ step_agent → AgentTests s ↔ AgentOk s
AgentTests-iff s k = (
  λ t. (k, (effort_ok_iff s).0 t.0, t.1, t.2, t.3),
  λ a. ((effort_ok_iff s).1 a.1, a.2, a.3, a.4),
)

agent-ne-command : step_agent ≢ step_command
unfolding String_discrete
agent-ne-command = ne_of_test step_agent step_command refl

validate_kind_iff :
    (path : String) (s : Step) → (validate_kind path s ≡ []) ↔ (AgentOk s ⊎ CommandOk s)
unfolding validate_kind
validate_kind_iff path s = ground (
  arith,
  validate_agent_iff path s,
  validate_command_iff path s,
  AgentTests-iff s,
  agent-ne-command,
)

pub validate_step_iff :
    (i : ℕ) (earlier : List String) (s : Step)
    → (validate_step i earlier s ≡ []) ↔ ((contains earlier s.id ≡ false) × StepOk s)
unfolding validate_step
validate_step_iff i earlier s = ground (
  arith,
  validate_kind_iff (item_path "steps" i) s,
  append-eq-nil (validate_kind (item_path "steps" i) s) [],
)
