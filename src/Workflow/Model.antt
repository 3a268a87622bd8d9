-- ===== src/Workflow/Model.antt =====
-- internal/domain/workflows/model.go: definitions, runs and what they hold.
-- A `time.Time` is a number, and 0 is the zero time. Counters that start at 0 and only grow
-- (attempts, failures, rounds, revisions) are plain numbers, and values that a user configures are
-- integers. The canvas layout, which nothing but the editor reads, is left out.
use onecatch.Base.{ℕ, String, Bool, List}
use onecatch.Base.Int.{ℤ}
use onecatch.Base.Dict.{Dict}

pub record Step : Type 0 where
  pub id : String
  pub name : String
  pub kind : String
  pub runtime : String
  pub model : String
  pub reasoning_effort : String
  pub sandbox : String
  pub worker_id : String
  pub prompt : String
  pub command : String

pub record Edge : Type 0 where
  pub from : String
  pub to : String
  pub kind : String
  pub max_rounds : ℤ

pub record Policy : Type 0 where
  pub max_rework_rounds : ℤ
  pub max_consecutive_failures : ℤ
  pub step_timeout_seconds : ℤ

pub record Definition : Type 0 where
  pub id : String
  pub name : String
  pub description : String
  pub steps : List Step
  pub edges : List Edge
  pub policy : Policy
  pub loop_enabled : Bool
  pub created_at : ℕ
  pub updated_at : ℕ

abbrev pub step_agent : String
step_agent = "agent"

abbrev pub step_command : String
step_command = "command"

abbrev pub edge_next : String
edge_next = "next"

abbrev pub edge_rework : String
edge_rework = "rework"

abbrev pub verdict_pass : String
verdict_pass = "pass"

abbrev pub verdict_rework : String
verdict_rework = "rework"

abbrev pub verdict_ask_human : String
verdict_ask_human = "ask_human"

-- `unset` is the empty status.
pub data RunStatus : Type 0 where
  unset ready running paused completed failed cancelled : RunStatus

-- `unset` is the empty status, which Go reads from a node that is not there.
pub data NodeStatus : Type 0 where
  unset pending running completed paused failed : NodeStatus

pub record Message : Type 0 where
  pub from : String
  pub text : String
  pub at : ℕ

abbrev pub message_from_human : String
message_from_human = "human"

pub record NodeState : Type 0 where
  pub step_id : String
  pub status : NodeStatus
  pub attempt : ℕ
  pub failures : ℕ
  pub verdict : String
  pub summary : String
  pub error : String
  pub inbox : List Message
  pub started_at : ℕ
  pub finished_at : ℕ

pub record ResolvedRuntimeSettings : Type 0 where
  pub environment_allowlist : List String
  pub provider : String
  pub reasoning_effort : String
  pub service_tier : String
  pub max_context_window : Bool

pub record Run : Type 0 where
  pub id : String
  pub task_id : String
  pub workflow_id : String
  pub loop_enabled : Bool
  pub loop_round : ℕ
  pub revision : ℕ
  pub status : RunStatus
  pub current_step_id : String
  pub sessions : Dict String
  pub nodes : Dict NodeState
  pub rework_rounds : Dict ℕ
  pub pause_reason : String
  pub last_error : String
  pub started_at : ℕ
  pub updated_at : ℕ
  pub completed_at : ℕ
  pub max_concurrency : ℤ
  pub interrupt_grace_seconds : ℤ
  pub runtime_settings : Dict ResolvedRuntimeSettings

pub record Outcome : Type 0 where
  pub verdict : String
  pub summary : String
  pub feedback : String
  pub target : String
