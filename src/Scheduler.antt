-- ===== src/Scheduler.antt =====
-- internal/usecase/workflows/scheduler.go: the loop that drives a run. A call that leaves the loop
-- (the repository, the queue of instructions, the resolvers of settings, the clock, the context) is
-- answered by a `World`, one for each round of the loop. The steps' own goroutines appear only by the
-- results that they send.
pub mod Refresh
pub mod Start
pub mod Results
pub mod Turns
pub mod Moves
pub mod Keeps
pub mod Waiting
pub mod Tidy
pub mod Received
pub mod Landed
pub mod Settled
pub mod Invariant
pub mod Progress
pub mod Late
pub mod Answers
pub mod Steps
pub mod Attempts
pub mod Sandbox
use Prim.Native.String
use onecatch.Base.{
  ◌≡◌, refl, true, false, ℕ, String, Bool, not, List, [], ◌∷◌, Option, none, some, is_empty, leb,
  contains, if◌then◌else◌, ◌==◌,
}
use onecatch.Base.Int.{ℤ}
use onecatch.Base.Dict
use onecatch.Base.Dict.{Dict}
use onecatch.Workflow.Model.{
  Step, Definition, Message, message_from_human, ResolvedRuntimeSettings, Run, Outcome,
}
use onecatch.Workflow.State.{EngineError, Result, ok, err, deliver, deliver_all}
use onecatch.Workflow.Verdict.{step_exists, is_running}
use onecatch.Workflow.Lifecycle

-- An error that ends the loop: settings that are not valid, an error of the repository, an error of the
-- engine, or the panic of a method call on a nil error.
pub data Fault : Type 0 where
  settings_invalid storage : String → Fault
  engine : EngineError → Fault
  nil_error : Fault

pub data Reply {ℓ} (A : Type ℓ) : Type ℓ where
  reply : A → Reply A
  fault : Fault → Reply A

pub reply_injective {ℓ} : {A : Type ℓ} {a b : A} → reply a ≡ reply b → a ≡ b
reply_injective h = cc

infixl 5 ◌>>=◌ ◌>>◌
abbrev pub ◌>>=◌ {ℓ κ} : {A : Type ℓ} {B : Type κ} → Reply A → (A → Reply B) → Reply B
fault f >>= rest = fault f
reply a >>= rest = rest a

abbrev pub ◌>>◌ {ℓ} : {B : Type ℓ} → Reply (Unit {0}) → Reply B → Reply B
before >> rest = before >>= λ _. rest

abbrev pub of_engine {ℓ} : {A : Type ℓ} → Result A → Reply A
of_engine (ok a) = reply a
of_engine (err e) = fault (engine e)

-- What holds of the answer, where there is one.
abbrev pub Replies {ℓ κ} : {A : Type ℓ} → (A → Type κ) → Reply A → Type κ
Replies P (reply a) = P a
Replies P (fault f) = Unit

pub Replies-bind {ℓ κ μ} :
    {A : Type ℓ} {B : Type κ} (P : B → Type μ) (r : Reply A) (rest : A → Reply B)
    → ((a : A) → r ≡ reply a → Replies P (rest a))
    → Replies P (r >>= rest)
Replies-bind P (reply a) rest h = h a refl
Replies-bind P (fault f) rest h = tt

pub Replies-if {ℓ κ} :
    {A : Type ℓ} (P : A → Type κ) (b : Bool) (x y : Reply A)
    → Replies P x
    → Replies P y
    → Replies P (if b then x else y)
Replies-if P true x y p q = p
Replies-if P false x y p q = q

pub Replies-map {ℓ κ μ} :
    {A : Type ℓ} (P : A → Type κ) (Q : A → Type μ) (r : Reply A)
    → ((a : A) → P a → Q a)
    → Replies P r
    → Replies Q r
Replies-map P Q (reply a) h p = h a p
Replies-map P Q (fault f) h p = tt

pub Replies-read {ℓ κ} :
    {A : Type ℓ} (P : A → Type κ) (r : Reply A) (a : A) → Replies P r → r ≡ reply a → P a
Replies-read P (reply b) a p e = let same : b ≡ a = reply_injective e in rw (← same) p
Replies-read P (fault f) a p e = cc

pub reply_of_second {ℓ} :
    {A : Type ℓ} (before : Reply (Unit {0})) (r : Reply A) (a : A)
    → before >> r ≡ reply a
    → r ≡ reply a
reply_of_second (reply u) r a e = e
reply_of_second (fault f) r a e = cc

pub reply-of_engine {ℓ} : {A : Type ℓ} (r : Result A) (a : A) → of_engine r ≡ reply a → r ≡ ok a
reply-of_engine (ok b) a e = let same : b ≡ a = reply_injective e in rw same refl
reply-of_engine (err e) a h = cc

pub record Instruction : Type 0 where
  pub id : String
  pub step_id : String
  pub content : String
  pub attachments : List String
  pub created_at : ℕ

pub record RunResolution : Type 0 where
  pub max_concurrency : ℤ
  pub interrupt_grace_seconds : ℤ
  pub runtime_settings : Dict ResolvedRuntimeSettings

-- `is_canceled` answers `errors.Is(err, context.Canceled)`.
pub record StepError : Type 0 where
  pub text : String
  pub is_canceled : Bool

pub record StepResult : Type 0 where
  pub step : Step
  pub session_id : String
  pub outcome : Outcome
  pub failure : String
  pub pause : String
  pub error : Option StepError

-- What one round of the loop is answered.
pub record World : Type 0 where
  -- The places of the round, in the order of its text, at which `ctx.Err()` is still nil.
  pub alive : ℕ
  -- The text of `ctx.Err()` where it is not nil.
  pub ended : String
  pub now : ℕ
  -- `UpdateRun`, with the revision that it expects.
  pub save : Run → ℕ → Reply Run
  -- `ClaimInstructions`.
  pub claim : Bool → Reply (List Instruction)
  -- `appendEvent`, where the loop reads its error.
  pub journal : Reply (Unit {0})
  -- The definition of the task as it is now, if it can be read.
  pub latest : Option Definition
  -- `resolveExecutionSettings`; without a resolver it answers its argument.
  pub resolve : Definition → Reply (Definition × RunResolution)
  -- `UpdateRunDefinition` of the second, which is not called when it is the first.
  pub save_definition : Definition → Definition → Reply (Unit {0})
  -- `setTaskStatus` and `WriteRunSummary`.
  pub set_task_status : Reply (Unit {0})
  pub write_summary : Run → Reply (Unit {0})
  -- The text of an error of the engine.
  pub describe : EngineError → String
  -- The usecase's own limit, for a run that sets none.
  pub concurrency : ℤ

-- What the loop keeps between its rounds.
pub record Drive : Type 0 where
  pub definition : Definition
  pub run : Run
  pub inflight : List String
  pub pause_reason : String
  pub pause_message : String
  pub include_follow_up : Bool

-- `ctx.Err() != nil` at one of the places of a round.
abbrev pub stopped : World → ℕ → Bool
stopped world place = leb world.alive place

abbrev pub pause_reason_blocked : String
pause_reason_blocked = "blocked"

abbrev pub pause_reason_interrupted : String
pause_reason_interrupted = "interrupted"

-- The attachments, each on a line of its own.
unfoldable pub attachment_lines : List String → String
attachment_lines [] = ""
attachment_lines (a ∷ rest) = String.◌++◌ "\n- " (String.◌++◌ a (attachment_lines rest))

unfoldable pub instruction_text : Instruction → String
instruction_text item =
    if is_empty item.attachments
    then item.content
    else String.◌++◌ item.content (String.◌++◌ "\nAttachments:" (attachment_lines item.attachments))

abbrev pub instruction_message : Instruction → Message
instruction_message item = record {
  from = message_from_human;
  text = instruction_text item;
  at = item.created_at;
}

-- One instruction: to the step that it names, or else to the steps that start.
unfoldable pub deliver_item : Definition → List String → Instruction → Run → Run
deliver_item def starting item run =
    if step_exists def item.step_id
    then deliver item.step_id (instruction_message item) run
    else deliver_all starting (instruction_message item) run

unfoldable pub deliver_items : Definition → List String → List Instruction → Run → Run
deliver_items def starting [] run = run
deliver_items def starting (item ∷ items) run =
    deliver_items def starting items (deliver_item def starting item run)

-- `err.Error()`
unfoldable pub fault_text : World → Fault → String
fault_text world (settings_invalid text) = String.◌++◌ "execution settings are invalid: " text
fault_text world (storage text) = text
fault_text world (engine e) = world.describe e
fault_text world nil_error = ""

unfoldable pub deliver_instructions : World → Definition → Run → List String → Bool → Reply Run
deliver_instructions world def run starting include_follow_up = do
  items ← world.claim include_follow_up
  (if is_empty items then reply tt else world.journal)
  reply (deliver_items def starting items run)

-- `pause`; its errors besides are ignored.
unfoldable pub pause : World → Definition → Run → String → String → Reply Run
pause world def run reason message = if not (is_running run.status) then reply run else (do
  paused ← of_engine (Lifecycle.pause def run reason message world.now)
  world.save paused run.revision)
