-- ===== src/Scheduler/Attempts.antt =====
-- internal/usecase/workflows/scheduler.go: what the scheduler makes of the result that executeStep sends.
use mathlib.Core.Option
use onecatch.Base.{
  String, true, not, Option, none, some, ◌==◌, ◌≡◌, refl, ◌⊎◌, inl, inr, Bool-cases, ==_refl,
}
use onecatch.Base.Dict
use onecatch.Workflow.Model.{Step, Definition, Run}
use onecatch.Workflow.Protocol.{Json}
use onecatch.Scheduler.{reply, ◌>>=◌, StepError, StepResult, World, Drive, stopped}
use onecatch.Scheduler.Results.{apply_pause, apply_result, error_text, is_interruption}
use onecatch.Scheduler.Answers.{Words, Answer, answers, fails}
use onecatch.Scheduler.Steps.{
  RunResult, Attempt, pause_reason_workspace_locked, infrastructure_reason, paused_by, sent,
  by_error, attempt_error, run_attempt, step_writes, unless, only_if, execute_step,
}

-- A result that names a reason to pause also has the error.
abbrev HasError : StepResult → Type 0
HasError item = ((item.pause == "") ≡ true) ⊎ ((e : StepError) × (item.error ≡ some e))

unless-HasError :
    (step : Step) (pause : String) (o : Option StepError) (next : StepResult)
    → HasError next
    → HasError (unless step pause o next)
unless-HasError step pause none next h = h
unless-HasError step pause (some e) next h = inr (e, refl)

sent-HasError : (step : Step) (session : String) (a : Answer) → HasError (sent step session a)
sent-HasError step session (answers o) = inl (==_refl "")
sent-HasError step session (fails text) = inl (==_refl "")

by_error-HasError :
    (json : Json) (words : Words) (def : Definition) (step : Step) (result : RunResult)
    (o : Option StepError)
    → HasError (by_error json words def step result o)
unfolding by_error
by_error-HasError json words def step result none = sent-HasError step result.session_id _
by_error-HasError json words def step result (some e) =
    elim (Bool-cases (infrastructure_reason e == "")) [
      | inl h ↦ rw h (sent-HasError step result.session_id _)
      | inr h ↦ rw h (inr (e, refl))
    ]

run_attempt-HasError :
    (json : Json) (words : Words) (def : Definition) (step : Step) (attempt : Attempt)
    → HasError (run_attempt json words def step attempt)
unfolding run_attempt
run_attempt-HasError json words def step attempt = ended (attempt.ended)
  where
    ended :
        (o : Option StepError)
        → HasError (elim o [
          | some e ↦ paused_by step attempt.result.session_id "" e
          | none ↦ by_error json words def step attempt.result (attempt_error attempt)
        ])
    ended (some e) = inr (e, refl)
    ended none = by_error-HasError json words def step attempt.result (attempt_error attempt)

execute_step-HasError :
    (json : Json) (words : Words) (def : Definition) (run : Run) (step : Step) (attempt : Attempt)
    → HasError (execute_step json words def run step attempt)
unfolding execute_step
execute_step-HasError json words def run step attempt =
    let resumes = not (Option.get_or (Dict.lookup step.id run.sessions) "" == "") in
    let ran = run_attempt json words def step attempt in
    let lock = only_if (step_writes step) attempt.acquire in
    let locked = unless step pause_reason_workspace_locked lock ran in
    let saved = unless step "storage_error" attempt.save_step_run locked in
    let listed = unless step "storage_error" (only_if resumes attempt.list_step_runs) saved in
    unless-HasError step "storage_error" (only_if resumes attempt.next_attempt) listed (
      unless-HasError step "storage_error" (only_if resumes attempt.list_step_runs) saved (
        unless-HasError step "storage_error" attempt.save_step_run locked (
          unless-HasError step pause_reason_workspace_locked lock ran
            (run_attempt-HasError json words def step attempt))))

error_replies :
    (f : String → Drive) (o : Option StepError) (e : StepError)
    → o ≡ some e
    → (out : Drive) × ((error_text o >>= λ text. reply (f text)) ≡ reply out)
unfolding error_text
error_replies f (some x) e h = (f x.text, refl)
error_replies f none e h = cc

-- A result with that property is folded into the run: no method is called on a nil error.
HasError-applies :
    (world : World) (item : StepResult) (d : Drive)
    → HasError item
    → (out : Drive) × (apply_result world item d ≡ reply out)
unfolding apply_result
HasError-applies world item d h = elim (Bool-cases (is_interruption (stopped world 3) item.error)) [
  | inl i ↦ rw i (_, refl)
  | inr i ↦ elim h [
    | inl blank ↦
        rw (i, blank)
          (elim (Bool-cases (item.failure == "")) [
            | inl b ↦ rw b (_, refl)
            | inr b ↦ rw b (_, refl)
          ])
    | inr (e, there) ↦ elim (Bool-cases (item.pause == "")) [
      | inl blank ↦
          rw (i, blank)
            (elim (Bool-cases (item.failure == "")) [
              | inl b ↦ rw b (_, refl)
              | inr b ↦ rw b (_, refl)
            ])
      | inr named ↦
          rw (i, named)
            (error_replies (λ text. apply_pause world item.step.id item.pause text d) item.error e
              there)
    ]
  ]
]

-- Whatever the attempt is answered, the result that a step's goroutine sends is one that the scheduler
-- folds into the run without a panic: where it names a reason to pause it has the error.
executed_step_is_applied :
    (json : Json) (words : Words) (def : Definition) (run : Run) (step : Step) (attempt : Attempt)
    (world : World) (d : Drive)
    → (out : Drive) × (apply_result world (execute_step json words def run step attempt) d
        ≡ reply out)
executed_step_is_applied json words def run step attempt world d =
    HasError-applies world (execute_step json words def run step attempt) d
      (execute_step-HasError json words def run step attempt)

-- A result of the step that has an error.
abbrev Fails : Step → StepResult → Type 0
Fails step item = (item.step ≡ step) × (e : StepError) × (item.error ≡ some e)
