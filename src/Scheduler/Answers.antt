-- ===== src/Scheduler/Answers.antt =====
-- internal/usecase/workflows/scheduler.go: agentOutcome, the verdict in an agent's final reply, and
-- that the engine accepts it.
use Prim.Native.String
use onecatch.Base.{
  ℕ, String, Bool, true, false, not, ◌&&◌, length, is_empty, eqb, none, some, if◌then◌else◌, ◌==◌,
  ◌≡◌, refl, subst, inl, inr, arith, ==_refl, Bool-cases, trim_space,
}
use onecatch.Workflow.Model.{
  Step, Definition, RunStatus, Run, Outcome, verdict_pass, verdict_rework, verdict_ask_human,
}
use onecatch.Workflow.Graph.{rework_edges}
use onecatch.Workflow.Normalize.{normalize}
use onecatch.Workflow.State.{EngineError, Result, ok, err, Result-cases}
use onecatch.Workflow.Verdict.{
  apply_outcome, apply_verdict, apply_rework, rework_edge, check_outcome, step_exists, is_running,
}
use onecatch.Workflow.Protocol.{
  Json, Parsed, parsed, refused, ProtocolError, parse_outcome, strip_suffix,
}
use onecatch.Scheduler.Refresh.{direct_agent_workflow_id}
use onecatch.Scheduler.Results.{protocol_failure, stored}

-- An outcome, or the text of a failure of the step.
pub data Answer : Type 0 where
  answers : Outcome → Answer
  fails : String → Answer

unfoldable pub direct_agent_definition : Definition → Bool
direct_agent_definition def = (def.id == direct_agent_workflow_id) && eqb (length def.steps) 1

unfoldable pub pass_with : String → String → Outcome
pass_with text fallback = record {
  verdict = verdict_pass;
  summary = if trim_space text == "" then fallback else trim_space text;
  feedback = "";
  target = "";
}

-- `strings.HasSuffix(text, "}")`
unfoldable pub ends_in_brace : String → Bool
ends_in_brace text = elim (strip_suffix "}" text) [ some before ↦ true | none ↦ false ]

-- The texts of errors.
pub record Words : Type 0 where
  pub protocol : ProtocolError → String
  pub engine : EngineError → String

abbrev pub checked_answer : Words → Outcome → Result (Unit {0}) → Answer
checked_answer words outcome (ok u) = answers outcome
checked_answer words outcome (err e) = fails (words.engine e)

-- Prose is a pass where nothing can be sent back; a malformed object is a failure.
unfoldable pub parsed_answer : Words → Definition → Step → String → Parsed Outcome → Answer
parsed_answer words def step final (parsed outcome) =
    checked_answer words outcome (check_outcome def step.id outcome)
parsed_answer words def step final (refused e) =
    if is_empty (rework_edges def step.id) && not (ends_in_brace (trim_space final))
    then answers (pass_with final "Step completed.")
    else fails (String.◌++◌ protocol_failure (String.◌++◌ ": " (words.protocol e)))

unfoldable pub agent_outcome : Json → Words → Definition → Step → String → Answer
agent_outcome json words def step final =
    if direct_agent_definition def
    then answers (pass_with final "Agent completed successfully.")
    else parsed_answer words def step final (parse_outcome json final)

abbrev Accepts : Definition → String → Answer → Type 0
Accepts def id (answers o) = check_outcome def id o ≡ ok tt
Accepts def id (fails text) = Unit

check_outcome-pass_with :
    (def : Definition) (id text fallback : String)
    → check_outcome def id (pass_with text fallback) ≡ ok tt
unfolding check_outcome pass_with
check_outcome-pass_with def id text fallback = rw (==_refl "pass") refl

checked_Accepts :
    (words : Words) (def : Definition) (id : String) (o : Outcome) (r : Result (Unit {0}))
    → check_outcome def id o ≡ r
    → Accepts def id (checked_answer words o r)
checked_Accepts words def id o (ok u) e = e
checked_Accepts words def id o (err x) e = tt

parsed_Accepts :
    (words : Words) (def : Definition) (step : Step) (final : String) (p : Parsed Outcome)
    → Accepts def step.id (parsed_answer words def step final p)
unfolding parsed_answer
parsed_Accepts words def step final (parsed o) =
    checked_Accepts words def step.id o (check_outcome def step.id o) refl
parsed_Accepts words def step final (refused e) =
    elim (Bool-cases
      (is_empty (rework_edges def step.id) && not (ends_in_brace (trim_space final)))) [
        | inl h ↦ rw h (check_outcome-pass_with def step.id final "Step completed.")
        | inr h ↦ rw h tt
      ]

agent_outcome-Accepts :
    (json : Json) (words : Words) (def : Definition) (step : Step) (final : String)
    → Accepts def step.id (agent_outcome json words def step final)
unfolding agent_outcome
agent_outcome-Accepts json words def step final = elim (Bool-cases (direct_agent_definition def)) [
  | inl h ↦ rw h (check_outcome-pass_with def step.id final "Agent completed successfully.")
  | inr h ↦ rw h (parsed_Accepts words def step final (parse_outcome json final))
]

-- An outcome that `CheckOutcome` lets pass is one that `ApplyOutcome` takes.
checked_is_applied :
    (def : Definition) (run : Run) (id : String) (o : Outcome) (now : ℕ)
    → step_exists (normalize def) id ≡ true
    → is_running run.status ≡ true
    → check_outcome def id o ≡ ok tt
    → (out : Run) × (apply_outcome def run id (stored o) now ≡ ok out)
unfolding check_outcome apply_outcome apply_verdict apply_rework
checked_is_applied def run id o now known live e = elim (Bool-cases (o.verdict == verdict_pass)) [
  | inl p ↦ rw (known, live, p) (_, refl)
  | inr p ↦ elim (Bool-cases (o.verdict == verdict_ask_human)) [
    | inl a ↦ rw (known, live, p, a) (_, refl)
    | inr a ↦ elim (Bool-cases (o.verdict == verdict_rework)) [
      | inr r ↦ cc (rw (p, a, r) at e)
      | inl r ↦ elim (Result-cases (rework_edge (normalize def) id o.target)) [
        | inl (edge, found) ↦ rw (known, live, p, a, r, found) (_, refl)
        | inr (x, missing) ↦ cc (rw (p, a, r, missing) at e)
      ]
    ]
  ]
]

-- The verdict that the scheduler reads from an agent's reply is one that the engine takes while the run
-- is running: applied, as it is stored, to a known step of a running run it is no error.
pub agent_outcome_is_applied :
    (json : Json) (words : Words) (def : Definition) (step : Step) (final : String) (run : Run)
    (now : ℕ) (o : Outcome)
    → agent_outcome json words def step final ≡ answers o
    → step_exists (normalize def) step.id ≡ true
    → run.status ≡ RunStatus.running
    → (out : Run) × (apply_outcome def run step.id (stored o) now ≡ ok out)
agent_outcome_is_applied json words def step final run now o e known live =
    let accepted : Accepts def step.id (answers o) =
      subst (Accepts def step.id) e (agent_outcome-Accepts json words def step final) in
    checked_is_applied def run step.id o now known (ground (arith, live)) accepted
