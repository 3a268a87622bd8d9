-- ===== src/Scheduler/Late.antt =====
-- Results that come late: a verdict after the run has stopped, and messages that reach a step while it
-- runs.
use onecatch.Base.{
  ℕ, suc, String, true, false, [], ◌==◌, ◌≡◌, ◌≢◌, ◌∙◌, refl, ap, ap₂, sym, inl, inr, arith, none,
  Bool-cases, String_discrete,
}
use onecatch.Workflow.Model.{Definition, RunStatus, completed, Run, Outcome, verdict_pass}
use onecatch.Workflow.Normalize.{normalize}
use onecatch.Workflow.State.{err, invalid_run_state, Nodes, node_at, node_of, ensure_all}
use onecatch.Workflow.Verdict.{apply_outcome, record_step_failure, step_exists, is_running}
use onecatch.Workflow.Verdict.Apply.{apply_outcome-pass}
use onecatch.Workflow.Verdict.Failure.{record_step_failure-Counts}
use onecatch.Scheduler.{reply, World, Drive, StepResult, Replies, Replies-bind, Replies-read}
use onecatch.Scheduler.Results.{
  apply_step_result, apply_result, apply_accepted, keep_session, stored, is_interruption, touch,
  complete_if_done, completes, with_run,
}
use onecatch.Scheduler.Turns.{Steady}
use onecatch.Scheduler.Moves.{status_at}

-- A result with a verdict: no error, no pause, no failure.
pub record HasVerdict (item : StepResult) : Type 0 where
  pub error : item.error ≡ none
  pub pause : item.pause ≡ ""
  pub failure : item.failure ≡ ""

apply_result-HasVerdict :
    (world : World) (item : StepResult) (d : Drive)
    → HasVerdict item
    → apply_result world item d
      ≡ reply (
          apply_accepted world item.step.id d
            (apply_outcome d.definition d.run item.step.id (stored item.outcome) world.now))
unfolding apply_result is_interruption String_discrete
apply_result-HasVerdict world item d v = rw (v.error, v.pause, v.failure) refl

-- What is stored after a verdict, compared with what the engine made of it.
record Stored (a : Drive) (out : Drive) : Type 0 where
  nodes : out.run.nodes ≡ a.run.nodes
  paused : a.run.status ≡ RunStatus.paused → out.run.status ≡ RunStatus.paused

Stored-complete : (now : ℕ) (a : Drive) → Stored a (complete_if_done (touch now a))
unfolding completes
Stored-complete now a = elim (Bool-cases (completes (touch now a))) [
  | inl h ↦ rw h (record { nodes = refl; paused = λ stops. ground (arith, h, stops) })
  | inr h ↦ rw h (record { nodes = refl; paused = λ stops. stops })
]

abbrev accepted : World → StepResult → Drive → Drive
accepted world item d =
    let before = keep_session item d in
    apply_accepted world item.step.id before
      (apply_outcome before.definition before.run item.step.id (stored item.outcome) world.now)

module _ (world : World) (item : StepResult) (d out : Drive) (steady : Steady world)
    (v : HasVerdict item) (e : apply_step_result world item d ≡ reply out) where
  final : Drive
  final = complete_if_done (touch world.now (accepted world item d))

  answered :
      Replies
        (λ o. o.run ≡ record final.run { revision = suc final.run.revision })
        (apply_step_result world item d)
  unfolding apply_step_result final
  answered = rw (apply_result-HasVerdict world item (keep_session item d) v) (
      Replies-bind _ (world.save final.run final.run.revision) _
        (λ saved s. steady.saves final.run saved final.run.revision s))

  final-Stored : Stored (accepted world item d) out
  unfolding final
  final-Stored =
      let kept =
        Replies-read (λ o. o.run ≡ record final.run { revision = suc final.run.revision }) _ out
          answered e in
      let c = Stored-complete world.now (accepted world item d) in
      record { nodes = rw kept c.nodes; paused = λ h. rw kept (c.paused h) }

not_running_err :
    (def : Definition) (run : Run) (id : String) (outcome : Outcome) (now : ℕ)
    → step_exists (normalize def) id ≡ true
    → is_running run.status ≡ false
    → apply_outcome def run id outcome now ≡ err (invalid_run_state "apply outcome" run.status)
unfolding apply_outcome
not_running_err def run id outcome now known stopped = rw (known, stopped) refl

keep_session-run :
    (item : StepResult) (d : Drive)
    → ((keep_session item d).run.nodes ≡ d.run.nodes)
      × ((keep_session item d).run.status ≡ d.run.status)
      × ((keep_session item d).definition ≡ d.definition)
keep_session-run item d = elim (Bool-cases (item.session_id == "")) [
  | inl h ↦ rw h (refl, refl, refl)
  | inr h ↦ rw h (refl, refl, refl)
]

-- The failures of a step in a row, where each step of the definition has a node.
abbrev pub failures_of : Definition → Nodes → String → ℕ
failures_of def nodes id = (node_at (ensure_all (normalize def).steps nodes) id).failures

-- A step's verdict that is received after the run has paused is not taken: the run stays paused, the
-- step does not pass, and one more failure of the step is counted.
pub late_verdict_is_a_failure :
    (world : World) (item : StepResult) (d out : Drive)
    → Steady world
    → HasVerdict item
    → d.run.status ≡ RunStatus.paused
    → step_exists (normalize d.definition) item.step.id ≡ true
    → apply_step_result world item d ≡ reply out
    → (out.run.status ≡ RunStatus.paused)
      × (status_at out.run item.step.id ≢ completed)
      × (failures_of d.definition out.run.nodes item.step.id
          ≡ suc (failures_of d.definition d.run.nodes item.step.id))
unfolding apply_accepted
late_verdict_is_a_failure world item d out steady v stops known e =
    let before = keep_session item d in
    let (nodes, status, def) = keep_session-run item d in
    let id = item.step.id in
    let stopped : is_running before.run.status ≡ false = ground (arith, status, stops) in
    let message = world.describe (invalid_run_state "apply outcome" before.run.status) in
    let failed = record_step_failure before.definition before.run id message world.now in
    let refused : accepted world item d ≡ with_run before failed =
      ap (apply_accepted world id before) (
        not_running_err before.definition before.run id (stored item.outcome) world.now
          (rw def known) stopped) in
    let kept = final-Stored world item d out steady v e in
    let counts =
      record_step_failure-Counts before.definition id before.run (message, world.now) [] in
    let here : out.run.nodes ≡ failed.nodes = kept.nodes ∙ ap (λ a. a.run.nodes) refused in
    let one_more : failures_of before.definition failed.nodes id
        ≡ suc (failures_of before.definition before.run.nodes id) =
      counts.failures ∙ omega arith in
    let ours = ap₂ (λ f n. failures_of f n id) (sym def) here in
    let theirs = ap₂ (λ f n. suc (failures_of f n id)) def nodes in
    (
      kept.paused (ap (λ a. a.run.status) refused ∙ ground (arith, counts.status, status, stops)),
      λ passed. ground (arith, passed, ap (λ n. node_at n id) here, counts.node),
      ours ∙ (one_more ∙ theirs),
    )

-- A pass that is taken leaves the step's inbox empty, whatever the inbox has received since the step
-- started: a message that reaches a step while it runs is dropped by the pass.
pub pass_empties_inbox :
    (world : World) (item : StepResult) (d out : Drive)
    → Steady world
    → HasVerdict item
    → item.outcome.verdict ≡ verdict_pass
    → d.run.status ≡ RunStatus.running
    → step_exists (normalize d.definition) item.step.id ≡ true
    → apply_step_result world item d ≡ reply out
    → ((node_of out.run item.step.id).inbox ≡ []) × (status_at out.run item.step.id ≡ completed)
unfolding apply_accepted
pass_empties_inbox world item d out steady v pass live known e =
    let before = keep_session item d in
    let (nodes, status, def) = keep_session-run item d in
    let id = item.step.id in
    let (next, found, s) =
      apply_outcome-pass before.definition before.run id (stored item.outcome) world.now
        (rw def known) (status ∙ live) pass in
    let kept = final-Stored world item d out steady v e in
    let same : node_of out.run id ≡ node_of next id =
      ap (λ n. node_at n id)
        (kept.nodes ∙ ap (λ r. (apply_accepted world id before r).run.nodes) found) in
    (ground (arith, same, s.inboxes id), ground (arith, same, s.statuses id))
