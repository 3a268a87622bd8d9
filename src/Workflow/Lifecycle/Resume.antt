-- ===== src/Workflow/Lifecycle/Resume.antt =====
-- What `Resume` runs again.
use onecatch.Base.{
  ℕ, String, true, [], ◌∷◌, map, contains, if◌then◌else◌, trim_space, ◌≡◌, ◌≢◌, refl, ◌∙◌, ◌⊎◌,
  arith,
}
use onecatch.Workflow.Model.{
  Step, Definition, RunStatus, unset, pending, Message, message_from_human, Run,
}
use onecatch.Workflow.Graph.{descendants, sink_steps, step_ids}
use onecatch.Workflow.Normalize.{normalize}
use onecatch.Workflow.Validation.{validate}
use onecatch.Workflow.Validation.Spec.{validate_iff, validate-normalize}
use onecatch.Workflow.State.{
  ok, ◌>>=◌, Nodes, node_at, node_of, ready_steps, all_completed, validate_run_definition,
  ensure_all,
}
use onecatch.Workflow.State.Nodes.{
  node_at-change_all, node_at-map_values, status-deliver_node, status-deliver_nodes,
}
use onecatch.Workflow.State.Ready.{ready_steps_progress}
use onecatch.Workflow.Verdict.{step_exists}
use onecatch.Workflow.Lifecycle.{
  reopened, reopen_all, is_interrupted, reopened_if_interrupted, reopen_interrupted, can_resume,
  reopen_from, resumed, deliver_resume, resume,
}

-- A run belongs to a definition that `Validate` accepts.
abbrev pub Belongs : Definition → Run → Type 0
Belongs input run = (validate input ≡ []) × (run.workflow_id ≡ input.id)

validate_run_definition_ok :
    (input : Definition) (run : Run)
    → Belongs input run
    → validate_run_definition (normalize input) run ≡ ok tt
unfolding validate_run_definition normalize
validate_run_definition_ok input run (silent, same) =
    rw (validate-normalize input ∙ silent, ◌>>=◌) (ground (arith, same))

module _ (input : Definition) (run : Run) (from message : String) (now : ℕ) where
  abbrev def : Definition
  def = normalize input

  abbrev before : Nodes
  before = ensure_all def.steps run.nodes

  status-deliver_resume :
      (out : Run) (x : String)
      → (node_of (deliver_resume def from message now out) x).status ≡ (node_of out x).status
  unfolding deliver_resume
  status-deliver_resume out x =
      let human : Message = record {
        from = message_from_human;
        text = trim_space message;
        at = now;
      } in
      ground (
        arith,
        status-deliver_nodes (map (λ (s : Step). s.id) (ready_steps def out)) human out.nodes x,
        status-deliver_node from x human out.nodes,
      )

  -- A resumed run goes on: its sessions are kept, every rework edge has its rounds back, and the
  -- reasons of the stop are gone.
  pub record Continues (out : Run) : Type 0 where
    pub status : out.status ≡ RunStatus.running
    pub sessions : out.sessions ≡ run.sessions
    pub rounds : out.rework_rounds ≡ []
    pub reasons : (out.pause_reason ≡ "") × (out.last_error ≡ "") × (out.completed_at ≡ 0)

  Continues-deliver_resume :
      (out : Run)
      → out.sessions ≡ run.sessions
      → Continues (deliver_resume def from message now (resumed now out))
  unfolding deliver_resume
  Continues-deliver_resume out e = ground arith

  resume_steps :
      (out : Run)
      → Belongs input run
      → can_resume run.status ≡ true
      → reopen_from def run.status from (record run { nodes = before }) ≡ ok out
      → resume input run from message now
        ≡ ok (deliver_resume def from message now (resumed now out))
  unfolding resume
  resume_steps out belongs can reopens =
      rw (validate_run_definition_ok input run belongs, ◌>>=◌)
        (rw (can, ◌>>=◌) (rw (reopens, ◌>>=◌) refl))

  -- Resuming from a step makes exactly that step and the steps below it pending; every other step
  -- keeps the status that it had.
  pub resume_from :
      Belongs input run
      → can_resume run.status ≡ true
      → from ≢ ""
      → step_exists def from ≡ true
      → (out : Run) × (resume input run from message now ≡ ok out)
        × Continues out
        × ((x : String)
            → (node_of out x).status ≡ (
                if contains (from ∷ descendants def from) x
                then pending
                else (node_at before x).status))
  unfolding reopen_from
  resume_from belongs can named known =
      let ids = from ∷ descendants def from in
      let out = reopen_all ids (record run { nodes = before }) in
      (
        deliver_resume def from message now (resumed now out),
        resume_steps out belongs can (ground (arith, known)),
        Continues-deliver_resume out refl,
        λ x.
            status-deliver_resume (resumed now out) x
            ∙ ground (arith, node_at-change_all reopened (λ n. refl) ids before x),
      )

  -- Resuming a stopped run with no step named makes the running, paused and failed steps pending; every
  -- other step keeps its status.
  resume_interrupted :
      Belongs input run
      → can_resume run.status ≡ true
      → from ≡ ""
      → run.status ≢ RunStatus.completed
      → (out : Run) × (resume input run from message now ≡ ok out)
        × Continues out
        × ((x : String)
            → (node_of out x).status
              ≡ (let s = (node_at before x).status in if is_interrupted s then pending else s))
  unfolding reopen_from
  resume_interrupted belongs can blank stopped =
      let out = reopen_interrupted (record run { nodes = before }) in
      (
        deliver_resume def from message now (resumed now out),
        resume_steps out belongs can (ground arith),
        Continues-deliver_resume out refl,
        λ x.
            status-deliver_resume (resumed now out) x
            ∙ ground (arith, node_at-map_values reopened_if_interrupted before x refl),
      )

  -- A completed run resumed with no step named opens its final steps again, and no other.
  resume_completed :
      Belongs input run
      → from ≡ ""
      → run.status ≡ RunStatus.completed
      → (out : Run) × (resume input run from message now ≡ ok out)
        × Continues out
        × ((x : String)
            → (node_of out x).status
              ≡ (if contains (sink_steps def) x then pending else (node_at before x).status))
  unfolding reopen_from
  resume_completed belongs blank done =
      let out = reopen_all (sink_steps def) (record run { nodes = before }) in
      (
        deliver_resume def from message now (resumed now out),
        resume_steps out belongs (ground arith) (ground arith),
        Continues-deliver_resume out refl,
        λ x.
            status-deliver_resume (resumed now out) x
            ∙ ground (arith, node_at-change_all reopened (λ n. refl) (sink_steps def) before x),
      )

  -- A stopped run that is resumed with no step named is never left with nothing to do: either every
  -- step has passed, or some step can start. (The nodes of the definition's steps have a status, as
  -- every run that `NewRun` made does.)
  pub resume_progress :
      Belongs input run
      → can_resume run.status ≡ true
      → from ≡ ""
      → run.status ≢ RunStatus.completed
      → ((x : String) → contains (step_ids def) x ≡ true → (node_at before x).status ≢ unset)
      → (out : Run) × (resume input run from message now ≡ ok out)
        × ((all_completed def out ≡ true)
            ⊎ ((x : String) × (contains (map (λ s. s.id) (ready_steps def out)) x ≡ true)))
  resume_progress belongs can blank stopped set =
      let (out, e, _, statuses) = resume_interrupted belongs can blank stopped in
      (
        out,
        e,
        ready_steps_progress def out ((validate_iff input).0 belongs.0)
            (λ x m. ground (arith, statuses x, set x m)),
      )
