-- ===== src/Scheduler/Moves.antt =====
-- What the parts of a round of the scheduler do to the statuses of the steps.
use onecatch.Base.{
  ℕ, suc, String, Bool, true, false, ◌||◌, List, [], ◌∷◌, contains, ◌==◌, if◌then◌else◌, ◌≡◌, ◌∙◌,
  refl, ◌⊎◌, inl, inr, arith, All, trim_space,
}
use onecatch.Base.Int.{pos, leb_ℤ}
use onecatch.Base.Dict
use onecatch.Workflow.Model.{
  Step, Definition, RunStatus, NodeStatus, pending, verdict_pass, verdict_rework, verdict_ask_human,
  running, completed, paused, Run, NodeState, Outcome, Message, Edge,
}
use onecatch.Workflow.Graph.{rework_path}
use onecatch.Workflow.Normalize.{normalize}
use onecatch.Workflow.State.{
  set_node, guard, unknown_step, invalid_run_state, invalid_outcome, unknown_verdict, Result, ok,
  err, ◌>>=◌, Nodes, node_at, node_of, is_pending, is_completed, ensure_all, with_status,
  change_all, deliver_node,
}
use onecatch.Workflow.State.Nodes.{
  node_at-insert, node_at-ensure_all, node_at-deliver_node, status-deliver_node,
  status-deliver_nodes, node_at-change_all,
}
use onecatch.Workflow.Verdict.{
  apply_outcome, is_running, apply_verdict, apply_pass, apply_ask_human, apply_rework, rework_edge,
  rework_exhausted, rework_again, exhausted, record_step_failure, feedback_text, opened,
  finished_node, step_exists, pause_reason_failure_limit,
}
use onecatch.Workflow.Verdict.Edges.{rework_edge-All}
use onecatch.Scheduler.{instruction_message, Instruction, deliver_item, deliver_items}
use onecatch.Scheduler.Start.{is_running_node, mark_started, started, ids_of}

abbrev pub status_at : Run → String → NodeStatus
status_at run x = (node_of run x).status

status-deliver_item :
    (def : Definition) (starting : List String) (item : Instruction) (run : Run) (x : String)
    → status_at (deliver_item def starting item run) x ≡ status_at run x
unfolding deliver_item
status-deliver_item def starting item run x =
    let message = instruction_message item in
    ground (
      arith,
      status-deliver_node item.step_id x message run.nodes,
      status-deliver_nodes starting message run.nodes x,
    )

pub status-deliver_items :
    (def : Definition) (starting : List String) (items : List Instruction) (run : Run) (x : String)
    → status_at (deliver_items def starting items run) x ≡ status_at run x
unfolding deliver_items
status-deliver_items def starting [] run x = refl
status-deliver_items def starting (item ∷ items) run x =
    status-deliver_items def starting items (deliver_item def starting item run) x
    ∙ status-deliver_item def starting item run x

pub status-mark_started :
    (now : ℕ) (ss : List Step) (run : Run) (x : String)
    → status_at (mark_started now ss run) x
      ≡ (if contains (ids_of ss) x then running else status_at run x)
unfolding mark_started
status-mark_started now [] run x = refl
status-mark_started now (s ∷ ss) run x =
    let node = started now (node_at run.nodes s.id) in
    let next = record run { nodes = Dict.insert s.id node run.nodes; current_step_id = s.id } in
    ground (arith, status-mark_started now ss next x, node_at-insert run.nodes s.id x node)

-- Waiting, passed or running.
abbrev pub is_active : NodeStatus → Bool
is_active s = is_pending s || is_completed s || is_running_node s

-- A step whose status stays or becomes pending.
abbrev pub Calm : NodeStatus → NodeStatus → Type 0
Calm a b = (b ≡ a) ⊎ (b ≡ pending)

-- What the result of one step does to the steps and to the run's status.
pub record Effect (id : String) (a b : Run) : Type 0 where
  pub others : (x : String) → (id == x) ≡ false → Calm (status_at a x) (status_at b x)
  pub own : is_running_node (status_at b id) ≡ false
  pub active : (is_active (status_at b id) ≡ true) ⊎ (b.status ≡ RunStatus.paused)
  pub status : (b.status ≡ a.status) ⊎ (b.status ≡ RunStatus.paused)

contains-rework_source :
    (def : Definition) (from to : String) → contains (rework_path def from to) from ≡ true
unfolding rework_path
contains-rework_source def from to = ground arith

module _ (input : Definition) (run : Run) (id : String) (now : ℕ) where
  abbrev before : Nodes
  before = ensure_all (normalize input).steps run.nodes

  Calm-before : (x : String) → Calm (status_at run x) (node_at before x).status
  Calm-before x = ground (arith, node_at-ensure_all (normalize input).steps run.nodes x)

  Calm-insert :
      (node : NodeState) (x : String)
      → (id == x) ≡ false
      → Calm (status_at run x) (node_at (Dict.insert id node before) x).status
  Calm-insert node x h = ground (arith, h, node_at-insert before id x node, Calm-before x)

  -- A run in which the step's own node has been written.
  Effect-insert :
      (out : Run) (node : NodeState)
      → out.nodes ≡ Dict.insert id node before
      → is_running_node node.status ≡ false
      → (is_active node.status ≡ true) ⊎ (out.status ≡ RunStatus.paused)
      → (out.status ≡ run.status) ⊎ (out.status ≡ RunStatus.paused)
      → Effect id run out
  Effect-insert out node e idle active status =
      let own : status_at out id ≡ node.status =
        ground (arith, e, node_at-insert before id id node) in
      record {
        others = λ x h. rw e (Calm-insert node x h);
        own = ground (arith, own, idle);
        active = ground (arith, own, active);
        status = status;
      }

  Effect-if :
      (b : Bool) (x y : Run)
      → Effect id run x
      → Effect id run y
      → Effect id run (if b then x else y)
  Effect-if true x y p q = p
  Effect-if false x y p q = q

  pub record_step_failure-Effect :
      (message : String) → Effect id run (record_step_failure input run id message now)
  unfolding record_step_failure
  record_step_failure-Effect message =
      let def = normalize input in
      let out = opened def run now in
      let old = node_at before id in
      let node = record old {
        failures = suc old.failures;
        error = trim_space message;
        finished_at = now;
      } in
      let over = record node { status = paused } in
      let under = record node { status = pending } in
      let stops = record (set_node id over out) {
        status = RunStatus.paused;
        pause_reason = pause_reason_failure_limit;
        last_error = node.error;
      } in
      Effect-if (leb_ℤ def.policy.max_consecutive_failures (pos (suc old.failures))) stops
        (set_node id under out) (Effect-insert stops over refl refl (inr refl) (inr refl))
        (Effect-insert (set_node id under out) under refl refl (inl refl) (inl refl))

  -- What an operation of the engine leaves, if it leaves a run.
  abbrev pub Effective : Result Run → Type 0
  Effective (ok out) = Effect id run out
  Effective (err e) = Unit

  Effective-if :
      (b : Bool) (p q : Result Run) → Effective p → Effective q → Effective (if b then p else q)
  Effective-if true p q x y = x
  Effective-if false p q x y = y

  Effective-bind :
      {A : Type 0} (r : Result A) (f : A → Result Run)
      → ((a : A) → r ≡ ok a → Effective (f a))
      → Effective (r >>= f)
  Effective-bind (ok a) f h = h a refl
  Effective-bind (err e) f h = tt

  no_property : (edges : List Edge) → All (λ e. Unit {0}) edges
  no_property [] = tt
  no_property (e ∷ edges) = (tt, no_property edges)

  module _ (outcome : Outcome) where
    abbrev def : Definition
    def = normalize input

    abbrev node : NodeState
    node = finished_node outcome now (node_at before id)

    rework_again-Effect :
        (edge : Edge)
        → edge.from ≡ id
        → Effect id run (rework_again def edge id outcome now node (opened def run now))
    unfolding rework_again
    rework_again-Effect edge from =
        let path = rework_path def edge.from edge.to in
        let marked = Dict.insert id node before in
        let cleared = change_all (with_status pending) path marked in
        let message : Message = record { from = id; text = feedback_text outcome; at = now } in
        let sent = λ (x : String). node_at-deliver_node edge.to x message cleared in
        let reset =
          λ (x : String). node_at-change_all (with_status pending) (λ n. refl) path marked x in
        let wrote = λ (x : String). node_at-insert before id x node in
        let inside : contains path id ≡ true =
          ground (arith, from, contains-rework_source def edge.from edge.to) in
        let own : (node_at (deliver_node edge.to message cleared) id).status ≡ pending =
          ground (arith, sent id, reset id, wrote id, inside) in
        record {
          others = λ x h. ground (arith, h, sent x, reset x, wrote x, Calm-before x);
          own = ground (arith, own);
          active = inl (ground (arith, own));
          status = inl refl;
        }

    abbrev out : Run
    out = opened def run now

    -- The run that a question to the human, or an edge without rounds, leaves.
    paused_Effect :
        (stops : Run)
        → stops.nodes ≡ Dict.insert id (record node { status = paused }) before
        → stops.status ≡ RunStatus.paused
        → Effect id run stops
    paused_Effect stops e s =
        Effect-insert stops (record node { status = paused }) e refl (inr s) (inr s)

    apply_rework-Effective : Effective (apply_rework def id outcome now node out)
    unfolding apply_rework rework_exhausted
    apply_rework-Effective =
        Effective-bind (rework_edge def id outcome.target)
          (λ edge. ok (
            if exhausted def edge out
            then rework_exhausted def edge id outcome node out
            else rework_again def edge id outcome now node out))
          (λ edge e.
            Effect-if (exhausted def edge out) (rework_exhausted def edge id outcome node out)
              (rework_again def edge id outcome now node out)
              (paused_Effect (rework_exhausted def edge id outcome node out) refl refl)
              (rework_again-Effect edge
                (rework_edge-All (λ e. Unit {0}) def id outcome.target (no_property def.edges)
                  e).2))

    apply_verdict-Effective : Effective (apply_verdict def id outcome now node out)
    unfolding apply_verdict apply_pass apply_ask_human
    apply_verdict-Effective =
        let refused : Result Run = err (invalid_outcome id (unknown_verdict outcome.verdict)) in
        let rework =
          Effective-if (outcome.verdict == verdict_rework)
            (apply_rework def id outcome now node out) refused apply_rework-Effective tt in
        let asks = apply_ask_human id node out in
        let passes = apply_pass id node out in
        Effective-if (outcome.verdict == verdict_pass) (ok passes) _
          (Effect-insert passes (record node { status = completed }) refl refl (inl refl)
            (inl refl))
          (Effective-if (outcome.verdict == verdict_ask_human) (ok asks) _
            (paused_Effect asks refl refl) rework)

    pub apply_outcome-Effective : Effective (apply_outcome input run id outcome now)
    unfolding apply_outcome
    apply_outcome-Effective =
        Effective-bind (guard (step_exists def id) (unknown_step id)) _ (λ _ _.
          Effective-bind
            (guard (is_running run.status) (invalid_run_state "apply outcome" run.status)) _
            (λ _ _. apply_verdict-Effective))
