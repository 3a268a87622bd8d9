-- ===== src/Scheduler/Received.antt =====
-- The result of a step keeps the scheduler's state tidy.
use onecatch.Base.{
  has_prefix, String, Bool, true, false, not, ◌==◌, if◌then◌else◌, ◌≡◌, refl, ◌⊎◌, inl, inr, arith,
  Bool-cases,
}
use onecatch.Base.Dict
use onecatch.Workflow.Model.{RunStatus, NodeState, pending, paused, Run}
use onecatch.Workflow.State.{deliver, Result, ok, err, node_of, set_node}
use onecatch.Workflow.State.Nodes.{node_at-insert, status-deliver_node}
use onecatch.Workflow.Verdict.{apply_outcome, record_step_failure}
use onecatch.Scheduler.{reply, World, Drive, StepResult, stopped, Replies, Replies-bind, Replies-if}
use onecatch.Scheduler.Start.{is_running_node}
use onecatch.Scheduler.Results.{
  reminder, with_run, keep_session, ended_node, apply_interruption, apply_pause, apply_failure,
  apply_accepted, apply_result, is_interruption, error_text, stored, protocol_failure,
}
use onecatch.Scheduler.Moves.{
  status_at, is_active, Calm, Effect, Effective, record_step_failure-Effect,
  apply_outcome-Effective,
}
use onecatch.Scheduler.Tidy.{Stopping}

-- What a result leaves, before the run is saved: the step no longer runs, the other steps stay as they
-- are or wait again, and a run that was stopping still is.
pub record Applied (id : String) (d out : Drive) : Type 0 where
  pub others : (x : String) → (id == x) ≡ false → Calm (status_at d.run x) (status_at out.run x)
  pub own : is_running_node (status_at out.run id) ≡ false
  pub active : (is_active (status_at out.run id) ≡ true) ⊎ Stopping out
  pub status : (out.run.status ≡ d.run.status) ⊎ (out.run.status ≡ RunStatus.paused)
  pub reason : (d.pause_reason == "") ≡ false → (out.pause_reason == "") ≡ false
  pub inflight : out.inflight ≡ d.inflight
  pub definition : out.definition ≡ d.definition

-- An effect on the run alone.
Effect-Applied :
    (id : String) (d : Drive) (run : Run) → Effect id d.run run → Applied id d (with_run d run)
Effect-Applied id d run e = record {
  others = e.others;
  own = e.own;
  active = elim e.active [ inl h ↦ inl h | inr h ↦ inr (inr h) ];
  status = e.status;
  reason = λ h. h;
  inflight = refl;
  definition = refl;
}

module _ (world : World) (id : String) (d : Drive) where
  -- Only the node of the step changes.
  wrote :
      (node : NodeState) (x : String)
      → (id == x) ≡ false
      → Calm (status_at d.run x) (status_at (set_node id node d.run) x)
  wrote node x h = inl (ground (arith, h, node_at-insert d.run.nodes id x node))

  own : (node : NodeState) → status_at (set_node id node d.run) id ≡ node.status
  own node = ground (arith, node_at-insert d.run.nodes id id node)

  interruption-Applied : Applied id d (apply_interruption world id d)
  unfolding apply_interruption
  interruption-Applied =
      let old = node_of d.run id in
      let node = ended_node pending old.error world.now old in
      Effect-Applied id d (set_node id node d.run) (record {
        others = wrote node;
        own = ground (arith, own node);
        active = inl (ground (arith, own node));
        status = inl refl;
      })

  -- The reason that is kept is not blank.
  pause_reason-Applied :
      (node : NodeState) (reason text : String)
      → is_running_node node.status ≡ false
      → (reason == "") ≡ false
      → (b : Bool) → (d.pause_reason == "") ≡ b
      → Applied id d (
          let next = with_run d (set_node id node d.run) in
          if b then record next { pause_reason = reason; pause_message = text } else next)
  pause_reason-Applied node reason text idle named true e = record {
    others = wrote node;
    own = ground (arith, own node, idle);
    active = inr (inl named);
    status = inl refl;
    reason = λ h. named;
    inflight = refl;
    definition = refl;
  }
  pause_reason-Applied node reason text idle named false e = record {
    others = wrote node;
    own = ground (arith, own node, idle);
    active = inr (inl e);
    status = inl refl;
    reason = λ h. h;
    inflight = refl;
    definition = refl;
  }

  reminded :
      (run failed : Run) (b : Bool)
      → Effect id run failed
      → Effect id run (if b then deliver id (reminder world.now) failed else failed)
  reminded run failed false e = e
  reminded run failed true e =
      let same = λ (x : String). status-deliver_node id x (reminder world.now) failed.nodes in
      record {
        others = λ x h. rw (same x) (e.others x h);
        own = rw (same id) e.own;
        active = rw (same id) e.active;
        status = e.status;
      }

  pause-Applied :
      (reason text : String)
      → (reason == "") ≡ false
      → Applied id d (apply_pause world id reason text d)
  unfolding apply_pause
  pause-Applied reason text named =
      let node = ended_node paused text world.now (node_of d.run id) in
      pause_reason-Applied node reason text refl named (d.pause_reason == "") refl

  failure-Applied : (failure : String) → Applied id d (apply_failure world id failure d)
  unfolding apply_failure
  failure-Applied failure =
      let failed = record_step_failure d.definition d.run id failure world.now in
      Effect-Applied id d _ (
        reminded d.run failed (has_prefix protocol_failure failure)
          (record_step_failure-Effect d.definition d.run id world.now failure))

  accepted-Applied :
      (r : Result Run)
      → Effective d.definition d.run id world.now r
      → Applied id d (apply_accepted world id d r)
  unfolding apply_accepted
  accepted-Applied (ok next) e = Effect-Applied id d next e
  accepted-Applied (err e) u =
      Effect-Applied id d (record_step_failure d.definition d.run id (world.describe e) world.now)
        (record_step_failure-Effect d.definition d.run id world.now (world.describe e))

pub apply_result-Applied :
    (world : World) (item : StepResult) (d : Drive)
    → Replies (Applied item.step.id d) (apply_result world item d)
unfolding apply_result
apply_result-Applied world item d =
    let id = item.step.id in
    let outcome = apply_outcome d.definition d.run id (stored item.outcome) world.now in
    let verdict =
      Replies-if (Applied id d) (not (item.failure == ""))
        (reply (apply_failure world id item.failure d)) (reply (apply_accepted world id d outcome))
        (failure-Applied world id d item.failure)
        (accepted-Applied world id d outcome
          (apply_outcome-Effective d.definition d.run id world.now (stored item.outcome))) in
    let interrupted = interruption-Applied world id d in
    elim (Bool-cases (is_interruption (stopped world 3) item.error)) [
      | inl h ↦ rw h interrupted
      | inr h ↦ rw h (elim (Bool-cases (item.pause == "")) [
        | inl blank ↦ rw blank verdict
        | inr named ↦ rw named (
            Replies-bind (Applied id d) (error_text item.error) _
              (λ text _. pause-Applied world id d item.pause text named))
      ])
    ]

-- A session that is kept touches no status.
pub keep_session-Applied :
    (item : StepResult) (id : String) (d out : Drive)
    → Applied id (keep_session item d) out
    → Applied id d out
keep_session-Applied item id d out a = elim (Bool-cases (item.session_id == "")) [
  | inl h ↦ rw h at a
  | inr h ↦
      let b : Applied id
          (with_run d
            (record d.run { sessions = Dict.insert item.step.id item.session_id d.run.sessions }))
          out =
        rw h at a in
      record {
        others = b.others;
        own = b.own;
        active = b.active;
        status = b.status;
        reason = b.reason;
        inflight = b.inflight;
        definition = b.definition;
      }
]
