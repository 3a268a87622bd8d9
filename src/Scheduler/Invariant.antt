-- ===== src/Scheduler/Invariant.antt =====
-- The states that a drive of the scheduler reaches.
use onecatch.Base.{
  String, Bool, true, false, not, ◌&&◌, ◌||◌, List, [], ◌∷◌, contains, is_empty, if◌then◌else◌, ◌≡◌,
  refl, subst, inl, inr, arith, Bool-cases,
}
use onecatch.Base.Dict
use onecatch.Workflow.Model.{Step, Definition, pending, Run}
use onecatch.Workflow.Graph.{step_ids}
use onecatch.Workflow.Validation.{validate}
use onecatch.Workflow.State.{Nodes, node_at, has_node}
use onecatch.Workflow.State.Nodes.{node_at-insert, has_node-insert}
use onecatch.Workflow.Verdict.{is_running}
use onecatch.Scheduler.{
  Reply, reply, fault, World, Drive, StepResult, Replies, Replies-map, settings_invalid, storage,
  engine, nil_error,
}
use onecatch.Scheduler.Start.{is_running_node, settle_nodes, begin, ids_of, start_ready_steps}
use onecatch.Scheduler.Turns.{
  goes_on, Steady, Sent, Rounds, none_yet, one_more, turn, start_turn, started_turn, continue_turn,
  receive, is_open,
}
use onecatch.Scheduler.Moves.{status_at, is_active}
use onecatch.Scheduler.Keeps.{empty_nil}
use onecatch.Scheduler.Tidy.{Tidy, Started, start_ready_steps-Started}
use onecatch.Scheduler.Landed.{apply_step_result-Tidy}
use onecatch.Scheduler.Settled.{Goes, as_turn-Goes, settle-Goes, validate-Unique}

module _ (Clear : Type 0) (world : World) (preserve : List String) (steady : Steady world) where
  start_turn-Tidy : (d : Drive) → Tidy Clear d → Replies (Tidy Clear) (start_turn world preserve d)
  unfolding start_turn
  start_turn-Tidy d t = elim (Bool-cases (is_running d.run.status && is_open world 0 d)) [
    | inr h ↦ rw h t
    | inl h ↦ rw h (
        Replies-map (Started Clear world preserve steady d) (Tidy Clear)
          (start_ready_steps world preserve d) (λ out s. s.tidy)
          (start_ready_steps-Started Clear world preserve steady d t (ground (arith, h))))
  ]

  continue_turn-Goes :
      (item : StepResult) (d : Drive)
      → Tidy Clear d
      → (is_empty d.inflight ≡ false → contains d.inflight item.step.id ≡ true)
      → Goes (Tidy Clear) (continue_turn world item d)
  unfolding continue_turn receive
  continue_turn-Goes item d t sent = elim (Bool-cases (is_empty d.inflight)) [
    | inl h ↦ rw h (settle-Goes Clear world steady d t (empty_nil d.inflight h))
    | inr h ↦
        rw h (
          as_turn-Goes (Tidy Clear) _ (apply_step_result-Tidy Clear world steady d item t (sent h)))
  ]

  started_turn-Goes :
      (item : StepResult) (d : Drive) (r : Reply Drive)
      → Replies (Tidy Clear) r
      → ((mid : Drive)
          → r ≡ reply mid
          → is_empty mid.inflight ≡ false
          → contains mid.inflight item.step.id ≡ true)
      → Goes (Tidy Clear) (started_turn world item d r)
  unfolding started_turn
  started_turn-Goes item d (reply mid) t sent = continue_turn-Goes item mid t (sent mid refl)
  started_turn-Goes item d (fault (settings_invalid text)) t sent = tt
  started_turn-Goes item d (fault (storage text)) t sent = tt
  started_turn-Goes item d (fault (engine e)) t sent = tt
  started_turn-Goes item d (fault nil_error) t sent = tt

  turn-Tidy :
      (item : StepResult) (d next : Drive)
      → Tidy Clear d
      → Sent world preserve item d
      → turn world preserve item d ≡ goes_on next
      → Tidy Clear next
  unfolding turn
  turn-Tidy item d next t sent e =
      subst (Goes (Tidy Clear)) e
        (started_turn-Goes item d (start_turn world preserve d) (start_turn-Tidy d t) sent)

-- What a drive begins with: a definition that `Validate` accepts, and no running node but those of its
-- steps. The run may come from a start, a resume, or a resume from a named step.
pub record CanDrive (def : Definition) (run : Run) : Type 0 where
  pub valid : validate def ≡ []
  pub known :
      (x : String) → is_running_node (status_at run x) ≡ true → contains (step_ids def) x ≡ true

-- No step of the definition has paused or failed: one that has a node waits, runs or has passed. A resume
-- from a named step may leave others paused.
abbrev pub IsClear : Definition → Run → Type 0
IsClear def run =
    (x : String)
    → contains (step_ids def) x ≡ true
    → has_node run.nodes x ≡ true
    → is_active (status_at run x) ≡ true

status-settle_nodes :
    (ss : List Step) (nodes : Nodes) (x : String)
    → (node_at (settle_nodes ss nodes) x).status ≡ (
        if contains (ids_of ss) x
          && (not (has_node nodes x) || is_running_node (node_at nodes x).status)
        then pending
        else (node_at nodes x).status)
unfolding settle_nodes
status-settle_nodes [] nodes x = refl
status-settle_nodes (s ∷ ss) nodes x =
    let node = record (node_at nodes s.id) { step_id = s.id; status = pending } in
    let next = Dict.insert s.id node nodes in
    elim (Bool-cases (not (has_node nodes s.id) || is_running_node (node_at nodes s.id).status)) [
      | inl h ↦ rw h (
          ground (
            arith,
            h,
            status-settle_nodes ss next x,
            node_at-insert nodes s.id x node,
            has_node-insert nodes s.id x node,
          ))
      | inr h ↦ rw h (ground (arith, h, status-settle_nodes ss nodes x))
    ]

begin-Tidy :
    (def : Definition) (run : Run) (f : Bool)
    → CanDrive def run
    → Tidy (IsClear def run) (begin def run f)
unfolding begin
begin-Tidy def run f c =
    let status = status-settle_nodes def.steps run.nodes in
    record {
      flies = λ x m. ground (arith, status x, c.known x, m);
      going = λ x m. cc;
      known = λ x m. cc;
      once = tt;
      completed = λ _. refl;
      active = λ clear. inr (λ x m. ground (arith, status x, clear x, m));
      unique = validate-Unique def c.valid;
      valid = c.valid;
    }

-- When a drive begins under an accepted definition with no running node but those of its steps, and the
-- repository and the resolver of settings are steady in each round: in every state that it reaches, a
-- step that runs is in flight; a step in flight runs or waits to run again, is one of the definition's,
-- and is in flight once; and a completed run has nothing in flight. If no step had paused or failed at
-- the beginning, then while nothing stops the run each step waits, runs or has passed.
pub Rounds-Tidy :
    {preserve : List String} (def : Definition) (run : Run) (f : Bool) (d : Drive)
    → CanDrive def run
    → Rounds preserve (begin def run f) d
    → Tidy (IsClear def run) d
Rounds-Tidy def run f d c none_yet = begin-Tidy def run f c
Rounds-Tidy {preserve} def run f d c (one_more {d = last} before world item steady sent e) =
    turn-Tidy (IsClear def run) world preserve steady item last d
      (Rounds-Tidy def run f last c before) sent e
