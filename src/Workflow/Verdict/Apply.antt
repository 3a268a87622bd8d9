-- ===== src/Workflow/Verdict/Apply.antt =====
-- What a verdict does to the node of every step and to the run.
use mathlib.Core.List.{append-nil}
use onecatch.Base.{
  ℕ, suc, String, true, false, not, ◌&&◌, List, [], ◌∷◌, ◌++◌, contains, ◌==◌, if◌then◌else◌,
  is_blank, trim_space, ◌≡◌, ◌≢◌, ◌∙◌, refl, ◌⊎◌, inl, inr, arith, ne_of_test, String_discrete,
}
use onecatch.Base.Dict
use onecatch.Base.Dict.{Dict, lookup-insert}
use onecatch.Workflow.Model.{
  Edge, Definition, RunStatus, NodeStatus, pending, paused, completed, Message, NodeState, Run,
  Outcome, verdict_pass, verdict_rework, verdict_ask_human,
}
use onecatch.Workflow.Graph.{rework_path, edge_key}
use onecatch.Workflow.Normalize.{normalize}
use onecatch.Workflow.State.{
  ok, ◌>>=◌, Nodes, node_at, node_of, ensure_all, change_all, with_status, deliver_node,
}
use onecatch.Workflow.State.Nodes.{node_at-insert, node_at-change_all, node_at-deliver_node}
use onecatch.Workflow.Verdict.{
  apply_outcome, apply_verdict, apply_pass, apply_ask_human, apply_rework, rework_exhausted,
  rework_again, rework_edge, exhausted, rounds_at, feedback_text, finished_node, opened,
  step_exists,
}

pub rounds_at-insert :
    (rounds : Dict ℕ) (key k : String) (n : ℕ)
    → rounds_at (Dict.insert key n rounds) k ≡ (if key == k then n else rounds_at rounds k)
unfolding rounds_at
rounds_at-insert rounds key k n = ground (arith, lookup-insert key k n rounds)

pub pass_ne :
    (◌≢◌ {A = String} verdict_pass verdict_rework)
    × (◌≢◌ {A = String} verdict_ask_human verdict_rework)
    × (◌≢◌ {A = String} verdict_pass verdict_ask_human)
unfolding String_discrete
pass_ne = (ne_of_test _ _ refl, ne_of_test _ _ refl, ne_of_test _ _ refl)

module _ (input : Definition) (run : Run) (step_id : String) (outcome : Outcome) (now : ℕ) where
  abbrev pub def : Definition
  def = normalize input

  -- The node table that the verdict finds: every step has a node.
  abbrev pub before : Nodes
  before = ensure_all def.steps run.nodes

  abbrev pub finished : NodeState
  finished = finished_node outcome now (node_at before step_id)

  abbrev pub message : Message
  message = record { from = step_id; text = feedback_text outcome; at = now }

  -- A rework verdict within its rounds: the run goes on, the edge has used one round more, exactly the
  -- steps on the path are pending, the source's node is finished, the target has the feedback.
  pub record Reworked (edge : Edge) (out : Run) : Type 0 where
    pub status : out.status ≡ run.status
    pub sessions : out.sessions ≡ run.sessions
    pub rounds :
        (key : String)
        → rounds_at out.rework_rounds key ≡ (
            if edge_key edge.from edge.to == key
            then suc (rounds_at run.rework_rounds key)
            else rounds_at run.rework_rounds key)
    pub path :
        (x : String)
        → (node_of out x).status ≡ (
            if contains (rework_path def edge.from edge.to) x
            then pending
            else (node_at before x).status)
    pub inboxes :
        (x : String)
        → (node_of out x).inbox
          ≡ (if step_id == x then [] else (node_at before x).inbox)
            ++ (if (edge.to == x) && not (is_blank message.text) then message ∷ [] else [])

  abbrev path_of : Edge → List String
  path_of edge = rework_path def edge.from edge.to

  abbrev marked : Nodes
  marked = Dict.insert step_id finished before

  abbrev cleared : Edge → Nodes
  cleared edge = change_all (with_status pending) (path_of edge) marked

  node_at-cleared :
      (edge : Edge) (x : String)
      → node_at (cleared edge) x ≡ (
          if contains (path_of edge) x
          then with_status pending (if step_id == x then finished else node_at before x)
          else if step_id == x
          then finished
          else node_at before x)
  node_at-cleared edge x =
      rw (← node_at-insert before step_id x finished)
        (node_at-change_all (with_status pending) (λ n. refl) (path_of edge) marked x)

  delivered : (edge : Edge) → Nodes
  delivered edge = deliver_node edge.to message (cleared edge)

  status-delivered :
      (edge : Edge) (x : String)
      → (node_at (delivered edge) x).status
        ≡ (if contains (path_of edge) x then pending else (node_at before x).status)
  unfolding delivered
  status-delivered edge x =
      ground (arith, node_at-deliver_node edge.to x message (cleared edge), node_at-cleared edge x)

  inbox-delivered :
      (edge : Edge) (x : String)
      → (node_at (delivered edge) x).inbox
        ≡ (if step_id == x then [] else (node_at before x).inbox)
          ++ (if (edge.to == x) && not (is_blank message.text) then message ∷ [] else [])
  unfolding delivered
  inbox-delivered edge x = ground (
    arith,
    node_at-deliver_node edge.to x message (cleared edge),
    node_at-cleared edge x,
    append-nil (node_at before x).inbox,
  )

  rework_again-Reworked :
      (edge : Edge)
      → Reworked edge (rework_again def edge step_id outcome now finished (opened def run now))
  unfolding rework_again delivered
  rework_again-Reworked edge =
      let key = edge_key edge.from edge.to in
      record {
        status = refl;
        sessions = refl;
        rounds = λ k. ground (
          arith,
          rounds_at-insert run.rework_rounds key k (suc (rounds_at run.rework_rounds key)),
        );
        path = status-delivered edge;
        inboxes = inbox-delivered edge;
      }

  -- The error cases of `ApplyOutcome` leave no run.
  abbrev Passes : Type 0
  Passes = (step_exists def step_id ≡ true) × (run.status ≡ RunStatus.running)

  apply_outcome-Passes :
      Passes
      → apply_outcome input run step_id outcome now
        ≡ apply_verdict def step_id outcome now finished (opened def run now)
  unfolding apply_outcome
  apply_outcome-Passes (known, live) = ground arith

  apply_verdict-rework :
      outcome.verdict ≡ verdict_rework
      → apply_verdict def step_id outcome now finished (opened def run now)
        ≡ apply_rework def step_id outcome now finished (opened def run now)
  unfolding apply_verdict
  apply_verdict-rework v = ground (arith, pass_ne)

  -- A step that sends work back along an edge with rounds left: the run goes on with exactly the path
  -- from the target to the step pending, the feedback in the target's inbox behind what it held, the
  -- step's own inbox read, one round of the edge used, and every session kept.
  pub apply_outcome-rework :
      (edge : Edge)
      → step_exists def step_id ≡ true
      → run.status ≡ RunStatus.running
      → outcome.verdict ≡ verdict_rework
      → rework_edge def step_id outcome.target ≡ ok edge
      → exhausted def edge run ≡ false
      → (out : Run) × (apply_outcome input run step_id outcome now ≡ ok out) × Reworked edge out
  unfolding apply_rework
  apply_outcome-rework edge known live v chosen rounds_left = (
    rework_again def edge step_id outcome now finished (opened def run now),
    apply_outcome-Passes (known, live)
        ∙ apply_verdict-rework v
        ∙ rw (chosen, ◌>>=◌) (rw rounds_left refl),
    rework_again-Reworked edge,
  )

  -- What a verdict leaves that sends no work back: the step has the status, the other nodes are as they
  -- were, and so are the rounds and the sessions.
  pub record Settled (s : NodeStatus) (r : RunStatus) (out : Run) : Type 0 where
    pub status : out.status ≡ r
    pub sessions : out.sessions ≡ run.sessions
    pub rounds : out.rework_rounds ≡ run.rework_rounds
    pub nodes :
        (x : String)
        → node_of out x ≡ (if step_id == x then with_status s finished else node_at before x)

  -- What a pass leaves: the step has passed with the outcome's summary, no failures, and an empty
  -- inbox; all other nodes, the sessions and the rounds are as they were, and the run goes on.
  pub record Passed (out : Run) : Type 0 where
    pub status : out.status ≡ RunStatus.running
    pub sessions : out.sessions ≡ run.sessions
    pub rounds : out.rework_rounds ≡ run.rework_rounds
    pub statuses :
        (x : String)
        → (node_of out x).status ≡ (if step_id == x then completed else (node_at before x).status)
    pub inboxes :
        (x : String)
        → (node_of out x).inbox ≡ (if step_id == x then [] else (node_at before x).inbox)
    pub verdict : (node_of out step_id).verdict ≡ verdict_pass
    pub summary : (node_of out step_id).summary ≡ trim_space outcome.summary
    pub failures : (node_of out step_id).failures ≡ 0
    pub others : (x : String) → (step_id == x) ≡ false → node_of out x ≡ node_at before x

  -- A pass of a known step of a running run is accepted: the step is completed with the verdict and the
  -- trimmed summary of the outcome, its inbox is empty and its failures are none; every other node, the
  -- sessions and the rounds are as before, and the run keeps running.
  pub apply_outcome-pass :
      step_exists def step_id ≡ true
      → run.status ≡ RunStatus.running
      → outcome.verdict ≡ verdict_pass
      → (out : Run) × (apply_outcome input run step_id outcome now ≡ ok out) × Passed out
  unfolding apply_verdict apply_pass
  apply_outcome-pass known live v =
      let passed = with_status completed finished in
      (
        apply_pass step_id finished (opened def run now),
        apply_outcome-Passes (known, live) ∙ ground arith,
        record {
          status = live;
          sessions = refl;
          rounds = refl;
          statuses = λ x. ground (arith, node_at-insert before step_id x passed);
          inboxes = λ x. ground (arith, node_at-insert before step_id x passed);
          verdict = ground (arith, v, node_at-insert before step_id step_id passed);
          summary = ground (arith, node_at-insert before step_id step_id passed);
          failures = ground (arith, node_at-insert before step_id step_id passed);
          others = λ x other. ground (arith, other, node_at-insert before step_id x passed);
        },
      )

  -- A question for the user pauses the run, and so does rework along an edge whose rounds are used up.
  abbrev pub Asks : Type 0
  Asks =
      (outcome.verdict ≡ verdict_ask_human)
      ⊎ (outcome.verdict ≡ verdict_rework)
        × ((edge : Edge) × (rework_edge def step_id outcome.target ≡ ok edge)
            × (exhausted def edge run ≡ true))

  -- A known step of a running run asks the human, or sends work back along an edge without rounds left:
  -- the run and the step pause; every other step, the sessions and the rounds are as before.
  apply_outcome-pause :
      step_exists def step_id ≡ true
      → run.status ≡ RunStatus.running
      → Asks
      → (out : Run) × (apply_outcome input run step_id outcome now ≡ ok out)
        × Settled paused RunStatus.paused out
  unfolding apply_verdict apply_ask_human apply_rework rework_exhausted
  apply_outcome-pause known live (inl v) = (
    apply_ask_human step_id finished (opened def run now),
    apply_outcome-Passes (known, live) ∙ ground (arith, pass_ne),
    record {
      status = refl;
      sessions = refl;
      rounds = refl;
      nodes = λ x. node_at-insert before step_id x (with_status paused finished);
    },
  )
  apply_outcome-pause known live (inr (v, (edge, chosen, used_up))) = (
    rework_exhausted def edge step_id outcome finished (opened def run now),
    apply_outcome-Passes (known, live)
        ∙ apply_verdict-rework v
        ∙ rw (chosen, ◌>>=◌) (rw used_up refl),
    record {
      status = refl;
      sessions = refl;
      rounds = refl;
      nodes = λ x. node_at-insert before step_id x (with_status paused finished);
    },
  )
