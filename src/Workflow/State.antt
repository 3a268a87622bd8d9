-- ===== src/Workflow/State.antt =====
-- internal/domain/workflows/engine.go: errors, the node table of a run, messages, and the steps that
-- may start. `cloneRun` copies maps and slices, which values of the model never share, so a clone is
-- the run itself.
pub mod Nodes
pub mod Ready
use mathlib.Core.Option
use onecatch.Base.{
  ℕ, String, Bool, true, false, not, ◌&&◌, List, [], ◌∷◌, ◌++◌, Option, none, some, all, is_empty,
  select, ◌==◌, if◌then◌else◌, is_blank, ◌≡◌, refl, ◌⊎◌, inl, inr,
}
use onecatch.Base.Dict
use onecatch.Base.Dict.{Dict}
use onecatch.Workflow.Model.{
  Step, Definition, RunStatus, NodeStatus, unset, pending, running, completed, paused, failed,
  Message, NodeState, Run,
}
use onecatch.Workflow.Graph.{upstream}
use onecatch.Workflow.Validation.{ValidationIssue, validate}

-- The reasons that `ErrInvalidOutcome` gives, with what they quote.
pub data OutcomeReason : Type 0 where
  no_rework_edge target_required : OutcomeReason
  not_a_target unknown_verdict : String → OutcomeReason

-- `index_out_of_range` is the panic of an index expression, `nil_map` that of a write to a nil map.
pub data EngineError : Type 0 where
  invalid_definition : List ValidationIssue → EngineError
  run_id_required : EngineError
  invalid_run_state : String → RunStatus → EngineError
  run_definition_mismatch : String → String → EngineError
  unknown_step : String → EngineError
  invalid_outcome : String → OutcomeReason → EngineError
  index_out_of_range nil_map : EngineError

pub data Result {ℓ} (A : Type ℓ) : Type ℓ where
  ok : A → Result A
  err : EngineError → Result A

-- `if !test { return err }`
abbrev pub guard : Bool → EngineError → Result (Unit {0})
guard test e = if test then ok tt else err e

infixl 5 ◌>>=◌ ◌>>◌
abbrev pub ◌>>=◌ {ℓ κ} : {A : Type ℓ} {B : Type κ} → Result A → (A → Result B) → Result B
err e >>= next = err e
ok value >>= next = next value

abbrev pub ◌>>◌ {ℓ} : {B : Type ℓ} → Result (Unit {0}) → Result B → Result B
first >> next = first >>= λ _. next

pub Result-cases {ℓ} :
    {A : Type ℓ} (r : Result A) → ((a : A) × (r ≡ ok a)) ⊎ ((e : EngineError) × (r ≡ err e))
Result-cases (ok a) = inl (a, refl)
Result-cases (err e) = inr (e, refl)

pub ok_injective {ℓ} : {A : Type ℓ} {a b : A} → ok a ≡ ok b → a ≡ b
ok_injective h = cc

unfoldable pub validate_run_definition : Definition → Run → Result (Unit {0})
validate_run_definition def run = do
  let issues = validate def
  guard (is_empty issues) (invalid_definition issues)
  guard (run.workflow_id == def.id) (run_definition_mismatch run.workflow_id def.id)

-- The zero value of `NodeState`.
abbrev pub zero_node : NodeState
zero_node = record {
  step_id = "";
  status = unset;
  attempt = 0;
  failures = 0;
  verdict = "";
  summary = "";
  error = "";
  inbox = [];
  started_at = 0;
  finished_at = 0;
}

abbrev pub pending_node : String → NodeState
pending_node id = record zero_node { step_id = id; status = pending }

-- The map `run.Nodes`.
abbrev pub Nodes : Type 0
Nodes = Dict NodeState

-- `nodes[id]`
unfoldable pub node_at : Nodes → String → NodeState
node_at nodes id = Option.get_or (Dict.lookup id nodes) zero_node

-- `run.Nodes[id]`
abbrev pub node_of : Run → String → NodeState
node_of run id = node_at run.nodes id

-- `run.Nodes[id] = node`
abbrev pub set_node : String → NodeState → Run → Run
set_node id node run = record run { nodes = Dict.insert id node run.nodes }

unfoldable pub has_node : Nodes → String → Bool
has_node nodes id = elim (Dict.lookup id nodes) [ some n ↦ true | none ↦ false ]

abbrev pub ensure_node : String → Nodes → Nodes
ensure_node id nodes = if has_node nodes id then nodes else Dict.insert id (pending_node id) nodes

unfoldable pub ensure_all : List Step → Nodes → Nodes
ensure_all [] nodes = nodes
ensure_all (s ∷ ss) nodes = ensure_all ss (ensure_node s.id nodes)

abbrev pub ensure_nodes : Definition → Run → Run
ensure_nodes def run = record run { nodes = ensure_all def.steps run.nodes }

-- A change to each of some nodes, one after the other.
unfoldable pub change_all : (NodeState → NodeState) → List String → Nodes → Nodes
change_all f [] nodes = nodes
change_all f (id ∷ ids) nodes = change_all f ids (Dict.insert id (f (node_at nodes id)) nodes)

abbrev pub with_status : NodeStatus → NodeState → NodeState
with_status s node = record node { status = s }

abbrev pub received : String → Message → NodeState → NodeState
received id message node = record node { step_id = id; inbox = node.inbox ++ message ∷ [] }

unfoldable pub deliver_node : String → Message → Nodes → Nodes
deliver_node id message nodes =
    if is_blank message.text
    then nodes
    else Dict.insert id (received id message (node_at nodes id)) nodes

abbrev pub deliver : String → Message → Run → Run
deliver id message run = record run { nodes = deliver_node id message run.nodes }

-- The loop `for _, id := range ids { deliver(&out, id, message) }`.
unfoldable pub deliver_nodes : List String → Message → Nodes → Nodes
deliver_nodes [] message nodes = nodes
deliver_nodes (id ∷ ids) message nodes = deliver_nodes ids message (deliver_node id message nodes)

abbrev pub deliver_all : List String → Message → Run → Run
deliver_all ids message run = record run { nodes = deliver_nodes ids message run.nodes }

abbrev pub is_pending : NodeStatus → Bool
is_pending pending = true
is_pending _ = false

abbrev pub is_completed : NodeStatus → Bool
is_completed completed = true
is_completed _ = false

abbrev pub node_completed : Run → String → Bool
node_completed run id = is_completed (node_of run id).status

-- The test of `ReadySteps` for one step.
abbrev pub is_ready : Definition → Run → Step → Bool
is_ready def run step =
    is_pending (node_of run step.id).status && all (node_completed run) (upstream def step.id)

unfoldable pub ready_steps : Definition → Run → List Step
ready_steps def run = select (is_ready def run) def.steps

unfoldable pub all_completed : Definition → Run → Bool
all_completed def run = all (λ s. node_completed run s.id) def.steps && not (is_empty def.steps)
