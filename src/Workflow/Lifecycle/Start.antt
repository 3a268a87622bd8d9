-- ===== src/Workflow/Lifecycle/Start.antt =====
-- How a run begins: `NewRun` and `Start`.
use onecatch.Base.{
  ℕ, String, Bool, true, false, not, ◌&&◌, List, [], ◌∷◌, map, contains, contains_head, all,
  is_empty, select, if◌then◌else◌, is_blank, ◌≡◌, ◌≢◌, refl, sym, ◌∙◌, inl, inr, arith,
}
use onecatch.Base.Dict
use onecatch.Workflow.Model.{Step, Definition, RunStatus, Run}
use onecatch.Workflow.Graph.{upstream, entry_steps, step_ids}
use onecatch.Workflow.Normalize.{normalize}
use onecatch.Workflow.Validation.{validate}
use onecatch.Workflow.Validation.Spec.{IsValid, validate_iff, validate-normalize}
use onecatch.Workflow.State.{
  ok, ◌>>=◌, Nodes, zero_node, pending_node, node_at, node_of, all_completed, node_completed,
}
use onecatch.Workflow.State.Nodes.{node_at-insert}
use onecatch.Workflow.State.Ready.{contains-upstream, contains-ready_steps, ready_steps_progress}
use onecatch.Workflow.Lifecycle.{first, initial_nodes, initial_run, new_run}

node_at-initial_nodes :
    (ss : List Step) (nodes : Nodes) (x : String)
    → node_at (initial_nodes ss nodes) x
      ≡ (if contains (map (λ s. s.id) ss) x then pending_node x else node_at nodes x)
node_at-initial_nodes [] nodes x = refl
node_at-initial_nodes (s ∷ ss) nodes x = ground (
  arith,
  node_at-initial_nodes ss (Dict.insert s.id (pending_node s.id) nodes) x,
  node_at-insert nodes s.id x (pending_node s.id),
)

contains-entries :
    (p : String → Bool) (ss : List Step) (x : String)
    → contains (map (λ s. s.id) (select (λ s. p s.id) ss)) x
      ≡ (contains (map (λ s. s.id) ss) x && p x)
contains-entries p [] x = refl
contains-entries p (s ∷ ss) x = ground (arith, contains-entries p ss x)

contains-entry_steps :
    (def : Definition) (x : String)
    → contains (entry_steps def) x ≡ (contains (step_ids def) x && is_empty (upstream def x))
unfolding entry_steps
contains-entry_steps def x = contains-entries (λ id. is_empty (upstream def id)) def.steps x

no_upstream : (xs : List String) → ((u : String) → contains xs u ≡ true → ⊥) → is_empty xs ≡ true
no_upstream [] h = refl
no_upstream (x ∷ xs) h = absurd (h x (contains_head x xs))

first_ok :
    (ids : List String) (x : String)
    → contains ids x ≡ true
    → (y : String) × (first ids ≡ ok y) × (contains ids y ≡ true)
first_ok [] x m = cc
first_ok (y ∷ ids) x m = (y, refl, contains_head y ids)

module _ (def : Definition) (run_id entry : String) (now : ℕ) where
  abbrev initial : Run
  initial = initial_run def run_id entry now

  node_of-initial_run :
      (x : String)
      → node_of initial x ≡ (if contains (step_ids def) x then pending_node x else zero_node)
  unfolding initial_run node_at Dict.lookup
  node_of-initial_run x = node_at-initial_nodes def.steps [] x

  not-completed : (x : String) → node_completed initial x ≡ false
  not-completed x = ground (arith, node_of-initial_run x)

  all_completed-initial : def.steps ≢ [] → all_completed def initial ≡ false
  unfolding all_completed
  all_completed-initial h = none_done def.steps h
    where
      none_done :
          (ss : List Step)
          → ss ≢ []
          → all (λ s. node_completed initial s.id) ss && not (is_empty ss) ≡ false
      none_done [] k = absurd (k refl)
      none_done (s ∷ ss) k = ground (arith, not-completed s.id)

-- A valid definition has a step with no dependencies, so `EntrySteps(def)[0]` is in range.
pub first-entry_steps :
    (def : Definition)
    → IsValid def
    → (entry : String) × (first (entry_steps def) ≡ ok entry)
      × (contains (entry_steps def) entry ≡ true)
first-entry_steps def valid =
    let run = initial_run def "" "" 0 in
    let node = node_of-initial_run def "" "" 0 in
    elim (ready_steps_progress def run valid (λ x m. inl (ground (arith, node x)))) [
      | inl done ↦ cc (done, all_completed-initial def "" "" 0 valid.parts.2)
      | inr (x, m) ↦
          let (known, (waits, deps)) = (contains-ready_steps def run x).0 m in
          let free = no_upstream (upstream def x) (λ u k.
            ground
              (arith, deps u (sym (contains-upstream def u x) ∙ k), not-completed def "" "" 0 u)) in
          first_ok (entry_steps def) x (ground (arith, contains-entry_steps def x, known, free))
    ]

-- What a new run is: ready at revision 1, every step pending with an empty inbox and no attempt, and
-- no node besides; its current step is one with no dependencies.
pub record IsFresh (def : Definition) (run_id : String) (now : ℕ) (run : Run) : Type 0 where
  pub identity : (run.id ≡ run_id) × (run.workflow_id ≡ def.id)
  pub status : (run.status ≡ RunStatus.ready) × (run.revision ≡ 1)
  pub entry : contains (entry_steps def) run.current_step_id ≡ true
  pub nodes :
      (x : String)
      → node_of run x ≡ (if contains (step_ids def) x then pending_node x else zero_node)
  pub round : run.loop_round ≡ (if def.loop_enabled then 1 else 0)

module _ (input : Definition) (run_id : String) (now : ℕ) where
  -- Under a definition that `Validate` accepts, and an id that is not blank, `NewRun` returns a fresh
  -- run: it has no other error, and does not panic at `EntrySteps(def)[0]`.
  new_run-IsFresh :
      validate input ≡ []
      → is_blank run_id ≡ false
      → (run : Run) × (new_run input run_id now ≡ ok run) × IsFresh (normalize input) run_id now run
  unfolding new_run initial_run
  new_run-IsFresh valid named =
      let def = normalize input in
      let accepted = (validate_iff input).0 valid in
      let (entry, found, member) = first-entry_steps def accepted in
      let silent = validate-normalize input ∙ valid in
      (
        initial_run def run_id entry now,
        rw (silent, named) (rw (found, ◌>>=◌) refl),
        record {
          identity = (refl, refl);
          status = (refl, refl);
          entry = member;
          nodes = node_of-initial_run def run_id entry now;
          round = refl;
        },
      )
