-- ===== src/Workflow/State/Ready.antt =====
-- Which steps `ReadySteps` offers, and that an unfinished run of a valid definition is never stuck.
use onecatch.Base.{
  String, Bool, true, ◌&&◌, List, [], ◌∷◌, map, contains, contains_head, all, select, ◌==◌, ◌≡◌,
  refl, sym, ◌∙◌, ◌⊎◌, ◌↔◌, inl, inr, arith, or_cases, Subset,
}
use onecatch.Workflow.Model.{Step, Edge, Definition, NodeStatus, pending, completed, Run}
use onecatch.Workflow.Graph.{is_next, upstream, downstream, step_ids}
use onecatch.Workflow.Graph.Descendants.{Arc}
use onecatch.Workflow.Validation.Acyclic.Order.{Sorted, acyclic-Sorted}
use onecatch.Workflow.Validation.Acyclic.Complete.{acyclic_iff}
use onecatch.Workflow.Validation.Spec.{IsValid, PartsOk-IsGraph}
use onecatch.Workflow.State.{
  node_of, node_completed, is_ready, is_pending, is_completed, ready_steps, all_completed,
}

contains-arcs :
    (es : List Edge) (u x : String)
    → contains (map (λ e. e.from) (select (λ e. is_next e && (e.to == x)) es)) u
      ≡ contains (map (λ e. e.to) (select (λ e. is_next e && (e.from == u)) es)) x
contains-arcs [] u x = refl
contains-arcs (e ∷ es) u x = ground (arith, contains-arcs es u x)

-- Upstream and downstream are the two ways to read one relation.
pub contains-upstream :
    (def : Definition) (u x : String) → contains (upstream def x) u ≡ contains (downstream def u) x
unfolding upstream downstream
contains-upstream def u x = contains-arcs def.edges u x

all_iff :
    (p : String → Bool) (xs : List String)
    → (all p xs ≡ true) ↔ ((x : String) → contains xs x ≡ true → p x ≡ true)
all_iff p [] = (λ h x m. cc, λ h. refl)
all_iff p (y ∷ xs) = (
  λ h x m. elim (or_cases (y == x) _ m) [
    | inl here ↦ ground arith
    | inr there ↦ (all_iff p xs).0 (ground arith) x there
  ],
  λ h. ground (arith, h y (contains_head y xs), (all_iff p xs).1 (λ x m. h x (ground arith))),
)

module _ (def : Definition) (run : Run) where
  abbrev pub Done : String → Type 0
  Done x = (node_of run x).status ≡ completed

  -- A step that is waiting and has all its dependencies passed.
  abbrev pub Startable : String → Type 0
  Startable x = ((node_of run x).status ≡ pending) × ((u : String) → Arc def u x → Done u)

  is_completed_iff : (s : NodeStatus) → (is_completed s ≡ true) ↔ (s ≡ completed)
  is_completed_iff s = ground arith

  upstream_iff :
      (x : String)
      → (all (node_completed run) (upstream def x) ≡ true) ↔ ((u : String) → Arc def u x → Done u)
  upstream_iff x =
      let iff = all_iff (node_completed run) (upstream def x) in
      (
        λ h u arc.
            (is_completed_iff (node_of run u).status).0
              (iff.0 h u (contains-upstream def u x ∙ arc)),
        λ h. iff.1 (λ u m.
            (is_completed_iff (node_of run u).status).1
              (h u (sym (contains-upstream def u x) ∙ m))),
      )

  abbrev ready_at : String → Bool
  ready_at x = is_pending (node_of run x).status && all (node_completed run) (upstream def x)

  ready_at_iff : (x : String) → (ready_at x ≡ true) ↔ Startable x
  ready_at_iff x =
      let iff = upstream_iff x in
      (λ h. (ground arith, iff.0 (ground arith)), λ (waits, deps). ground (arith, iff.1 deps))

  contains-select_ready :
      (ss : List Step) (x : String)
      → contains (map (λ s. s.id) (select (is_ready def run) ss)) x
        ≡ (contains (map (λ s. s.id) ss) x && ready_at x)
  contains-select_ready [] x = refl
  contains-select_ready (s ∷ ss) x = ground (arith, contains-select_ready ss x)

  -- `ReadySteps` offers exactly the steps of the definition that are pending and whose direct
  -- dependencies have all passed.
  pub contains-ready_steps :
      (x : String)
      → (contains (map (λ s. s.id) (ready_steps def run)) x ≡ true)
        ↔ ((contains (step_ids def) x ≡ true) × Startable x)
  unfolding ready_steps
  contains-ready_steps x =
      let iff = ready_at_iff x in
      let e = contains-select_ready def.steps x in
      (
        λ h. (ground (arith, e), iff.0 (ground (arith, e))),
        λ (known, starts). ground (arith, e, iff.1 starts),
      )

  abbrev pub Idle : Type 0
  Idle =
      (x : String) → contains (step_ids def) x ≡ true → ((node_of run x).status ≡ pending) ⊎ Done x

  -- Along a topological order, either all has passed or the first step that has not can start.
  frontier :
      (us : List String)
      → Sorted def us
      → Subset us (step_ids def)
      → Idle
      → ((x : String) → contains us x ≡ true → Done x)
        ⊎ ((x : String) × (contains (step_ids def) x ≡ true) × Startable x)
  frontier [] sorted known idle = inl (λ x m. cc)
  frontier (u ∷ us) (new, deps, sorted) known idle =
      elim (frontier us sorted (λ x m. known x (ground arith)) idle) [
        | inr found ↦ inr found
        | inl done ↦
            let here = known u (contains_head u us) in
            elim (idle u here) [
              | inl waits ↦ inr (u, here, (waits, λ x arc. done x (deps x arc)))
              | inr passed ↦ inl (λ x m. elim (or_cases (u == x) _ m) [
                | inl same ↦ ground arith
                | inr there ↦ done x there
              ])
            ]
      ]

all_steps :
    (run : Run) (ss : List Step)
    → ((x : String) → contains (map (λ s. s.id) ss) x ≡ true → (node_of run x).status ≡ completed)
    → all (λ s. node_completed run s.id) ss ≡ true
all_steps run [] done = refl
all_steps run (s ∷ ss) done = ground (
  arith,
  done s.id (contains_head s.id (map (λ s. s.id) ss)),
  all_steps run ss (λ x m. done x (ground arith)),
)

-- When each step of a valid definition is pending or has passed, the run has either passed every step
-- or has a step that can start.
pub ready_steps_progress :
    (def : Definition) (run : Run)
    → IsValid def
    → Idle def run
    → (all_completed def run ≡ true)
      ⊎ ((x : String) × (contains (map (λ s. s.id) (ready_steps def run)) x ≡ true))
unfolding all_completed
ready_steps_progress def run valid idle =
    let g = PartsOk-IsGraph def valid.parts in
    let (visited, sorted, full, inside) =
      acyclic-Sorted def g ((acyclic_iff def g).1 valid.acyclic) in
    elim (frontier def run visited sorted inside idle) [
      | inr (x, known, starts) ↦ inr (x, (contains-ready_steps def run x).1 (known, starts))
      | inl done ↦
          inl (ground (arith, all_steps run def.steps (λ x m. done x (full x m)), valid.parts.2))
    ]
