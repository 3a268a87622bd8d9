-- ===== src/Workflow/Validation/Spec.antt =====
-- What `Validate` promises of a definition, and that it reports no issue exactly then.
use onecatch.Base.{
  ℕ, suc, String, true, false, List, [], ◌∷◌, ◌++◌, is_empty, is_blank, is_identifier, ◌≡◌, refl,
  ap, ◌≢◌, ◌↔◌, ◌⊎◌, arith, All, append-eq-nil, Unique, Subset,
}
use onecatch.Workflow.Model.{Step, Edge, Definition, edge_rework}
use onecatch.Workflow.Graph.{step_ids}
use onecatch.Workflow.Graph.Descendants.{Below, contains-descendants, targets}
use onecatch.Workflow.Normalize.{normalize}
use onecatch.Workflow.Normalize.Twice.{normalize_idem}
use onecatch.Workflow.Validation.{
  validate_policy, validate_steps, validate_edges, validate_parts, validate_rework, step_writes,
  validate_writes_with, validate_writes, validate_graph, validate_normal, validate,
}
use onecatch.Workflow.Validation.Acyclic.{acyclic}
use onecatch.Workflow.Validation.Acyclic.Order.{IsGraph, sources}
use onecatch.Workflow.Validation.Acyclic.Complete.{acyclic_iff}
use onecatch.Workflow.Validation.Parts.{PolicyOk, validate_policy_iff, StepOk}
use onecatch.Workflow.Validation.Lists.{EdgeOk, Distinct, validate_steps_iff, validate_edges_iff}

-- The parts of a definition, each by itself.
abbrev pub PartsOk : Definition → Type 0
PartsOk def =
    (is_identifier def.id ≡ true)
    × (is_blank def.name ≡ false)
    × (def.steps ≢ [])
    × PolicyOk def.policy
    × (All StepOk def.steps × Unique (step_ids def))
    × (All (EdgeOk (step_ids def)) def.edges × Distinct def.edges)

All-true : (es : List Edge) → All (λ f. false ≡ false) es
All-true [] = tt
All-true (e ∷ es) = (refl, All-true es)

steps_iff :
    (def : Definition)
    → (validate_steps 0 [] def.steps ≡ []) ↔ (All StepOk def.steps × Unique (step_ids def))
steps_iff def =
    let iff = validate_steps_iff 0 [] def.steps in
    (λ h. let (a, b, _) = iff.0 h in (a, b), λ (a, b). iff.1 (a, b, λ x m. refl))

edges_iff :
    (def : Definition)
    → (validate_edges 0 (step_ids def) [] def.edges ≡ [])
      ↔ (All (EdgeOk (step_ids def)) def.edges × Distinct def.edges)
edges_iff def =
    let iff = validate_edges_iff 0 (step_ids def) [] def.edges in
    (λ h. let (a, b, _) = iff.0 h in (a, b), λ (a, b). iff.1 (a, b, All-true def.edges))

is_empty_iff {ℓ} : {A : Type ℓ} (xs : List A) → (is_empty xs ≡ false) ↔ (xs ≢ [])
is_empty_iff [] = ground arith
is_empty_iff (x ∷ xs) = ground arith

parts_silent :
    (def : Definition)
    → (validate_parts def ≡ []) ↔ (
        (is_identifier def.id ≡ true)
        × (is_blank def.name ≡ false)
        × (is_empty def.steps ≡ false)
        × (validate_policy def.policy ≡ [])
        × (validate_steps 0 [] def.steps ≡ [])
        × (validate_edges 0 (step_ids def) [] def.edges ≡ []))
unfolding validate_parts
parts_silent def =
    let es = validate_edges 0 (step_ids def) [] def.edges in
    let ss = validate_steps 0 [] def.steps in
    ground (arith, append-eq-nil (validate_policy def.policy) (ss ++ es), append-eq-nil ss es)

validate_parts_iff : (def : Definition) → (validate_parts def ≡ []) ↔ PartsOk def
validate_parts_iff def =
    let tests = parts_silent def in
    let some_step = is_empty_iff def.steps in
    let policy = validate_policy_iff def.policy in
    let steps = steps_iff def in
    let edges = edges_iff def in
    (
      λ h.
          let (a, b, c, d, e, f) = tests.0 h in
          (a, b, some_step.0 c, policy.0 d, steps.0 e, edges.0 f),
      λ (a, b, c, d, e, f). tests.1 (a, b, some_step.1 c, policy.1 d, steps.1 e, edges.1 f),
    )

-- Every rework edge leads back to a step above its source.
abbrev pub ReworkUpstream : Definition → List Edge → Type 0
ReworkUpstream def = All (λ e. e.kind ≡ edge_rework → Below def e.to e.from)

validate_rework_iff :
    (def : Definition) (i : ℕ) (es : List Edge)
    → (validate_rework def i es ≡ []) ↔ ReworkUpstream def es
unfolding validate_rework
validate_rework_iff def i [] = (λ h. tt, λ h. refl)
validate_rework_iff def i (e ∷ es) =
    ground (arith, contains-descendants def e.to e.from, validate_rework_iff def (suc i) es)

-- Two steps that may write are ordered by their dependencies.
abbrev pub Ordered : Definition → Step → Step → Type 0
Ordered def l r =
    step_writes l ≡ true → step_writes r ≡ true → Below def l.id r.id ⊎ Below def r.id l.id

abbrev pub WritersOrdered : Definition → List Step → Type 0
WritersOrdered def [] = Unit
WritersOrdered def (l ∷ ls) = All (Ordered def l) ls × WritersOrdered def ls

validate_writes_with_iff :
    (def : Definition) (l : Step) (j : ℕ) (rs : List Step)
    → (validate_writes_with def l j rs ≡ []) ↔ All (Ordered def l) rs
unfolding validate_writes_with
validate_writes_with_iff def l j [] = (λ h. tt, λ h. refl)
validate_writes_with_iff def l j (r ∷ rs) = ground (
  arith,
  contains-descendants def l.id r.id,
  contains-descendants def r.id l.id,
  validate_writes_with_iff def l (suc j) rs,
)

validate_writes_iff :
    (def : Definition) (i : ℕ) (ls : List Step)
    → (validate_writes def i ls ≡ []) ↔ WritersOrdered def ls
unfolding validate_writes
validate_writes_iff def i [] = (λ h. tt, λ h. refl)
validate_writes_iff def i (l ∷ ls) = ground (
  arith,
  append-eq-nil (validate_writes_with def l (suc i) ls) (validate_writes def (suc i) ls),
  validate_writes_with_iff def l (suc i) ls,
  validate_writes_iff def (suc i) ls,
)

-- A definition that the program accepts: its parts are sound, its dependencies make no cycle, work
-- is sent back upstream only, and no two writers can run at once.
pub record IsValid (def : Definition) : Type 0 where
  pub parts : PartsOk def
  pub acyclic : (x : String) → ¬ Below def x x
  pub upstream : ReworkUpstream def def.edges
  pub ordered : WritersOrdered def def.steps

EdgeOk-ends :
    (ids : List String) (es : List Edge)
    → All (EdgeOk ids) es
    → Subset (targets es) ids × Subset (sources es) ids
EdgeOk-ends ids [] ok = (λ x m. cc, λ x m. cc)
EdgeOk-ends ids (e ∷ es) (ok, oks) =
    let (into, out) = EdgeOk-ends ids es oks in
    (λ x m. ground (arith, into x), λ x m. ground (arith, out x))

pub PartsOk-IsGraph : (def : Definition) → PartsOk def → IsGraph def
PartsOk-IsGraph def parts =
    let (into, out) = EdgeOk-ends (step_ids def) def.edges parts.5.0 in
    record { unique = parts.4.1; inside = into; rooted = out }

validate_graph_iff :
    (def : Definition)
    → (validate_graph def ≡ [])
      ↔ ((acyclic def ≡ true) × ReworkUpstream def def.edges × WritersOrdered def def.steps)
unfolding validate_graph
validate_graph_iff def = ground (
  arith,
  append-eq-nil (validate_rework def 0 def.edges) (validate_writes def 0 def.steps),
  validate_rework_iff def 0 def.edges,
  validate_writes_iff def 0 def.steps,
)

validate_normal_silent :
    (def : Definition)
    → (validate_normal def ≡ []) ↔ ((validate_parts def ≡ []) × (validate_graph def ≡ []))
unfolding validate_normal
validate_normal_silent def = ground arith

validate_normal_iff : (def : Definition) → (validate_normal def ≡ []) ↔ IsValid def
validate_normal_iff def =
    let passes = validate_normal_silent def in
    let parts = validate_parts_iff def in
    let graph = validate_graph_iff def in
    (
      λ h.
          let ok = parts.0 (passes.0 h).0 in
          let (a, up, ord) = graph.0 (passes.0 h).1 in
          record {
            parts = ok;
            acyclic = (acyclic_iff def (PartsOk-IsGraph def ok)).0 a;
            upstream = up;
            ordered = ord;
          },
      λ v.
          let a = (acyclic_iff def (PartsOk-IsGraph def v.parts)).1 v.acyclic in
          passes.1 (parts.1 v.parts, graph.1 (a, v.upstream, v.ordered)),
    )

-- `Validate` reports no issue exactly when the definition, with its defaults filled in, is valid: its
-- id, name, policy, steps and edges are well formed, the ids differ, the dependencies make no cycle,
-- rework leads upstream, and any two steps that may write are ordered.
pub validate_iff : (def : Definition) → (validate def ≡ []) ↔ IsValid (normalize def)
unfolding validate
validate_iff def = validate_normal_iff (normalize def)

pub validate-normalize : (def : Definition) → validate (normalize def) ≡ validate def
unfolding validate
validate-normalize def = ap validate_normal (normalize_idem def)
