-- ===== src/Workflow/Verdict/Edges.antt =====
-- The rework edge that a verdict takes is one of the step's own, and leads upstream.
use onecatch.Base.{
  String, true, ◌&&◌, List, [], ◌∷◌, find, select, ◌==◌, ◌≡◌, ◌⊎◌, inl, inr, arith, All, All-select,
  find-All, Option-cases, Bool-cases,
}
use onecatch.Workflow.Model.{Edge, Definition, edge_rework}
use onecatch.Workflow.Graph.{rework_edges}
use onecatch.Workflow.State.{ok, ok_injective}
use onecatch.Workflow.Verdict.{rework_edge, pick_edge, only_edge, chosen_edge}

module _ (Q : Edge → Type 0) (step_id target : String) where
  -- A chosen edge has what all the candidates have, and goes to the target if one is named.
  abbrev Chosen : Edge → Type 0
  Chosen edge = Q edge × ((target ≡ "") ⊎ (edge.to ≡ target))

  chosen_edge-All :
      (edges : List Edge) {edge : Edge}
      → All Q edges
      → chosen_edge step_id target edges ≡ ok edge
      → Chosen edge
  unfolding chosen_edge
  chosen_edge-All edges {edge} h e = elim (Option-cases (find (λ e. e.to == target) edges)) [
    | inl missing ↦ cc (rw (missing, chosen_edge) at e)
    | inr (x, found) ↦
        let same : x ≡ edge = ok_injective (rw (found, chosen_edge) at e) in
        let (q, to) = find-All Q (λ e. e.to == target) edges h found in
        rw (← same) (q, inr (ground arith))
  ]

  only_edge_All :
      (edges : List Edge) {edge : Edge} → All Q edges → only_edge step_id edges ≡ ok edge → Q edge
  unfolding only_edge
  only_edge_All [] h e = cc
  only_edge_All (x ∷ []) {edge} h e = let same : x ≡ edge = ok_injective e in rw (← same) h.0
  only_edge_All (x ∷ y ∷ edges) h e = cc

  pick_edge-All :
      (edges : List Edge) {edge : Edge}
      → All Q edges
      → pick_edge step_id target edges ≡ ok edge
      → Chosen edge
  unfolding pick_edge
  pick_edge-All [] h e = cc
  pick_edge-All (x ∷ edges) h e = elim (Bool-cases (target == "")) [
    | inl blank ↦ (only_edge_All (x ∷ edges) h (rw (blank, pick_edge) at e), inl (ground arith))
    | inr named ↦ chosen_edge-All (x ∷ edges) h (rw (named, pick_edge) at e)
  ]

-- What holds of every edge of the definition holds of the one that a verdict takes, which is a rework
-- edge of the step.
pub rework_edge-All :
    (P : Edge → Type 0) (def : Definition) (step_id target : String) {edge : Edge}
    → All P def.edges
    → rework_edge def step_id target ≡ ok edge
    → P edge
      × (edge.kind ≡ edge_rework)
      × (edge.from ≡ step_id)
      × ((target ≡ "") ⊎ (edge.to ≡ target))
unfolding rework_edge rework_edges
rework_edge-All P def step_id target h e =
    let test = λ (x : Edge). (x.kind == edge_rework) && (x.from == step_id) in
    let ((p, kind), to) =
      pick_edge-All (λ x. P x × (test x ≡ true)) step_id target (select test def.edges)
        (All-select P test def.edges h) e in
    (p, ground arith, ground arith, to)
