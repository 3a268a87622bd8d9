-- ===== src/Workflow/Validation/Lists.antt =====
-- What the loops of the first pass demand of the steps and of the edges together.
use onecatch.Base.{
  ℕ, suc, String, true, false, List, [], ◌∷◌, map, contains, contains_head, ◌≡◌, refl, ◌≢◌, ◌↔◌,
  ◌⊎◌, inl, inr, arith, All, append-eq-nil, Unique, Bool-cases,
}
use onecatch.Base.Int.{pos, ◌≤ℤ◌}
use onecatch.Workflow.Model.{Step, Edge, edge_next, edge_rework}
use onecatch.Workflow.Validation.{
  validate_step, validate_steps, validate_edge, validate_edges, seen_edge, same_edge, edge_kind_ok,
}
use onecatch.Workflow.Validation.Parts.{StepOk, validate_step_iff}

abbrev pub Disjoint : List String → List String → Type 0
Disjoint earlier ids = (x : String) → contains ids x ≡ true → contains earlier x ≡ false

Disjoint-cons :
    (earlier ids : List String) (id : String)
    → ((contains earlier id ≡ false) × (contains ids id ≡ false) × Disjoint earlier ids)
      ↔ ((contains ids id ≡ false) × Disjoint earlier (id ∷ ids))
Disjoint-cons earlier ids id = (
  λ (a, b, d). (b, λ x m. ground (arith, d x)),
  λ (b, d). (d id (contains_head id ids), b, λ x m. d x (ground arith)),
)

Disjoint-earlier :
    (earlier ids : List String) (id : String)
    → Disjoint (id ∷ earlier) ids ↔ ((contains ids id ≡ false) × Disjoint earlier ids)
Disjoint-earlier earlier ids id = (
  λ d. (
    elim (Bool-cases (contains ids id)) [ inl m ↦ absurd (ground (arith, d id m)) | inr n ↦ n ],
    λ x m. ground (arith, d x),
  ),
  λ (n, d) x m. ground (arith, d x),
)

abbrev pub ids_of : List Step → List String
ids_of = map (λ s. s.id)

abbrev pub StepsOk : List String → List Step → Type 0
StepsOk earlier ss = All StepOk ss × Unique (ids_of ss) × Disjoint earlier (ids_of ss)

pub validate_steps_iff :
    (i : ℕ) (earlier : List String) (ss : List Step)
    → (validate_steps i earlier ss ≡ []) ↔ StepsOk earlier ss
unfolding validate_steps
validate_steps_iff i earlier [] = (λ h. (tt, tt, λ x m. cc), λ h. refl)
validate_steps_iff i earlier (s ∷ ss) =
    let parts =
      append-eq-nil (validate_step i earlier s) (validate_steps (suc i) (s.id ∷ earlier) ss) in
    let this = validate_step_iff i earlier s in
    let rest = validate_steps_iff (suc i) (s.id ∷ earlier) ss in
    let shift = Disjoint-earlier earlier (ids_of ss) s.id in
    let cons = Disjoint-cons earlier (ids_of ss) s.id in
    (
      λ h.
          let (new, ok) = this.0 (parts.0 h).0 in
          let (oks, once, apart) = rest.0 (parts.0 h).1 in
          let (away, far) = shift.0 apart in
          let (fresh, all_far) = cons.0 (new, away, far) in ((ok, oks), (fresh, once), all_far),
      λ ((ok, oks), (fresh, once), far).
          let (new, away, apart) = cons.1 (fresh, far) in
          parts.1 (this.1 (new, ok), rest.1 (oks, once, shift.1 (away, apart))),
    )

abbrev pub EdgeOk : List String → Edge → Type 0
EdgeOk ids e =
    ((e.kind ≡ edge_next) ⊎ (e.kind ≡ edge_rework))
    × (contains ids e.from ≡ true)
    × (contains ids e.to ≡ true)
    × (e.from ≢ e.to)
    × (pos 0 ≤ℤ e.max_rounds)
    × (e.max_rounds ≤ℤ pos 50)

-- No two edges have the same ends and the same kind.
abbrev pub Distinct : List Edge → Type 0
Distinct [] = Unit
Distinct (e ∷ es) = All (λ f. same_edge e f ≡ false) es × Distinct es

abbrev pub Unseen : List Edge → List Edge → Type 0
Unseen earlier = All (λ f. seen_edge earlier f ≡ false)

Unseen-cons :
    (e : Edge) (earlier es : List Edge)
    → Unseen (e ∷ earlier) es ↔ (All (λ f. same_edge e f ≡ false) es × Unseen earlier es)
Unseen-cons e earlier [] = (λ h. (tt, tt), λ h. tt)
Unseen-cons e earlier (f ∷ es) = ground (arith, Unseen-cons e earlier es)

abbrev EdgeTests : List String → List Edge → Edge → Type 0
EdgeTests ids earlier e =
    (contains ids e.from ≡ true)
    × (contains ids e.to ≡ true)
    × (e.from ≢ e.to)
    × (pos 0 ≤ℤ e.max_rounds)
    × (e.max_rounds ≤ℤ pos 50)
    × (seen_edge earlier e ≡ false)

validate_edge_iff :
    (i : ℕ) (ids : List String) (earlier : List Edge) (e : Edge)
    → (validate_edge i ids earlier e ≡ []) ↔ EdgeTests ids earlier e
unfolding validate_edge
validate_edge_iff i ids earlier e = ground arith

abbrev pub EdgesOk : List String → List Edge → List Edge → Type 0
EdgesOk ids earlier es = All (EdgeOk ids) es × Distinct es × Unseen earlier es

pub validate_edges_iff :
    (i : ℕ) (ids : List String) (earlier es : List Edge)
    → (validate_edges i ids earlier es ≡ []) ↔ EdgesOk ids earlier es
unfolding validate_edges
validate_edges_iff i ids earlier [] = (λ h. (tt, tt, tt), λ h. refl)
validate_edges_iff i ids earlier (e ∷ es) = elim (Bool-cases (edge_kind_ok e)) [
  | inl known ↦
      rw (known, validate_edges)
        (ground (
          arith,
          append-eq-nil (validate_edge i ids earlier e)
              (validate_edges (suc i) ids (e ∷ earlier) es),
          validate_edge_iff i ids earlier e,
          validate_edges_iff (suc i) ids (e ∷ earlier) es,
          Unseen-cons e earlier es,
          known,
        ))
  | inr unknown ↦ rw (unknown, validate_edges) (ground (arith, unknown))
]
