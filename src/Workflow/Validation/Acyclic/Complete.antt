-- ===== src/Workflow/Validation/Acyclic/Complete.antt =====
-- When `acyclic` says no, some step lies below itself: walking back from a step that was never
-- visited, through dependencies that were not, must come to a step twice.
use onecatch.Base.{
  ℕ, zero, suc, ◌+◌, ◌<◌, String, true, false, not, ◌&&◌, List, [], ◌∷◌, ◌≡◌, refl, ◌≢◌, ◌⊎◌, ◌↔◌,
  ◌==◌, arith, length, contains, contains_head, Bool-cases, or_cases, inl, inr, Unique, Subset,
  length_le-Subset,
}
use onecatch.Workflow.Model.{Edge, Definition}
use onecatch.Workflow.Graph.{is_next, downstream, step_ids}
use onecatch.Workflow.Graph.Descendants.{Arc, Below, child, later}
use onecatch.Workflow.Validation.Acyclic.{acyclic}
use onecatch.Workflow.Validation.Acyclic.Degrees.{remaining, arcs_from}
use onecatch.Workflow.Validation.Acyclic.Order.{
  IsGraph, sources, Stuck, acyclic-Stuck, acyclic_sound,
}

Below-trans : (def : Definition) {x y z : String} → Below def x y → Below def y z → Below def x z
Below-trans def a (child arc) = later a arc
Below-trans def a (later b arc) = later (Below-trans def a b) arc

-- A dependency that is not yet visited.
unvisited :
    (es : List Edge) (visited : List String) (x : String)
    → remaining es visited x ≢ 0
    → (u : String) × (contains (arcs_from es u) x ≡ true)
      × (contains visited u ≡ false)
      × (contains (sources es) u ≡ true)
unvisited [] visited x h = absurd (h refl)
unvisited (e ∷ es) visited x h =
    elim (Bool-cases (is_next e && (e.to == x) && not (contains visited e.from))) [
      | inl this ↦ (e.from, ground arith, ground arith, ground arith)
      | inr other ↦
          let (u, arc, new, from) = unvisited es visited x (ground arith) in
          (u, ground arith, new, ground arith)
    ]

outsider :
    (ys xs : List String)
    → ((y : String) × (contains ys y ≡ true) × (contains xs y ≡ false)) ⊎ Subset ys xs
outsider [] xs = inr (λ y m. cc)
outsider (y ∷ ys) xs = elim (Bool-cases (contains xs y)) [
  | inr out ↦ inl (y, contains_head y ys, out)
  | inl held ↦ elim (outsider ys xs) [
    | inl (z, m, out) ↦ inl (z, ground arith, out)
    | inr all_held ↦ inr (λ z m. ground (arith, all_held z))
  ]
]

module _ (def : Definition) (g : IsGraph def) (visited : List String)
    (stuck : Stuck def visited) where
  -- `chain` holds steps below `head`.
  record Climb (head : String) (chain : List String) : Type 0 where
    above : (c : String) → contains chain c ≡ true → Below def head c
    once : Unique (head ∷ chain)
    steps : Subset (head ∷ chain) (step_ids def)
    new : contains visited head ≡ false

  dependency :
      (x : String)
      → contains (step_ids def) x ≡ true
      → contains visited x ≡ false
      → (u : String) × Arc def u x
        × (contains visited u ≡ false)
        × (contains (step_ids def) u ≡ true)
  unfolding downstream
  dependency x k n =
      let (u, arc, new, from) = unvisited def.edges visited x (stuck x k n) in
      (u, arc, new, g.rooted u from)

  climb :
      (n : ℕ) (head : String) (chain : List String)
      → length (step_ids def) < n + length (head ∷ chain)
      → Climb head chain
      → (x : String) × Below def x x
  climb zero head chain h c =
      absurd (omega (arith, length_le-Subset (head ∷ chain) (step_ids def) c.once c.steps))
  climb (suc n) head chain h c =
      let (u, arc, new, known) = dependency head (c.steps head (contains_head head chain)) c.new in
      elim (Bool-cases (contains (head ∷ chain) u)) [
        | inl again ↦ (
          u,
          elim (or_cases (head == u) _ again) [
            | inl same ↦ let e : head ≡ u = ground arith in child (rw e at arc)
            | inr below ↦ Below-trans def (child arc) (c.above u below)
          ],
        )
        | inr fresh ↦ climb n u (head ∷ chain) (omega arith) (record {
          above = λ x m. elim (or_cases (head == x) _ m) [
            | inl same ↦ let e : head ≡ x = ground arith in rw (← e) (child arc)
            | inr below ↦ Below-trans def (child arc) (c.above x below)
          ];
          once = (fresh, c.once);
          steps = λ x m. ground (arith, c.steps x);
          new = new;
        })
      ]

  cycle_from :
      (x : String)
      → contains (step_ids def) x ≡ true
      → contains visited x ≡ false
      → (y : String) × Below def y y
  cycle_from x k n =
      climb (length (step_ids def)) x [] (omega arith)
        (record { above = λ c m. cc; once = (refl, tt); steps = λ y m. ground arith; new = n })

acyclic-complete :
    (def : Definition) → IsGraph def → acyclic def ≡ false → (x : String) × Below def x x
acyclic-complete def g h =
    let (visited, stuck, short) = acyclic-Stuck def g h in
    elim (outsider (step_ids def) visited) [
      | inl (x, k, n) ↦ cycle_from def g visited stuck x k n
      | inr all_visited ↦
          absurd (omega (arith, length_le-Subset (step_ids def) visited g.unique all_visited))
    ]

-- On a definition whose steps have different ids and whose edges join steps, `acyclic` says yes
-- exactly when no step lies below itself along dependency edges.
pub acyclic_iff :
    (def : Definition) → IsGraph def → (acyclic def ≡ true) ↔ ((x : String) → ¬ Below def x x)
acyclic_iff def g = (
  λ h x. acyclic_sound def x g h,
  λ none_below. elim (Bool-cases (acyclic def)) [
    | inl h ↦ h
    | inr h ↦ let (x, b) = acyclic-complete def g h in absurd (none_below x b)
  ],
)
