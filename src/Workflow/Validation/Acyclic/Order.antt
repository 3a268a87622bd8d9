-- ===== src/Workflow/Validation/Acyclic/Order.antt =====
-- When `acyclic` says yes, the steps in the order of its visits are a topological order, and no step
-- lies below itself.
use onecatch.Base.{
  ℕ, zero, suc, ◌+◌, ◌<◌, String, true, false, ◌&&◌, ◌||◌, List, [], ◌∷◌, map, some, ◌≡◌, refl, sym,
  ap, ◌≢◌, ◌∙◌, ◌==◌, arith, length, contains, contains_head, Bool-cases, or_cases, inl, inr,
  Unique, Subset, Subset_of_length, length_le-Subset, length-map,
}
use onecatch.Base.Int.{ℤ, pos, is_zero}
use onecatch.Base.Dict
use onecatch.Base.Dict.{Dict}
use onecatch.Workflow.Model.{Edge, Definition}
use onecatch.Workflow.Graph.{downstream, step_ids}
use onecatch.Workflow.Graph.Descendants.{Arc, Below, child, later, targets, contains-Arc}
use onecatch.Workflow.Validation.Acyclic.{
  degree, count_arcs, roots, release, visit, visited_steps, acyclic,
}
use onecatch.Workflow.Validation.Acyclic.Rounds.{visited_steps_returns}
use onecatch.Workflow.Validation.Acyclic.Degrees.{
  remaining, count, remaining-visit, remaining_zero, contains-count, degree-count_arcs, Owes,
  degree-release, contains-release, Unique-release,
}

module _ (def : Definition) where
  -- Latest first: a step comes after all that it depends on.
  abbrev pub Sorted : List String → Type 0
  Sorted [] = Unit
  Sorted (u ∷ us) =
      (contains us u ≡ false) × ((x : String) → Arc def x u → contains us x ≡ true) × Sorted us

  Sorted-Arc :
      (us : List String) (x y : String)
      → Sorted us
      → contains us y ≡ true
      → Arc def x y
      → contains us x ≡ true
  Sorted-Arc [] x y s m arc = cc
  Sorted-Arc (u ∷ us) x y (new, deps, s) m arc = elim (or_cases (u == y) _ m) [
    | inl here ↦ ground (arith, deps x)
    | inr there ↦ ground (arith, Sorted-Arc us x y s there arc)
  ]

  Sorted-Below :
      (us : List String) (x : String) {y : String}
      → Sorted us
      → contains us y ≡ true
      → Below def x y
      → contains us x ≡ true
  Sorted-Below us x s m (child arc) = Sorted-Arc us x _ s m arc
  Sorted-Below us x s m (later {v} b arc) = Sorted-Below us x s (Sorted-Arc us v _ s m arc) b

  -- What a step below itself would need before its own visit.
  before :
      (us : List String) (x : String) {y : String}
      → Sorted us
      → ((z : String) → Arc def z y → contains us z ≡ true)
      → Below def x y
      → contains us x ≡ true
  before us x s deps (child arc) = deps x arc
  before us x s deps (later {v} b arc) = Sorted-Below us x s (deps v arc) b

  Sorted-acyclic :
      (us : List String) (x : String) → Sorted us → contains us x ≡ true → ¬ Below def x x
  Sorted-acyclic [] x s m b = cc
  Sorted-acyclic (u ∷ us) x (new, deps, s) m b = elim (Bool-cases (contains us x)) [
    | inl there ↦ Sorted-acyclic us x s there b
    | inr away ↦
        let e : u ≡ x = ground arith in
        cc (away, before us x s (λ z arc. deps z (rw (← e) at arc)) b)
  ]

  record Inv (visited queue : List String) (d : Dict ℤ) : Type 0 where
    degrees : (x : String) → degree d x ≡ pos (remaining def.edges visited x)
    sorted : Sorted visited
    queued :
        (x : String)
        → contains queue x ≡ true
        → (contains visited x ≡ false) × (remaining def.edges visited x ≡ 0)
    finished : (x : String) → contains visited x ≡ true → remaining def.edges visited x ≡ 0
    ready :
        (x : String)
        → contains (step_ids def) x ≡ true
        → remaining def.edges visited x ≡ 0
        → (contains visited x || contains queue x) ≡ true
    once : Unique queue
    known :
        (x : String)
        → (contains visited x || contains queue x) ≡ true
        → contains (step_ids def) x ≡ true

  Arc-visited :
      (visited : List String) (u x : String)
      → remaining def.edges visited x ≡ 0
      → Arc def u x
      → contains visited u ≡ true
  unfolding downstream
  Arc-visited visited u x z arc = remaining_zero def.edges visited u x z arc

  module _ (visited queue : List String) (u : String) (d : Dict ℤ)
      (inv : Inv visited (u ∷ queue) d) where
    abbrev left : String → ℕ
    left = remaining def.edges (u ∷ visited)

    abbrev freed : Dict ℤ × List String
    freed = release (downstream def u) d queue

    fewer : (x : String) → left x + count (downstream def u) x ≡ remaining def.edges visited x
    unfolding downstream
    fewer x = remaining-visit def.edges visited u x (inv.queued u (contains_head u queue)).0

    owes : Owes left (downstream def u) d
    owes x = inv.degrees x ∙ ap pos (sym (fewer x))

    -- A dependent of the visited step was neither visited nor queued.
    waits : (x : String) → Arc def u x → remaining def.edges visited x ≢ 0
    waits x arc z = cc ((inv.queued u (contains_head u queue)).0, Arc-visited visited u x z arc)

    Inv-round : Subset (targets def.edges) (step_ids def) → Inv (u ∷ visited) freed.1 freed.0
    Inv-round inside =
        let waiting = contains-release left (downstream def u) d queue owes in
        let (new, zero_left) = inv.queued u (contains_head u queue) in
        record {
          degrees = degree-release left (downstream def u) d queue owes;
          sorted = (new, λ x arc. Arc-visited visited x u zero_left arc, inv.sorted);
          queued = λ x m.
              ground (arith, waiting x, inv.queued x, fewer x, waits x, inv.finished x, inv.once.0);
          finished = λ x m. ground (arith, fewer x, zero_left, inv.finished x);
          ready = λ x k z.
              ground (arith, waiting x, fewer x, inv.ready x, contains-count (downstream def u) x);
          once =
              Unique-release left (downstream def u) d queue owes
                (λ x arc. ground (arith, inv.queued x, waits x arc)) inv.once.1;
          known = λ x m.
              ground (arith, waiting x, inv.known x, inv.known u, inside x, contains-Arc def u x);
        }

  -- The loop ends with an empty queue, having counted what it visited.
  abbrev Ends : ℕ → Type 0
  Ends m = (visited : List String) × (d : Dict ℤ) × Inv visited [] d × (m ≡ length visited)

  visit-Inv :
      Subset (targets def.edges) (step_ids def)
      → (rounds : ℕ) (visited queue : List String) (d : Dict ℤ) (n m : ℕ) → Inv visited queue d
      → n ≡ length visited
      → visit def rounds d queue n ≡ some m
      → Ends m
  unfolding visit
  visit-Inv inside zero visited [] d n m inv e h = (visited, d, inv, ground arith)
  visit-Inv inside (suc rounds) visited [] d n m inv e h = (visited, d, inv, ground arith)
  visit-Inv inside zero visited (u ∷ queue) d n m inv e h = cc
  visit-Inv inside (suc rounds) visited (u ∷ queue) d n m inv e h =
      visit-Inv inside rounds (u ∷ visited) (release (downstream def u) d queue).1
        (release (downstream def u) d queue).0 (suc n) m (Inv-round visited queue u d inv inside)
        (omega arith) h

  contains-roots :
      (d : Dict ℤ) (ids : List String) (x : String)
      → contains (roots d ids) x ≡ (contains ids x && is_zero (degree d x))
  contains-roots d [] x = refl
  contains-roots d (y ∷ ids) x = ground (arith, contains-roots d ids x)

  Unique-roots : (d : Dict ℤ) (ids : List String) → Unique ids → Unique (roots d ids)
  Unique-roots d [] u = u
  Unique-roots d (y ∷ ids) u = ground (arith, Unique-roots d ids, contains-roots d ids y)

  Inv-start :
      Unique (step_ids def)
      → Inv [] (roots (count_arcs def.edges []) (step_ids def)) (count_arcs def.edges [])
  unfolding Dict.lookup
  Inv-start u =
      let d = count_arcs def.edges [] in
      let degrees = λ (x : String). degree-count_arcs def.edges [] x 0 refl in
      let starts = contains-roots d (step_ids def) in
      record {
        degrees = λ x. ground (arith, degrees x);
        sorted = tt;
        queued = λ x m. ground (arith, degrees x, starts x);
        finished = λ x m. cc;
        ready = λ x k z. ground (arith, degrees x, starts x);
        once = Unique-roots d (step_ids def) u;
        known = λ x m. ground (arith, starts x);
      }

  Sorted-Unique : (us : List String) → Sorted us → Unique us
  Sorted-Unique [] s = tt
  Sorted-Unique (u ∷ us) s = (s.0, Sorted-Unique us s.2)

abbrev pub sources : List Edge → List String
sources = map (λ e. e.from)

-- The steps have different ids, and every edge leads from one of them to one of them.
pub record IsGraph (def : Definition) : Type 0 where
  pub unique : Unique (step_ids def)
  pub inside : Subset (targets def.edges) (step_ids def)
  pub rooted : Subset (sources def.edges) (step_ids def)

visited_steps_all :
    (def : Definition) → acyclic def ≡ true → visited_steps def ≡ some (length def.steps)
unfolding acyclic
visited_steps_all def h = let (m, e) = visited_steps_returns def in ground (arith, e)

visited_steps-Ends :
    (def : Definition) {m : ℕ} → IsGraph def → visited_steps def ≡ some m → Ends def m
unfolding visited_steps
visited_steps-Ends def {m} g h =
    let d = count_arcs def.edges [] in
    visit-Inv def g.inside (length def.steps + length def.edges) [] (roots d (step_ids def)) d 0 m
      (Inv-start def g.unique) refl h

length-step_ids : (def : Definition) → length (step_ids def) ≡ length def.steps
length-step_ids def = length-map (λ s. s.id) def.steps

pub acyclic-Sorted :
    (def : Definition)
    → IsGraph def
    → acyclic def ≡ true
    → (visited : List String) × Sorted def visited
      × Subset (step_ids def) visited
      × Subset visited (step_ids def)
acyclic-Sorted def g h =
    let (visited, d, inv, counted) = visited_steps-Ends def g (visited_steps_all def h) in
    (
      visited,
      inv.sorted,
      Subset_of_length visited (step_ids def) (Sorted-Unique def visited inv.sorted)
          (λ x m. inv.known x (ground arith)) (omega (arith, length-step_ids def)),
      λ x m. inv.known x (ground arith),
    )

-- A loop that visits every step makes `acyclic` say yes; otherwise some steps stay unvisited, and
-- each of those has a dependency that stays unvisited.
abbrev pub Stuck : Definition → List String → Type 0
Stuck def visited =
    (x : String)
    → contains (step_ids def) x ≡ true
    → contains visited x ≡ false
    → remaining def.edges visited x ≢ 0

pub acyclic-Stuck :
    (def : Definition)
    → IsGraph def
    → acyclic def ≡ false
    → (visited : List String) × Stuck def visited × (length visited < length (step_ids def))
unfolding acyclic
acyclic-Stuck def g h =
    let (m, e) = visited_steps_returns def in
    let (visited, d, inv, counted) = visited_steps-Ends def g e in
    let fits =
      length_le-Subset visited (step_ids def) (Sorted-Unique def visited inv.sorted)
        (λ x m. inv.known x (ground arith)) in
    (
      visited,
      λ x k n z. cc (inv.ready x k z, n),
      ground (arith, e, fits, counted, length-step_ids def),
    )

Below-inside :
    (def : Definition) {x y : String}
    → IsGraph def
    → Below def x y
    → contains (step_ids def) y ≡ true
Below-inside def {x} {y} g (child arc) = g.inside y (contains-Arc def x y arc)
Below-inside def {x} {y} g (later {v} b arc) = g.inside y (contains-Arc def v y arc)

-- When `acyclic` accepts a graph whose steps have different ids and whose edges join steps, no
-- step lies below itself along dependency edges.
pub acyclic_sound :
    (def : Definition) (x : String) → IsGraph def → acyclic def ≡ true → ¬ Below def x x
acyclic_sound def x g h b =
    let (visited, sorted, all_visited, _) = acyclic-Sorted def g h in
    Sorted-acyclic def visited x sorted (all_visited x (Below-inside def g b)) b
