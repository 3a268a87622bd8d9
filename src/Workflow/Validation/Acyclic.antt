-- ===== src/Workflow/Validation/Acyclic.antt =====
-- `acyclic` of internal/domain/workflows/validation.go: Kahn's algorithm over the dependency edges.
pub mod Rounds
pub mod Degrees
pub mod Order
pub mod Complete
use mathlib.Core.Option
use onecatch.Base.{
  ℕ, zero, suc, ◌+◌, String, Bool, true, false, List, [], ◌∷◌, ◌++◌, map, Option, none, some,
  length, select, if◌then◌else◌, eqb,
}
use onecatch.Base.Int.{ℤ, pos, negsuc, succ_ℤ, pred_ℤ, is_zero}
use onecatch.Base.Dict
use onecatch.Base.Dict.{Dict}
use onecatch.Workflow.Model.{Edge, Definition}
use onecatch.Workflow.Graph.{is_next, downstream, step_ids}

-- `indegree[id]`
abbrev pub degree : Dict ℤ → String → ℤ
degree indegree id = Option.get_or (Dict.lookup id indegree) (pos 0)

unfoldable pub count_arcs : List Edge → Dict ℤ → Dict ℤ
unfolding is_next
count_arcs [] indegree = indegree
count_arcs (e ∷ es) indegree =
    count_arcs es
      (if is_next e then Dict.insert e.to (succ_ℤ (degree indegree e.to)) indegree else indegree)

abbrev pub roots : Dict ℤ → List String → List String
roots indegree ids = select (λ id. is_zero (degree indegree id)) ids

-- The inner loop: the children of a visited step lose one dependency each.
unfoldable pub release : List String → Dict ℤ → List String → Dict ℤ × List String
release [] indegree queue = (indegree, queue)
release (child ∷ children) indegree queue =
    let left = pred_ℤ (degree indegree child) in
    release children (Dict.insert child left indegree)
      (if is_zero left then queue ++ child ∷ [] else queue)

-- The outer loop counts the steps that it takes off the queue; `none` is the end of its rounds.
unfoldable pub visit : Definition → ℕ → Dict ℤ → List String → ℕ → Option ℕ
unfolding release
visit def rounds indegree [] visited = some visited
visit def zero indegree (current ∷ queue) visited = none
visit def (suc rounds) indegree (current ∷ queue) visited =
    let (indegree', queue') = release (downstream def current) indegree queue in
    visit def rounds indegree' queue' (suc visited)

unfoldable pub visited_steps : Definition → Option ℕ
unfolding visit count_arcs
visited_steps def =
    let indegree = count_arcs def.edges [] in
    visit def (length def.steps + length def.edges) indegree (roots indegree (step_ids def)) 0

unfoldable pub acyclic : Definition → Bool
unfolding visited_steps
acyclic def = elim (visited_steps def) [ some n ↦ eqb n (length def.steps) | none ↦ false ]
