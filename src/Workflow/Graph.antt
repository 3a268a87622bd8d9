-- ===== src/Workflow/Graph.antt =====
-- internal/domain/workflows/graph.go: the questions that the engine asks of a definition's edges.
pub mod Descendants
pub mod ReworkPath
use Prim.Native.String
use onecatch.Base.{
  ℕ, zero, suc, String, Bool, true, ◌&&◌, ◌||◌, List, [], ◌∷◌, ◌++◌, map, Option, length, is_empty,
  select, find, contains, ◌==◌, if◌then◌else◌, ◌≡◌,
}
use onecatch.Workflow.Model.{Step, Edge, Definition, edge_next, edge_rework}

-- An empty kind is a dependency edge.
unfoldable pub is_next : Edge → Bool
is_next edge = (edge.kind == edge_next) || (edge.kind == "")

unfoldable pub upstream : Definition → String → List String
unfolding is_next
upstream def id = map (λ e. e.from) (select (λ e. is_next e && (e.to == id)) def.edges)

unfoldable pub downstream : Definition → String → List String
unfolding is_next
downstream def id = map (λ e. e.to) (select (λ e. is_next e && (e.from == id)) def.edges)

unfoldable pub rework_edges : Definition → String → List Edge
rework_edges def id = select (λ e. (e.kind == edge_rework) && (e.from == id)) def.edges

abbrev pub step_ids : Definition → List String
step_ids def = map (λ s. s.id) def.steps

unfoldable pub entry_steps : Definition → List String
entry_steps def = map (λ s. s.id) (select (λ s. is_empty (upstream def s.id)) def.steps)

unfoldable pub sink_steps : Definition → List String
sink_steps def = map (λ s. s.id) (select (λ s. is_empty (downstream def s.id)) def.steps)

-- The inner loop of `Descendants`: a child that is not yet in `seen` is added to it and queued.
unfoldable pub scan : List String → List String → List String → List String × List String
scan [] seen queue = (seen, queue)
scan (child ∷ children) seen queue =
    let old = contains seen child in
    scan children (if old then seen else seen ++ child ∷ [])
      (if old then queue else queue ++ child ∷ [])

-- The outer loop, with a bound on its rounds.
unfoldable pub descendants_loop : Definition → ℕ → List String → List String → List String
unfolding scan
descendants_loop def zero seen queue = seen
descendants_loop def (suc rounds) seen [] = seen
descendants_loop def (suc rounds) seen (current ∷ queue) =
    let (seen', queue') = scan (downstream def current) seen queue in
    descendants_loop def rounds seen' queue'

-- Each round takes one step off the queue, and a step is queued again only as the target of an edge
-- that is seen for the first time: one round more than there are edges is enough.
unfoldable pub descendants : Definition → String → List String
unfolding descendants_loop
descendants def id = descendants_loop def (suc (length def.edges)) [] (id ∷ [])

-- The two ends of the edge, and what lies between them.
unfoldable pub rework_path : Definition → String → String → List String
rework_path def from target =
    target
    ∷ from
    ∷ select (λ id. (id == from) || contains (descendants def id) from) (descendants def target)

unfoldable pub edge_key : String → String → String
edge_key from to = String.◌++◌ from (String.◌++◌ ">" to)

unfoldable pub find_step : Definition → String → Option Step
find_step def id = find (λ s. s.id == id) def.steps
