-- ===== src/Examples/Graph.antt =====
-- The theorems about graphs and definitions on the small workflow.
use onecatch.Base.{String, true, ◌≡◌, ◌↔◌, [], contains, String_discrete, refl, some, ℕ, arith}
use onecatch.Workflow.Graph.{descendants, rework_path}
use onecatch.Workflow.Graph.Descendants.{Below, contains-descendants}
use onecatch.Workflow.Graph.ReworkPath.{Between, contains-rework_path}
use onecatch.Workflow.Normalize.{normalize}
use onecatch.Workflow.Normalize.Twice.{normalize_idem}
use onecatch.Workflow.Validation.{validate}
use onecatch.Workflow.Validation.Spec.{IsValid, validate_iff}
use onecatch.Workflow.Validation.Acyclic.{acyclic, visited_steps}
use onecatch.Workflow.Validation.Acyclic.Rounds.{visited_steps_returns}
use onecatch.Workflow.Validation.Acyclic.Order.{IsGraph}
use onecatch.Workflow.Validation.Acyclic.Complete.{acyclic_iff}
use onecatch.Examples.{sample}

contains-descendants_example :
    (contains (descendants sample "plan") "review" ≡ true) ↔ Below sample "plan" "review"
contains-descendants_example = contains-descendants sample "plan" "review"

contains-rework_path_example :
    (contains (rework_path sample "review" "build") "plan" ≡ true)
    ↔ Between sample "review" "build" "plan"
contains-rework_path_example = contains-rework_path sample "review" "build" "plan"

normalize_idem_example : normalize (normalize sample) ≡ normalize sample
normalize_idem_example = normalize_idem sample

validate_iff_example : (validate sample ≡ []) ↔ IsValid (normalize sample)
validate_iff_example = validate_iff sample

visited_steps_returns_example : (n : ℕ) × (visited_steps sample ≡ some n)
visited_steps_returns_example = visited_steps_returns sample

sample-IsGraph : IsGraph sample
unfolding String_discrete
sample-IsGraph = record {
  unique = (refl, (refl, (refl, tt)));
  inside = λ x m. ground arith;
  rooted = λ x m. ground arith;
}

acyclic_iff_example : (acyclic sample ≡ true) ↔ ((x : String) → ¬ Below sample x x)
acyclic_iff_example = acyclic_iff sample sample-IsGraph
