-- ===== src/Workflow/Graph/ReworkPath.antt =====
-- What `rework_path` selects: the two ends of a rework edge and the steps between them.
use onecatch.Base.{
  String, Bool, true, ◌&&◌, ◌||◌, List, [], ◌∷◌, contains, select, ◌==◌, ◌≡◌, ◌↔◌, ◌⊎◌, arith,
}
use onecatch.Workflow.Model.{Definition}
use onecatch.Workflow.Graph.{descendants, rework_path}
use onecatch.Workflow.Graph.Descendants.{Below, contains-descendants}

contains-select :
    (p : String → Bool) (xs : List String) (x : String)
    → contains (select p xs) x ≡ (contains xs x && p x)
contains-select p [] x = ground arith
contains-select p (y ∷ xs) x = ground (arith, contains-select p xs x)

-- The steps that run again when `from` sends work back to `target`: these two, and every step that
-- is below `target` and has `from` below it.
abbrev pub Between : Definition → String → String → String → Type 0
Between def from target x = (x ≡ target) ⊎ (x ≡ from) ⊎ Below def target x × Below def x from

-- `ReworkPath` holds exactly the steps between: the target, the source, and every step that lies below
-- the target and above the source.
pub contains-rework_path :
    (def : Definition) (from target x : String)
    → (contains (rework_path def from target) x ≡ true) ↔ Between def from target x
unfolding rework_path
contains-rework_path def from target x = ground (
  arith,
  contains-select (λ id. (id == from) || contains (descendants def id) from)
      (descendants def target) x,
  contains-descendants def target x,
  contains-descendants def x from,
)
