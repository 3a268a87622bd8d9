-- ===== src/RunStore.antt =====
-- internal/repo/workflows/repo.go: the stored runs and UpdateRun. The store is a map from the id of a
-- run to what its file holds; what the disk and the context answer is a `Disk`, one for each call. The
-- index of runs, which only speeds up lists, is left out.
pub mod Writes
use onecatch.Base.{
  ℕ, suc, String, Bool, true, false, not, ◌&&◌, ◌||◌, List, [], ◌∷◌, Option, none, some, all, ltb,
  eqb, if◌then◌else◌, ◌==◌, is_blank,
}
use onecatch.Base.Dict
use onecatch.Base.Dict.{Dict}
use onecatch.Workflow.Model.{NodeStatus, unset, RunStatus, NodeState, Run}
use onecatch.Workflow.State.{Nodes, node_at}

pub data StoreError : Type 0 where
  context_ended state_conflict run_not_found unreadable : StoreError
  invalid_run invalid_node invalid_status write_failed : StoreError

-- What the surroundings of one call answer.
pub record Disk : Type 0 where
  -- `ctx.Err() != nil`
  pub ended : Bool
  -- `localfile.ValidID`
  pub valid_id : String → Bool
  -- Whether the file of a run that is there can be read, and a file written.
  pub readable : Bool
  pub writable : Bool

pub data Update : Type 0 where
  stored : Run → Dict Run → Update
  failed : StoreError → Update

abbrev pub is_unset : NodeStatus → Bool
is_unset unset = true
is_unset _ = false

abbrev pub is_unset_run : RunStatus → Bool
is_unset_run RunStatus.unset = true
is_unset_run _ = false

unfoldable pub lacks_text : Run → Bool
lacks_text run =
    is_blank run.id
    || is_blank run.task_id
    || is_blank run.workflow_id
    || is_blank run.current_step_id
    || is_unset_run run.status

-- A status that is not among the five of the source is the empty one: the model has no other.
unfoldable pub node_error : String → NodeState → Option StoreError
node_error id node =
    if (id == "") || not (node.step_id == id)
    then some invalid_node
    else if is_unset node.status
    then some invalid_status
    else none

-- The first error in the order of the entries; a Go map is ranged over in any order.
unfoldable pub nodes_error : List (String × NodeState) → Nodes → Option StoreError
nodes_error [] nodes = none
nodes_error ((id, _) ∷ entries) nodes =
    let rest = nodes_error entries nodes in
    elim (node_error id (node_at nodes id)) [ some e ↦ some e | none ↦ rest ]

unfoldable pub validate_run_for_storage : Run → Option StoreError
validate_run_for_storage run =
    if lacks_text run then some invalid_run else nodes_error run.nodes run.nodes

-- `getRunLocked`
unfoldable pub current_run : Disk → Dict Run → String → Update
current_run disk store id = elim (Dict.lookup id store) [
  | none ↦ failed run_not_found
  | some run ↦ if disk.readable then stored run store else failed unreadable
]

-- The run that is written, once the current one is read.
unfoldable pub write_run : Disk → Dict Run → Run → Run → Update
write_run disk store current run =
    if not (run.task_id == current.task_id) || not (run.workflow_id == current.workflow_id)
    then failed state_conflict
    else if not disk.writable
    then failed write_failed
    else stored run (Dict.insert run.id run store)

abbrev pub revised : Run → ℕ → Run
revised input expected = record input { revision = suc expected }

unfoldable pub replace_run : Disk → Dict Run → Run → ℕ → Run → Update
replace_run disk store input expected current =
    if not (eqb current.revision expected)
    then failed state_conflict
    else elim (validate_run_for_storage (revised input expected)) [
      | some e ↦ failed e
      | none ↦ write_run disk store current (revised input expected)
    ]

unfoldable pub replace_current : Disk → Dict Run → Run → ℕ → Update → Update
replace_current disk store input expected (failed e) = failed e
replace_current disk store input expected (stored current _) =
    replace_run disk store input expected current

unfoldable pub update_run : Disk → Dict Run → Run → ℕ → Update
update_run disk store input expected =
    if disk.ended
    then failed context_ended
    else if ltb expected 1 || not (disk.valid_id input.id)
    then failed state_conflict
    else replace_current disk store input expected (current_run disk store input.id)
