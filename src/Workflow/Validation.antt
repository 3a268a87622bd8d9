-- ===== src/Workflow/Validation.antt =====
-- internal/domain/workflows/validation.go: `Validate`, which collects every problem of a definition.
-- No issue is the source's nil error.
pub mod Acyclic
pub mod Parts
pub mod Lists
pub mod Spec
use Prim.Native.String
use onecatch.Base.{
  ℕ, zero, suc, ◌+◌, String, Bool, true, false, not, ◌&&◌, ◌||◌, List, [], ◌∷◌, ◌++◌, map, Option,
  none, some, is_empty, contains, ◌==◌, if◌then◌else◌, is_blank, is_identifier, show_nat,
}
use onecatch.Base.Int.{ℤ, pos, ltb_ℤ}
use onecatch.Harness.{find_harness, supports_effort}
use onecatch.Workflow.Model.{
  Step, Edge, Policy, Definition, step_agent, step_command, edge_next, edge_rework,
}
use onecatch.Workflow.Graph.{step_ids, descendants}
use onecatch.Workflow.Normalize.{normalize}
use Acyclic.{acyclic}

pub record ValidationIssue : Type 0 where
  pub path : String
  pub code : String
  pub message : String

abbrev issue : String → String → String → ValidationIssue
issue path code message = record { path = path; code = code; message = message }

-- The body of `if test { add(…) }`.
abbrev report : Bool → String → String → String → List ValidationIssue
report test path code message = if test then issue path code message ∷ [] else []

abbrev join : String → String → String
join = String.◌++◌

-- `fmt.Sprintf("%s[%d]", list, i)`
unfoldable pub item_path : String → ℕ → String
item_path list i = join list (join "[" (join (show_nat i) "]"))

abbrev pub max_rework_rounds_limit : ℤ
max_rework_rounds_limit = pos 50

abbrev pub max_failures_limit : ℤ
max_failures_limit = pos 100

-- 24 * 60 * 60
abbrev pub max_timeout_seconds : ℤ
max_timeout_seconds = pos 86400

abbrev pub outside : ℤ → ℤ → ℤ → Bool
outside lo hi z = ltb_ℤ z lo || ltb_ℤ hi z

unfoldable pub validate_policy : Policy → List ValidationIssue
validate_policy p =
    report (outside (pos 1) max_rework_rounds_limit p.max_rework_rounds) "policy.maxReworkRounds"
      "out_of_range" "must be between 1 and 50"
    ++ (report (outside (pos 1) max_failures_limit p.max_consecutive_failures)
          "policy.maxConsecutiveFailures" "out_of_range" "must be between 1 and 100"
        ++ report (outside (pos 1) max_timeout_seconds p.step_timeout_seconds)
            "policy.stepTimeoutSeconds" "out_of_range" "must be between 1 and 86400")

-- Whether the step's runtime accepts its reasoning effort.
unfoldable pub effort_ok : Step → Bool
effort_ok s = elim (find_harness s.runtime) [
  | none ↦ false
  | some h ↦ supports_effort h s.reasoning_effort
]

abbrev pub known_sandbox : String → Bool
known_sandbox s = (s == "") || (s == "read-only") || (s == "workspace-write") || (s == "full")

-- `case StepAgent`
unfoldable pub validate_agent : String → Step → List ValidationIssue
validate_agent path s =
    report (not (s.reasoning_effort == "") && not (effort_ok s)) (join path ".reasoningEffort")
      "invalid_value" "is not supported by this runtime"
    ++ (report (is_blank s.runtime) (join path ".runtime") "required" "is required"
        ++ (report (not (known_sandbox s.sandbox)) (join path ".sandbox") "invalid_value"
              "must be read-only, workspace-write or full"
            ++ report (not (s.worker_id == "local") && (s.sandbox == "full")) (join path ".sandbox")
                "remote_full_unsupported"
                "remote workers can synchronize workspace-write changes only"))

-- `case StepCommand`
unfoldable pub validate_command : String → Step → List ValidationIssue
validate_command path s =
    report (is_blank s.command) (join path ".command") "required" "is required"
    ++ report (not (s.worker_id == "local")) (join path ".workerId") "command_local_only"
        "command steps run on this machine"

unfoldable pub validate_kind : String → Step → List ValidationIssue
validate_kind path s =
    if s.kind == step_agent
    then validate_agent path s
    else if s.kind == step_command
    then validate_command path s
    else issue (join path ".kind") "invalid_value" "must be agent or command" ∷ []

-- One round of the loop over the steps; `earlier` holds the ids of the steps before this one.
unfoldable pub validate_step : ℕ → List String → Step → List ValidationIssue
validate_step i earlier s =
    let path = item_path "steps" i in
    report (not (is_identifier s.id)) (join path ".id") "invalid_identifier"
      "must be a lowercase identifier"
    ++ (report (contains earlier s.id) (join path ".id") "duplicate" "must be unique"
        ++ (report (is_blank s.name) (join path ".name") "required" "is required"
            ++ (report (not (is_identifier s.worker_id)) (join path ".workerId")
                  "invalid_identifier" "must be a lowercase identifier"
                ++ validate_kind path s)))

unfoldable pub validate_steps : ℕ → List String → List Step → List ValidationIssue
validate_steps i earlier [] = []
validate_steps i earlier (s ∷ ss) =
    validate_step i earlier s ++ validate_steps (suc i) (s.id ∷ earlier) ss

abbrev same_edge : Edge → Edge → Bool
same_edge a b = (a.from == b.from) && (a.to == b.to) && (a.kind == b.kind)

abbrev pub seen_edge : List Edge → Edge → Bool
seen_edge [] e = false
seen_edge (x ∷ xs) e = same_edge x e || seen_edge xs e

abbrev pub edge_kind_ok : Edge → Bool
edge_kind_ok e = (e.kind == edge_next) || (e.kind == edge_rework)

-- One round of the loop over the edges, for an edge whose kind is known.
unfoldable pub validate_edge : ℕ → List String → List Edge → Edge → List ValidationIssue
validate_edge i ids earlier e =
    let path = item_path "edges" i in
    report (not (contains ids e.from)) (join path ".from") "unknown_step"
      "does not reference an existing step"
    ++ (report (not (contains ids e.to)) (join path ".to") "unknown_step"
          "does not reference an existing step"
        ++ (report (e.from == e.to) path "self_edge" "a step cannot connect to itself"
            ++ (report (outside (pos 0) max_rework_rounds_limit e.max_rounds)
                  (join path ".maxRounds") "out_of_range" "must be between 0 and 50"
                ++ report (seen_edge earlier e) path "duplicate" "edge must be unique")))

-- An edge of an unknown kind is reported, and neither checked further nor remembered.
unfoldable pub validate_edges : ℕ → List String → List Edge → List Edge → List ValidationIssue
validate_edges i ids earlier [] = []
validate_edges i ids earlier (e ∷ es) =
    let known = edge_kind_ok e in
    (if known
      then validate_edge i ids earlier e
      else issue (join (item_path "edges" i) ".kind") "invalid_value" "must be next or rework" ∷ [])
    ++ validate_edges (suc i) ids (if known then e ∷ earlier else earlier) es

-- The checks of the first pass, each of which reads the definition's parts alone.
unfoldable pub validate_parts : Definition → List ValidationIssue
validate_parts def =
    report (not (is_identifier def.id)) "id" "invalid_identifier" "must be a lowercase identifier"
    ++ (report (is_blank def.name) "name" "required" "is required"
        ++ (report (is_empty def.steps) "steps" "required" "must contain at least one step"
            ++ (validate_policy def.policy
                ++ (validate_steps 0 [] def.steps
                    ++ validate_edges 0 (step_ids def) [] def.edges))))

-- A rework edge leads back to a step that its source depends on.
unfoldable pub validate_rework : Definition → ℕ → List Edge → List ValidationIssue
validate_rework def i [] = []
validate_rework def i (e ∷ es) =
    report ((e.kind == edge_rework) && not (contains (descendants def e.to) e.from))
      (item_path "edges" i) "rework_not_upstream"
      (join "rework target " (join e.to (join " must be upstream of " e.from)))
    ++ validate_rework def (suc i) es

-- Command steps can do anything a shell can, so they count as writers.
unfoldable pub step_writes : Step → Bool
step_writes s = (s.kind == step_command) || not (s.sandbox == "read-only")

-- Neither step is below the other, and both write.
abbrev pub write_conflict : Definition → Step → Step → Bool
write_conflict def l r =
    step_writes l
    && step_writes r
    && not (contains (descendants def l.id) r.id)
    && not (contains (descendants def r.id) l.id)

-- The inner loop: the steps after `l`, of which the first has the index `j`.
unfoldable pub validate_writes_with : Definition → Step → ℕ → List Step → List ValidationIssue
validate_writes_with def l j [] = []
validate_writes_with def l j (r ∷ rs) =
    report (write_conflict def l r) (join (item_path "steps" j) ".sandbox")
      "parallel_write_conflict"
      (join "write steps " (join l.id (join " and " (join r.id " may run in parallel"))))
    ++ validate_writes_with def l (suc j) rs

unfoldable pub validate_writes : Definition → ℕ → List Step → List ValidationIssue
validate_writes def i [] = []
validate_writes def i (l ∷ ls) =
    validate_writes_with def l (suc i) ls ++ validate_writes def (suc i) ls

-- The checks that need the whole graph.
unfoldable pub validate_graph : Definition → List ValidationIssue
validate_graph def =
    if acyclic def
    then validate_rework def 0 def.edges ++ validate_writes def 0 def.steps
    else issue "edges" "cycle"
        "dependency edges must not form a cycle; use a rework edge to send work back"
      ∷ []

-- The graph is looked at only when its parts are sound.
unfoldable pub validate_normal : Definition → List ValidationIssue
validate_normal def =
    let issues = validate_parts def in if is_empty issues then validate_graph def else issues

unfoldable pub validate : Definition → List ValidationIssue
validate input = validate_normal (normalize input)
