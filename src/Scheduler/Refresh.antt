-- ===== src/Scheduler/Refresh.antt =====
-- internal/usecase/workflows/execution_refresh.go: the settings that a run takes over from its
-- definition while it runs, and RefreshStepSettings and RefreshRunDefinition beside it.
use mathlib.Core.Option
use onecatch.Base.{
  String, Bool, false, not, ◌&&◌, ◌||◌, List, [], ◌∷◌, map, Option, none, some, find, contains,
  is_empty, if◌then◌else◌, ◌==◌,
}
use onecatch.Base.Int.{ℤ, pos, ltb_ℤ}
use onecatch.Base.Dict
use onecatch.Base.Dict.{Dict}
use onecatch.Workflow.Model.{Step, Edge, Definition, ResolvedRuntimeSettings, Run}
use onecatch.Workflow.Graph.{find_step}
use onecatch.Workflow.Normalize.{normalize}
use onecatch.Workflow.Validation.{validate}
use onecatch.Workflow.State.{invalid_definition}
use onecatch.Scheduler.{
  engine, fault_text, Reply, reply, fault, ◌>>=◌, ◌>>◌, settings_invalid, RunResolution, World,
  Drive,
}

abbrev pub direct_agent_workflow_id : String
direct_agent_workflow_id = "single_agent"

abbrev pub same_edge : Edge → Edge → Bool
same_edge edge current =
    (edge.from == current.from) && (edge.to == current.to) && (edge.kind == current.kind)

unfoldable pub is_foreign : Definition → Definition → Bool
is_foreign snapshot latest =
    not (snapshot.id == latest.id) || (snapshot.id == direct_agent_workflow_id)

-- The settings of `latest` on the steps and edges of `snapshot`.
unfoldable pub refresh_step_settings : Definition → Definition → Definition
refresh_step_settings snapshot raw =
    let latest = normalize raw in
    if is_foreign snapshot raw then snapshot else record snapshot {
      name = latest.name;
      description = latest.description;
      policy = latest.policy;
      steps = map (λ s. Option.get_or (find_step latest s.id) s) snapshot.steps;
      edges = map (λ e. Option.get_or (find (same_edge e) latest.edges) e) snapshot.edges;
    }

unfoldable pub refresh_run_definition : Definition → Definition → Definition
refresh_run_definition snapshot latest =
    if is_foreign snapshot latest then snapshot else normalize latest

-- One step of the candidate: its new settings if it is about to start, with the profile that was
-- selected for this resume if there is one.
unfoldable pub candidate_step : List String → List String → Step → Step → Step
candidate_step ready preserve old new =
    if not (contains ready new.id)
    then old
    else if contains preserve new.id
    then record new {
      runtime = old.runtime;
      model = old.model;
      reasoning_effort = old.reasoning_effort;
    }
    else new

-- `candidate.Steps[i]` beside `definition.Steps[i]`.
unfoldable pub candidate_steps : List String → List String → List Step → List Step → List Step
candidate_steps ready preserve (old ∷ olds) (new ∷ news) =
    candidate_step ready preserve old new ∷ candidate_steps ready preserve olds news
candidate_steps ready preserve (old ∷ olds) [] = []
candidate_steps ready preserve [] news = []

abbrev pub moved : Step → Step → Bool
moved old new =
    not (old.runtime == new.runtime)
    || not (old.worker_id == new.worker_id)
    || not (old.kind == new.kind)

abbrev pub empty_step : Step
empty_step = record {
  id = "";
  name = "";
  kind = "";
  runtime = "";
  model = "";
  reasoning_effort = "";
  sandbox = "";
  worker_id = "";
  prompt = "";
  command = "";
}

-- The step of an id, or the zero value.
abbrev pub step_of : Definition → String → Step
step_of def id = Option.get_or (find_step def id) empty_step

-- The sessions without those of steps that run elsewhere now, and whether any step does.
unfoldable pub drop_sessions : Definition → List Step → Dict String × Bool → Dict String × Bool
drop_sessions def [] state = state
drop_sessions def (s ∷ ss) (sessions, changed) = drop_sessions def ss (
  if moved (step_of def s.id) s then Dict.delete s.id sessions else sessions,
  changed || moved (step_of def s.id) s,
)

-- The sessions without those of old steps that are gone or run elsewhere now.
unfoldable pub drop_old_sessions : Definition → List Step → Dict String → Dict String
drop_old_sessions candidate [] sessions = sessions
drop_old_sessions candidate (old ∷ olds) sessions =
    drop_old_sessions candidate olds (elim (find_step candidate old.id) [
      | none ↦ Dict.delete old.id sessions
      | some next ↦ if moved old next then Dict.delete old.id sessions else sessions
    ])

unfoldable pub put_all :
    Dict ResolvedRuntimeSettings → Dict ResolvedRuntimeSettings → Dict ResolvedRuntimeSettings
put_all [] settings = settings
put_all ((id, value) ∷ rest) settings = put_all rest (Dict.insert id value settings)

abbrev or_old : ℤ → ℤ → ℤ
or_old old new = if ltb_ℤ (pos 0) new then new else old

unfoldable pub apply_run_resolution : RunResolution → Run → Run
apply_run_resolution resolution run = record run {
  max_concurrency = or_old run.max_concurrency resolution.max_concurrency;
  interrupt_grace_seconds = or_old run.interrupt_grace_seconds resolution.interrupt_grace_seconds;
  runtime_settings = put_all resolution.runtime_settings run.runtime_settings;
}

-- `Validate`, as an error.
unfoldable pub check_candidate : Definition → Reply (Unit {0})
check_candidate candidate =
    let issues = validate candidate in
    if is_empty issues then reply tt else fault (engine (invalid_definition issues))

-- `fmt.Errorf("%w: %v", errExecutionSettings, err)`
abbrev pub as_settings {ℓ} : {A : Type ℓ} → World → Reply A → Reply A
as_settings world (reply a) = reply a
as_settings world (fault f) = fault (settings_invalid (fault_text world f))

-- The definition that the ready steps start under.
unfoldable pub candidate_of : World → Definition → List String → List String → Definition
candidate_of world def ready preserve =
    let latest = Option.get_or world.latest def in
    let fresh = refresh_step_settings def latest in
    record fresh { steps = candidate_steps ready preserve def.steps fresh.steps }

unfoldable pub refresh_starting_settings :
    World → Definition → Run → List String → List String → Reply (Definition × Run)
refresh_starting_settings world def run ready preserve = do
  resolved ← as_settings world (world.resolve (candidate_of world def ready preserve))
  let candidate = resolved.0
  as_settings world (check_candidate candidate)
  let dropped = drop_sessions def candidate.steps (run.sessions, false)
  let next = apply_run_resolution resolved.1 (record run { sessions = dropped.0 })
  saved ← (if dropped.1 then world.save next next.revision else reply next)
  world.save_definition def candidate
  reply (candidate, saved)

-- The run as it is left, and the definition or the error, by the answer to its write.
unfoldable pub adopted : World → Drive → Definition → Run → Reply Run → Run × Reply Definition
adopted world d candidate next (fault f) = (next, fault f)
adopted world d candidate next (reply saved) =
    (saved, (world.save_definition d.definition candidate >> reply candidate))

-- A loop's next round under a resolved candidate.
unfoldable pub adopt_candidate :
    World → Drive → Reply (Definition × RunResolution) → Run × Reply Definition
adopt_candidate world d (fault f) = (d.run, fault f)
adopt_candidate world d (reply (candidate, resolution)) =
    let next = record (apply_run_resolution resolution d.run) {
      sessions = drop_old_sessions candidate d.definition.steps d.run.sessions;
    } in
    adopted world d candidate next (check_candidate candidate >> world.save next next.revision)

-- A definition that cannot be read leaves the old one.
unfoldable pub refresh_from : World → Drive → Option Definition → Run × Reply Definition
refresh_from world d none = (d.run, reply d.definition)
refresh_from world d (some latest) =
    adopt_candidate world d (world.resolve (refresh_run_definition d.definition latest))

unfoldable pub refresh_loop_definition : World → Drive → Run × Reply Definition
refresh_loop_definition world d = refresh_from world d world.latest
