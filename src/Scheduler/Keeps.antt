-- ===== src/Scheduler/Keeps.antt =====
-- A refresh of the settings keeps the steps of the definition and the nodes of the run.
use mathlib.Core.Option
use onecatch.Base.{
  String, Bool, true, false, List, [], ◌∷◌, is_empty, map, some, find, Option-cases, ◌==◌,
  if◌then◌else◌, ◌≡◌, ◌∙◌, refl, inl, inr, arith, Bool-cases,
}
use onecatch.Workflow.Model.{Step, Definition, Run}
use onecatch.Workflow.Graph.{find_step, step_ids}
use onecatch.Workflow.Normalize.{normalize}
use onecatch.Workflow.Validation.{validate}
use onecatch.Scheduler.{
  Reply, reply, fault, reply_injective, World, RunResolution, Replies, Replies-bind,
}
use onecatch.Scheduler.Refresh.{
  refresh_step_settings, candidate_step, candidate_steps, candidate_of, as_settings,
  check_candidate, drop_sessions, apply_run_resolution, refresh_starting_settings,
}
use onecatch.Scheduler.Start.{ids_of}
use onecatch.Scheduler.Turns.{Steady}

found_id :
    (ss : List Step) (id : String) (s : Step) → find (λ x. x.id == id) ss ≡ some s → s.id ≡ id
found_id [] id s e = cc
found_id (x ∷ ss) id s e = elim (Bool-cases (x.id == id)) [
  | inl same ↦ ground (arith, e)
  | inr other ↦ found_id ss id s (rw other at e)
]

-- A step that is looked up by its id has that id.
pub id-find_step :
    (def : Definition) (id : String) (s : Step) → find_step def id ≡ some s → s.id ≡ id
unfolding find_step
id-find_step def id s e = found_id def.steps id s e

ids-candidate_steps :
    (ready preserve : List String) (olds news : List Step)
    → ids_of news ≡ ids_of olds
    → ids_of (candidate_steps ready preserve olds news) ≡ ids_of olds
unfolding candidate_steps candidate_step
ids-candidate_steps ready preserve [] news e = refl
ids-candidate_steps ready preserve (old ∷ olds) [] e = e
ids-candidate_steps ready preserve (old ∷ olds) (new ∷ news) e =
    ground (arith, e, ids-candidate_steps ready preserve olds news)

ids-refreshed :
    (latest : Definition) (ss : List Step)
    → ids_of (map (λ s. Option.get_or (find_step latest s.id) s) ss) ≡ ids_of ss
ids-refreshed latest [] = refl
ids-refreshed latest (s ∷ ss) = elim (Option-cases (find_step latest s.id)) [
  | inl gone ↦ rw (gone, Option.get_or, ids-refreshed latest ss) refl
  | inr (x, found) ↦
      rw (found, Option.get_or, ids-refreshed latest ss, id-find_step latest s.id x found) refl
]

ids-refresh_step_settings :
    (snapshot latest : Definition)
    → ids_of (refresh_step_settings snapshot latest).steps ≡ ids_of snapshot.steps
unfolding refresh_step_settings
ids-refresh_step_settings snapshot latest =
    ground (arith, ids-refreshed (normalize latest) snapshot.steps)

step_ids-candidate_of :
    (world : World) (def : Definition) (ready preserve : List String)
    → step_ids (candidate_of world def ready preserve) ≡ step_ids def
unfolding candidate_of
step_ids-candidate_of world def ready preserve =
    let latest = Option.get_or world.latest def in
    ids-candidate_steps ready preserve def.steps (refresh_step_settings def latest).steps
      (ids-refresh_step_settings def latest)

-- What a refresh keeps of the definition and the run.
pub record Keeps (def : Definition) (run : Run) (out : Definition × Run) : Type 0 where
  pub ids : step_ids out.0 ≡ step_ids def
  pub valid : validate out.0 ≡ []
  pub nodes : out.1.nodes ≡ run.nodes
  pub status : out.1.status ≡ run.status

pub empty_nil : {A : Type 0} (xs : List A) → is_empty xs ≡ true → xs ≡ []
empty_nil [] h = refl
empty_nil (x ∷ xs) h = cc

-- `Validate` accepts the candidate.
check_candidate-valid :
    (world : World) (def : Definition) (u : Unit {0})
    → as_settings world (check_candidate def) ≡ reply u
    → validate def ≡ []
unfolding check_candidate
check_candidate-valid world def u e = elim (Bool-cases (is_empty (validate def))) [
  | inl h ↦ empty_nil (validate def) h
  | inr h ↦ cc (rw (h, as_settings) at e)
]

reply_of :
    (world : World) (r : Reply (Definition × RunResolution)) (a : Definition × RunResolution)
    → as_settings world r ≡ reply a
    → r ≡ reply a
reply_of world (reply b) a e = e
reply_of world (fault f) a e = cc

-- A run that is saved or left keeps its nodes and its status.
saved_same :
    (world : World) (run out : Run) (changed : Bool)
    → Steady world
    → (if changed then world.save run run.revision else reply run) ≡ reply out
    → (out.nodes ≡ run.nodes) × (out.status ≡ run.status)
saved_same world run out true steady e = rw (steady.saves run out run.revision e) (refl, refl)
saved_same world run out false steady e =
    let same : run ≡ out = reply_injective e in rw (← same) (refl, refl)

pub refresh_starting_settings-Keeps :
    (world : World) (def : Definition) (run : Run) (ready preserve : List String)
    → Steady world
    → Replies (Keeps def run) (refresh_starting_settings world def run ready preserve)
unfolding refresh_starting_settings apply_run_resolution
refresh_starting_settings-Keeps world def run ready preserve steady =
    let candidate = candidate_of world def ready preserve in
    Replies-bind (Keeps def run) (as_settings world (world.resolve candidate)) _ (λ resolved e.
      let dropped = drop_sessions def resolved.0.steps (run.sessions, false) in
      let next = apply_run_resolution resolved.1 (record run { sessions = dropped.0 }) in
      Replies-bind (Keeps def run) (as_settings world (check_candidate resolved.0)) _ (λ u valid.
        Replies-bind (Keeps def run)
          (if dropped.1 then world.save next next.revision else reply next) _
          (λ saved s. Replies-bind (Keeps def run) (world.save_definition def resolved.0) _ (λ v w.
            record {
              ids =
                  steady.keeps candidate resolved (reply_of world _ resolved e)
                  ∙ step_ids-candidate_of world def ready preserve;
              valid = check_candidate-valid world resolved.0 u valid;
              nodes = (saved_same world next saved dropped.1 steady s).0;
              status = (saved_same world next saved dropped.1 steady s).1;
            }))))
