-- ===== src/Workflow/Loop/Rounds.antt =====
-- A completed loop starts its next round from the entry steps.
use onecatch.Base.{
  ℕ, String, true, false, inl, inr, Bool-cases, ◌&&◌, ◌≡◌, ◌≢◌, List, [], ◌∷◌, map, contains,
  is_empty, select, ◌==◌, if◌then◌else◌, refl, subst, ◌∙◌, arith,
}
use onecatch.Base.Dict
use onecatch.Workflow.Model.{Step, Edge, Definition, RunStatus, pending, Run, Message}
use onecatch.Workflow.Graph.{is_next, upstream, step_ids, entry_steps}
use onecatch.Workflow.Normalize.{normalize, normalize_step, normalize_edge}
use onecatch.Workflow.Validation.{validate}
use onecatch.Workflow.Validation.Spec.{validate_iff}
use onecatch.Workflow.State.{ok, Nodes, node_at, node_of, deliver_all}
use onecatch.Workflow.State.Nodes.{node_at-insert, status-deliver_nodes}
use onecatch.Workflow.Lifecycle.{first}
use onecatch.Workflow.Lifecycle.Start.{first-entry_steps}
use onecatch.Workflow.Loop.{
  reset_round, reset_steps, next_loop_round, next_round, fresh_node, round_message, round_opened,
  summarized,
}

sources_to-normalize :
    (es : List Edge) (x : String)
    → map (λ e. e.from) (select (λ e. is_next e && (e.to == x)) (map normalize_edge es))
      ≡ map (λ e. e.from) (select (λ e. is_next e && (e.to == x)) es)
unfolding is_next normalize_edge
sources_to-normalize [] x = refl
sources_to-normalize (e ∷ es) x = ground (arith, sources_to-normalize es x)

pub upstream-normalize :
    (def : Definition) (x : String) → upstream (normalize def) x ≡ upstream def x
unfolding upstream normalize
upstream-normalize def x = sources_to-normalize def.edges x

entries-normalize :
    (def : Definition) (ss : List Step)
    → map
        (λ s. s.id)
        (select (λ s. is_empty (upstream (normalize def) s.id)) (map normalize_step ss))
      ≡ map (λ s. s.id) (select (λ s. is_empty (upstream def s.id)) ss)
unfolding normalize_step
entries-normalize def [] = refl
entries-normalize def (s ∷ ss) =
    ground (arith, entries-normalize def ss, upstream-normalize def s.id)

entry_steps-normalize : (def : Definition) → entry_steps (normalize def) ≡ entry_steps def
unfolding entry_steps normalize
entry_steps-normalize def = entries-normalize def def.steps

status-reset_steps :
    (ss : List Step) (nodes : Nodes) (lines : List String) (x : String)
    → (node_at (reset_steps ss nodes lines).0 x).status
      ≡ (if contains (map (λ s. s.id) ss) x then pending else (node_at nodes x).status)
unfolding reset_steps
status-reset_steps [] nodes lines x = refl
status-reset_steps (s ∷ ss) nodes lines x =
    let node = node_at nodes s.id in
    ground (
      arith,
      status-reset_steps ss (Dict.insert s.id (fresh_node s.id node) nodes)
          (summarized s node lines) x,
      node_at-insert nodes s.id x (fresh_node s.id node),
    )

some_step : (ss : List Step) → map normalize_step ss ≢ [] → is_empty ss ≡ false
some_step [] h = absurd (h refl)
some_step (s ∷ ss) h = refl

some_steps : (def : Definition) → validate def ≡ [] → is_empty def.steps ≡ false
unfolding normalize
some_steps def valid = some_step def.steps ((validate_iff def).0 valid).parts.2

-- A round that is opened had nodes to reset.
pub next_loop_round-nodes :
    (def : Definition) (run out : Run) (now : ℕ)
    → validate def ≡ []
    → next_loop_round def run now ≡ ok out
    → is_empty run.nodes ≡ false
unfolding next_loop_round reset_round
next_loop_round-nodes def run out now valid e =
    let steps : is_empty def.steps ≡ false = some_steps def valid in
    elim (Bool-cases (is_empty run.nodes)) [ inr h ↦ h | inl h ↦ ground (arith, h, steps, e) ]

pub next_loop_round_opens :
    (def : Definition) (run : Run) (now : ℕ)
    → validate def ≡ []
    → run.loop_enabled ≡ true
    → run.status ≡ RunStatus.completed
    → is_empty run.nodes ≡ false
    → (out : Run) × (next_loop_round def run now ≡ ok out)
      × (out.status ≡ RunStatus.running)
      × (out.loop_round ≡ next_round run.loop_round)
      × (out.rework_rounds ≡ [])
      × (out.sessions ≡ run.sessions)
      × (contains (entry_steps def) out.current_step_id ≡ true)
      × ((x : String)
          → (node_of out x).status
            ≡ (if contains (step_ids def) x then pending else (node_of run x).status))
unfolding next_loop_round reset_round
next_loop_round_opens def run now valid loops passed there =
    let (entry, found, member) = first-entry_steps (normalize def) ((validate_iff def).0 valid) in
    let entries = entry_steps-normalize def in
    let found' : first (entry_steps def) ≡ ok entry =
      subst (λ ids. first ids ≡ ok entry) entries found in
    let member' : contains (entry_steps def) entry ≡ true =
      subst (λ ids. contains ids entry ≡ true) entries member in
    let state = reset_steps def.steps run.nodes [] in
    let message : Message = record {
      from = "onecatch";
      text = round_message (next_round run.loop_round) state.1;
      at = now;
    } in
    let base = record (round_opened run now) { nodes = state.0; current_step_id = entry } in
    (
      deliver_all (entry_steps def) message base,
      ground (arith, valid, loops, passed, there, found'),
      refl,
      refl,
      refl,
      refl,
      member',
      λ x.
          status-deliver_nodes (entry_steps def) message state.0 x
          ∙ status-reset_steps def.steps run.nodes [] x,
    )
