-- ===== src/Scheduler/Start.antt =====
-- internal/usecase/workflows/scheduler.go: startReadySteps, and the nodes that drive begins with.
use onecatch.Base.{
  ℕ, suc, ◌-◌, String, Bool, true, false, not, ◌||◌, List, [], ◌∷◌, ◌++◌, map, length, take, select,
  contains, is_empty, any, if◌then◌else◌,
}
use onecatch.Base.Int.{pos, pos_part, ltb_ℤ}
use onecatch.Base.Dict
use onecatch.Base.Dict.{Dict}
use onecatch.Workflow.Model.{Step, Definition, NodeStatus, pending, running, NodeState, Run}
use onecatch.Workflow.State.{Nodes, node_at, has_node, ready_steps}
use onecatch.Scheduler.{Reply, reply, ◌>>=◌, World, Drive, deliver_instructions}
use onecatch.Scheduler.Refresh.{step_of, refresh_starting_settings}

abbrev pub is_running_node : NodeStatus → Bool
is_running_node running = true
is_running_node _ = false

-- A step without a node, or with one that an earlier process left running, waits.
unfoldable pub settle_nodes : List Step → Nodes → Nodes
settle_nodes [] nodes = nodes
settle_nodes (s ∷ ss) nodes =
    let node = node_at nodes s.id in
    settle_nodes ss (
      if not (has_node nodes s.id) || is_running_node node.status
      then Dict.insert s.id (record node { step_id = s.id; status = pending }) nodes
      else nodes)

-- Whether some node of the table holds a message.
unfoldable pub holds_messages : Nodes → Bool
holds_messages nodes = any (λ (id, _). not (is_empty (node_at nodes id).inbox)) nodes

-- What `drive` begins its loop with.
unfoldable pub begin : Definition → Run → Bool → Drive
begin def run include_follow_up =
    let nodes = settle_nodes def.steps run.nodes in
    record {
      definition = def;
      run = record run { nodes = nodes };
      inflight = [];
      pause_reason = "";
      pause_message = "";
      include_follow_up = if holds_messages nodes then false else include_follow_up;
    }

-- The steps that may start: ready, and not in flight.
unfoldable pub waiting_steps : Drive → List Step
waiting_steps d = select (λ s. not (contains d.inflight s.id)) (ready_steps d.definition d.run)

unfoldable pub limit_of : World → Run → ℕ
limit_of world run =
    pos_part (if ltb_ℤ run.max_concurrency (pos 1) then world.concurrency else run.max_concurrency)

-- The steps for which there is room, as they stand in the refreshed definition.
unfoldable pub chosen_steps : World → Definition → Run → List String → List Step → List Step
chosen_steps world refreshed run inflight ready =
    map (λ s. step_of refreshed s.id) (take (limit_of world run - length inflight) ready)

abbrev pub started : ℕ → NodeState → NodeState
started now node = record node {
  status = running;
  attempt = suc node.attempt;
  error = "";
  started_at = now;
  finished_at = 0;
}

unfoldable pub mark_started : ℕ → List Step → Run → Run
mark_started now [] run = run
mark_started now (s ∷ ss) run = mark_started now ss (record run {
  nodes = Dict.insert s.id (started now (node_at run.nodes s.id)) run.nodes;
  current_step_id = s.id;
})

abbrev pub ids_of : List Step → List String
ids_of = map (λ s. s.id)

-- Delivers what is queued and starts the chosen steps, in one write.
unfoldable pub launch : World → Drive → List Step → Reply Drive
launch world d steps = do
  told ← deliver_instructions world d.definition d.run (ids_of steps) d.include_follow_up
  let next = record (mark_started world.now steps told) { updated_at = world.now }
  saved ← world.save next next.revision
  reply (record d { run = saved; inflight = d.inflight ++ ids_of steps; include_follow_up = false })

-- `startReadySteps` where some step waits.
unfoldable pub start_waiting : World → List String → Drive → List Step → Reply Drive
start_waiting world preserve d waiting = do
  fresh ← refresh_starting_settings world d.definition d.run (ids_of waiting) preserve
  let next = record d { definition = fresh.0; run = fresh.1 }
  let steps = chosen_steps world fresh.0 fresh.1 d.inflight waiting
  (if is_empty steps then reply next else launch world next steps)

unfoldable pub start_ready_steps : World → List String → Drive → Reply Drive
start_ready_steps world preserve d =
    let waiting = waiting_steps d in
    if is_empty waiting then reply d else start_waiting world preserve d waiting
