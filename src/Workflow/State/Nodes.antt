-- ===== src/Workflow/State/Nodes.antt =====
-- What the loops over the node table leave at each step. Every lemma reads the table at one step, so
-- the order in which a Go map is ranged over plays no part.
use mathlib.Core.Option
use onecatch.Base.{
  String, false, not, ◌&&◌, ◌||◌, List, [], ◌∷◌, map, contains, ◌==◌, if◌then◌else◌, is_blank, ◌≡◌,
  refl, ◌∙◌, arith, Option-cases, inl, inr, Unique,
}
use onecatch.Base.Dict
use onecatch.Base.Dict.{Dict, lookup-insert, lookup-map_values}
use onecatch.Workflow.Model.{Step, Message, NodeState}
use onecatch.Workflow.State.{
  Nodes, zero_node, pending_node, node_at, has_node, ensure_node, ensure_all, change_all, received,
  deliver_node, deliver_nodes,
}

pub node_at-insert :
    (nodes : Nodes) (id x : String) (node : NodeState)
    → node_at (Dict.insert id node nodes) x ≡ (if id == x then node else node_at nodes x)
unfolding node_at
node_at-insert nodes id x node = ground (arith, lookup-insert id x node nodes)

pub has_node-insert :
    (nodes : Nodes) (id x : String) (node : NodeState)
    → has_node (Dict.insert id node nodes) x ≡ ((id == x) || has_node nodes x)
unfolding has_node
has_node-insert nodes id x node = ground (arith, lookup-insert id x node nodes)

node_at_missing :
    (nodes : Nodes) (id : String) → has_node nodes id ≡ false → node_at nodes id ≡ zero_node
unfolding node_at has_node
node_at_missing nodes id h = elim (Option-cases (Dict.lookup id nodes)) [
  | inl e ↦ rw (e, Option.get_or)
  | inr (n, e) ↦ cc (rw (e, has_node) at h)
]

abbrev ids_of : List Step → List String
ids_of = map (λ s. s.id)

-- Every step gets a node; the nodes that were there stay as they are.
pub node_at-ensure_all :
    (ss : List Step) (nodes : Nodes) (x : String)
    → node_at (ensure_all ss nodes) x ≡ (
        if not (has_node nodes x) && contains (ids_of ss) x
        then pending_node x
        else node_at nodes x)
unfolding ensure_all
node_at-ensure_all [] nodes x = ground arith
node_at-ensure_all (s ∷ ss) nodes x = ground (
  arith,
  node_at-ensure_all ss (ensure_node s.id nodes) x,
  node_at-insert nodes s.id x (pending_node s.id),
  has_node-insert nodes s.id x (pending_node s.id),
)

pub has_node-ensure_all :
    (ss : List Step) (nodes : Nodes) (x : String)
    → has_node (ensure_all ss nodes) x ≡ (has_node nodes x || contains (ids_of ss) x)
unfolding ensure_all
has_node-ensure_all [] nodes x = ground arith
has_node-ensure_all (s ∷ ss) nodes x = ground (
  arith,
  has_node-ensure_all ss (ensure_node s.id nodes) x,
  has_node-insert nodes s.id x (pending_node s.id),
)

-- A change that doing twice does not change again reaches exactly the listed nodes.
pub node_at-change_all :
    (f : NodeState → NodeState)
    → ((n : NodeState) → f (f n) ≡ f n)
    → (ids : List String) (nodes : Nodes) (x : String)
    → node_at (change_all f ids nodes) x
      ≡ (if contains ids x then f (node_at nodes x) else node_at nodes x)
unfolding change_all
node_at-change_all f twice [] nodes x = refl
node_at-change_all f twice (id ∷ ids) nodes x = ground (
  arith,
  node_at-change_all f twice ids (Dict.insert id (f (node_at nodes id)) nodes) x,
  node_at-insert nodes id x (f (node_at nodes id)),
  twice (node_at nodes x),
)

pub node_at-deliver_node :
    (id x : String) (message : Message) (nodes : Nodes)
    → node_at (deliver_node id message nodes) x ≡ (
        if (id == x) && not (is_blank message.text)
        then received id message (node_at nodes id)
        else node_at nodes x)
unfolding deliver_node
node_at-deliver_node id x message nodes =
    ground (arith, node_at-insert nodes id x (received id message (node_at nodes id)))

-- Steps listed once receive the message once each.
node_at-deliver_nodes :
    (ids : List String) (message : Message) (nodes : Nodes) (x : String)
    → Unique ids
    → is_blank message.text ≡ false
    → node_at (deliver_nodes ids message nodes) x
      ≡ (if contains ids x then received x message (node_at nodes x) else node_at nodes x)
unfolding deliver_nodes
node_at-deliver_nodes [] message nodes x u b = refl
node_at-deliver_nodes (id ∷ ids) message nodes x (new, u) b = ground (
  arith,
  node_at-deliver_nodes ids message (deliver_node id message nodes) x u b,
  node_at-deliver_node id x message nodes,
  new,
)

pub node_at-map_values :
    (f : NodeState → NodeState) (nodes : Nodes) (x : String)
    → f zero_node ≡ zero_node
    → node_at (Dict.map_values f nodes) x ≡ f (node_at nodes x)
unfolding node_at
node_at-map_values f nodes x z = ground (arith, lookup-map_values f x nodes, z)

-- A delivery touches no status.
pub status-deliver_node :
    (id x : String) (message : Message) (nodes : Nodes)
    → (node_at (deliver_node id message nodes) x).status ≡ (node_at nodes x).status
status-deliver_node id x message nodes = ground (arith, node_at-deliver_node id x message nodes)

pub status-deliver_nodes :
    (ids : List String) (message : Message) (nodes : Nodes) (x : String)
    → (node_at (deliver_nodes ids message nodes) x).status ≡ (node_at nodes x).status
unfolding deliver_nodes
status-deliver_nodes [] message nodes x = refl
status-deliver_nodes (id ∷ ids) message nodes x =
    status-deliver_nodes ids message (deliver_node id message nodes) x
    ∙ status-deliver_node id x message nodes
