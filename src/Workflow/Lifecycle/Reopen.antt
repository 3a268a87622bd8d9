-- ===== src/Workflow/Lifecycle/Reopen.antt =====
-- What `ReopenForInbox` reopens: passed steps with unread messages, and passed steps below those.
use onecatch.Base.{
  String, Bool, true, false, not, ◌&&◌, List, [], ◌∷◌, ◌++◌, map, contains, contains-snoc, is_empty,
  ◌==◌, if◌then◌else◌, ◌≡◌, refl, ◌∙◌, inl, inr, arith, Bool-cases, or_cases,
}
use onecatch.Base.Dict
use onecatch.Workflow.Model.{Step, Definition, pending, NodeState, Run}
use onecatch.Workflow.Graph.{descendants, step_ids}
use onecatch.Workflow.Normalize.{normalize}
use onecatch.Workflow.State.{Nodes, node_at, node_of, ensure_all, with_status, is_completed}
use onecatch.Workflow.State.Nodes.{node_at-insert}
use onecatch.Workflow.Lifecycle.{reopen_passed, reopen_steps, reopen_for_inbox}

-- A step that has passed and holds a message that it has not read.
abbrev pub unread : NodeState → Bool
unread node = is_completed node.status && not (is_empty node.inbox)

module _ (first : Nodes) where
  -- The steps that the state lists, and no other, went from passed to pending.
  abbrev Tracks : Nodes × List String → Type 0
  Tracks (nodes, ids) =
      (x : String)
      → (node_at nodes x
          ≡ (if contains ids x then with_status pending (node_at first x) else node_at first x))
        × (contains ids x ≡ true → is_completed (node_at first x).status ≡ true)

  Tracks-one :
      (nodes : Nodes) (ids : List String) (id : String)
      → is_completed (node_at nodes id).status ≡ true
      → Tracks (nodes, ids)
      → Tracks (Dict.insert id (with_status pending (node_at nodes id)) nodes, ids ++ id ∷ [])
  Tracks-one nodes ids id passed t x = (
    ground (
      arith,
      t x,
      node_at-insert nodes id x (with_status pending (node_at nodes id)),
      contains-snoc ids id x,
    ),
    λ m. ground (arith, t x, contains-snoc ids id x),
  )

  Tracks-reopen_passed :
      (todo : List String) (nodes : Nodes) (ids : List String)
      → Tracks (nodes, ids)
      → Tracks (reopen_passed todo (nodes, ids))
  unfolding reopen_passed
  Tracks-reopen_passed [] nodes ids t = t
  Tracks-reopen_passed (id ∷ todo) nodes ids t =
      elim (Bool-cases (is_completed (node_at nodes id).status)) [
        | inl passed ↦
            rw (passed, reopen_passed)
              (Tracks-reopen_passed todo
                (Dict.insert id (with_status pending (node_at nodes id)) nodes) (ids ++ id ∷ [])
                (Tracks-one nodes ids id passed t))
        | inr other ↦ rw (other, reopen_passed) (Tracks-reopen_passed todo nodes ids t)
      ]

  Tracks-reopen_steps :
      (def : Definition) (ss : List Step) (nodes : Nodes) (ids : List String)
      → Tracks (nodes, ids)
      → Tracks (reopen_steps def ss (nodes, ids))
  unfolding reopen_steps
  Tracks-reopen_steps def [] nodes ids t = t
  Tracks-reopen_steps def (s ∷ ss) nodes ids t = elim (Bool-cases (unread (node_at nodes s.id))) [
    | inl holds ↦
        rw (holds, reopen_steps)
          (Tracks-reopen_steps def ss (reopen_passed (s.id ∷ descendants def s.id) (nodes, ids)).0
            (reopen_passed (s.id ∷ descendants def s.id) (nodes, ids)).1
            (Tracks-reopen_passed (s.id ∷ descendants def s.id) nodes ids t))
    | inr none_unread ↦ rw (none_unread, reopen_steps) (Tracks-reopen_steps def ss nodes ids t)
  ]

-- Steps that have not passed stay so, and no inbox changes.
record Shrinks (a b : Nodes) : Type 0 where
  passed :
      (x : String)
      → is_completed (node_at b x).status ≡ true
      → is_completed (node_at a x).status ≡ true
  inbox : (x : String) → (node_at b x).inbox ≡ (node_at a x).inbox

Shrinks-refl : (a : Nodes) → Shrinks a a
Shrinks-refl a = record { passed = λ x m. m; inbox = λ x. refl }

Shrinks-trans : {a b c : Nodes} → Shrinks a b → Shrinks b c → Shrinks a c
Shrinks-trans p q = record {
  passed = λ x m. p.passed x (q.passed x m);
  inbox = λ x. q.inbox x ∙ p.inbox x;
}

Tracks-Shrinks : (a b : Nodes) (ids : List String) → Tracks a (b, ids) → Shrinks a b
Tracks-Shrinks a b ids t = record {
  passed = λ x m. ground (arith, t x);
  inbox = λ x. ground (arith, t x);
}

none_listed : (nodes : Nodes) → Tracks nodes (nodes, [])
none_listed nodes x = (refl, λ m. cc)

Shrinks-one :
    (nodes : Nodes) (id : String)
    → Shrinks nodes (Dict.insert id (with_status pending (node_at nodes id)) nodes)
Shrinks-one nodes id = record {
  passed =
      λ x m. ground (arith, node_at-insert nodes id x (with_status pending (node_at nodes id)));
  inbox = λ x. ground (arith, node_at-insert nodes id x (with_status pending (node_at nodes id)));
}

Shrinks-reopen_passed :
    (todo : List String) (nodes : Nodes) (ids : List String)
    → Shrinks nodes (reopen_passed todo (nodes, ids)).0
unfolding reopen_passed
Shrinks-reopen_passed [] nodes ids = Shrinks-refl nodes
Shrinks-reopen_passed (id ∷ todo) nodes ids =
    elim (Bool-cases (is_completed (node_at nodes id).status)) [
      | inl passed ↦
          rw (passed, reopen_passed)
            (Shrinks-trans (Shrinks-one nodes id) (
              Shrinks-reopen_passed todo
                (Dict.insert id (with_status pending (node_at nodes id)) nodes) (ids ++ id ∷ [])))
      | inr other ↦ rw (other, reopen_passed) (Shrinks-reopen_passed todo nodes ids)
    ]

-- A step that has not passed stays so.
Shrinks-not_passed :
    {a b : Nodes} (x : String)
    → Shrinks a b
    → is_completed (node_at a x).status ≡ false
    → is_completed (node_at b x).status ≡ false
Shrinks-not_passed {a} {b} x s h = elim (Bool-cases (is_completed (node_at b x).status)) [
  | inl m ↦ cc (s.passed x m, h)
  | inr n ↦ n
]

reopened_not_passed :
    (todo : List String) (nodes : Nodes) (ids : List String) (x : String)
    → contains todo x ≡ true
    → is_completed (node_at (reopen_passed todo (nodes, ids)).0 x).status ≡ false
unfolding reopen_passed
reopened_not_passed [] nodes ids x m = cc
reopened_not_passed (id ∷ todo) nodes ids x m = elim (or_cases (id == x) _ m) [
  | inr there ↦ reopened_not_passed todo _ _ x there
  | inl here ↦ elim (Bool-cases (is_completed (node_at nodes id).status)) [
    | inl passed ↦
        rw (passed, reopen_passed)
          (Shrinks-not_passed x
            (Shrinks-reopen_passed todo
              (Dict.insert id (with_status pending (node_at nodes id)) nodes) (ids ++ id ∷ []))
            (ground
              (arith, here, node_at-insert nodes id x (with_status pending (node_at nodes id)))))
    | inr other ↦
        rw (other, reopen_passed)
          (Shrinks-not_passed x (Shrinks-reopen_passed todo nodes ids) (ground (arith, here)))
  ]
]

Shrinks-read :
    {a b : Nodes} (x : String)
    → Shrinks a b
    → unread (node_at a x) ≡ false
    → unread (node_at b x) ≡ false
Shrinks-read {a} {b} x s h = ground (arith, s.passed x, s.inbox x)

Shrinks-reopen_steps :
    (def : Definition) (ss : List Step) (nodes : Nodes) (ids : List String)
    → Shrinks nodes (reopen_steps def ss (nodes, ids)).0
unfolding reopen_steps
Shrinks-reopen_steps def [] nodes ids = Shrinks-refl nodes
Shrinks-reopen_steps def (s ∷ ss) nodes ids = elim (Bool-cases (unread (node_at nodes s.id))) [
  | inl holds ↦
      let todo = s.id ∷ descendants def s.id in
      rw (holds, reopen_steps)
        (Shrinks-trans (Shrinks-reopen_passed todo nodes ids) (
          Shrinks-reopen_steps def ss (reopen_passed todo (nodes, ids)).0
            (reopen_passed todo (nodes, ids)).1))
  | inr none_unread ↦ rw (none_unread, reopen_steps) (Shrinks-reopen_steps def ss nodes ids)
]

drained :
    (def : Definition) (ss : List Step) (nodes : Nodes) (ids : List String) (x : String)
    → contains (map (λ s. s.id) ss) x ≡ true
    → unread (node_at (reopen_steps def ss (nodes, ids)).0 x) ≡ false
unfolding reopen_steps
drained def [] nodes ids x m = cc
drained def (s ∷ ss) nodes ids x m = elim (or_cases (s.id == x) _ m) [
  | inr there ↦ drained def ss _ _ x there
  | inl here ↦ elim (Bool-cases (unread (node_at nodes s.id))) [
    | inl holds ↦
        let todo = s.id ∷ descendants def s.id in
        let next = reopen_passed todo (nodes, ids) in
        rw (holds, reopen_steps)
          (Shrinks-read x (Shrinks-reopen_steps def ss next.0 next.1)
            (ground (arith, reopened_not_passed todo nodes ids x (ground (arith, here)))))
    | inr none_unread ↦
        rw (none_unread, reopen_steps)
          (Shrinks-read x (Shrinks-reopen_steps def ss nodes ids) (ground (arith, here)))
  ]
]

-- After `ReopenForInbox`, for each step: no step of the definition counts as passed and holds an unread
-- message; a step that is returned went from passed to pending, and any other is as it was.
pub reopen_for_inbox_drains :
    (input : Definition) (run : Run) (x : String)
    → let before = ensure_all (normalize input).steps run.nodes in
      let (after, ids) = reopen_for_inbox input run in
      ((contains (step_ids (normalize input)) x && unread (node_of after x)) ≡ false)
      × (node_of after x
          ≡ (if contains ids x then with_status pending (node_at before x) else node_at before x))
      × ((contains ids x && not (is_completed (node_at before x).status)) ≡ false)
unfolding reopen_for_inbox
reopen_for_inbox_drains input run x =
    let def = normalize input in
    let before = ensure_all def.steps run.nodes in
    let (same, passed) =
      Tracks-reopen_steps before def def.steps before [] (none_listed before) x in
    (ground (arith, drained def def.steps before [] x), same, ground (arith, passed))
