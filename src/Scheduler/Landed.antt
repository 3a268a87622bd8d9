-- ===== src/Scheduler/Landed.antt =====
-- The state stays tidy when a result is taken, and a run that completes has nothing in flight.
use onecatch.Base.{
  String, true, not, ◌&&◌, List, [], ◌∷◌, map, all, select, contains, contains_head, ◌==◌, ◌≡◌, ◌∙◌,
  refl, sym, inl, inr, arith, Bool-cases, Unique, or_cases,
}
use onecatch.Workflow.Model.{Step, Run}
use onecatch.Workflow.State.{is_completed, node_completed, all_completed}
use onecatch.Scheduler.{World, Drive, StepResult, Replies, Replies-bind, Replies-read}
use onecatch.Scheduler.Results.{
  with_run, keep_session, apply_result, apply_step_result, touch, complete_if_done, completes,
}
use onecatch.Scheduler.Turns.{Steady, without}
use onecatch.Scheduler.Moves.{status_at}
use onecatch.Scheduler.Tidy.{Tidy}
use onecatch.Scheduler.Received.{Applied, keep_session-Applied, apply_result-Applied}

contains-without :
    (id x : String) (ids : List String)
    → contains (without id ids) x ≡ (contains ids x && not (id == x))
contains-without id x [] = refl
contains-without id x (y ∷ ids) = ground (arith, contains-without id x ids)

Unique-without : (id : String) (ids : List String) → Unique ids → Unique (without id ids)
Unique-without id [] u = tt
Unique-without id (x ∷ ids) (new, u) = elim (Bool-cases (x == id)) [
  | inl h ↦ rw (h, select) (Unique-without id ids u)
  | inr h ↦ rw (h, select) (ground (arith, contains-without id x ids, new), Unique-without id ids u)
]

not_nil : (id : String) (ids : List String) → contains ids id ≡ true → ids ≡ [] → ⊥
not_nil id ids m e = cc (rw e at m)

-- The result of a step in flight, taken off the steps in flight, leaves a tidy state.
Applied-Tidy :
    {Clear : Type 0} (id : String) (d out : Drive)
    → Tidy Clear d
    → contains d.inflight id ≡ true
    → Applied id (record d { inflight = without id d.inflight }) out
    → Tidy Clear out
Applied-Tidy id d out t flies a =
    let left = λ (x : String). contains-without id x d.inflight in
    record {
      flies = λ x m. elim (Bool-cases (id == x)) [
        | inl h ↦ ground (arith, h, m, a.own)
        | inr h ↦ rw a.inflight (ground (arith, left x, h, m, a.others x h, t.flies x))
      ];
      going = λ x m. elim (Bool-cases (id == x)) [
        | inl h ↦ ground (arith, h, left x, rw a.inflight at m)
        | inr h ↦ ground (arith, left x, h, rw a.inflight at m, a.others x h, t.going x)
      ];
      known = λ x m. rw a.definition (t.known x (ground (arith, left x, rw a.inflight at m)));
      once = rw a.inflight (Unique-without id d.inflight t.once);
      completed = λ m. elim a.status [
        | inl same ↦ absurd (not_nil id d.inflight flies (t.completed (sym same ∙ m)))
        | inr stops ↦ cc (m, stops)
      ];
      active = λ clear. elim (t.active clear) [
        | inl (inl why) ↦ inl (inl (a.reason why))
        | inl (inr stops) ↦
            inl (inr (elim a.status [ inl same ↦ same ∙ stops | inr stopped_now ↦ stopped_now ]))
        | inr h ↦ elim a.active [
          | inr stops ↦ inl stops
          | inl here ↦ inr (λ x m. elim (Bool-cases (id == x)) [
            | inl e ↦ ground (arith, e, here)
            | inr e ↦ ground (arith, e, a.others x e, h x (rw a.definition at m))
          ])
        ]
      ];
      unique = rw a.definition t.unique;
      valid = rw a.definition t.valid;
    }

all_done :
    (run : Run) (ss : List Step) (x : String)
    → all (λ s. node_completed run s.id) ss ≡ true
    → contains (map (λ s. s.id) ss) x ≡ true
    → is_completed (status_at run x) ≡ true
all_done run [] x h m = cc
all_done run (s ∷ ss) x h m = elim (or_cases (s.id == x) _ m) [
  | inl here ↦ ground (arith, here, h)
  | inr there ↦ all_done run ss x (ground (arith, h)) there
]

-- When every step has passed, nothing is in flight.
landed :
    {Clear : Type 0} (d : Drive) (ids : List String)
    → Tidy Clear d
    → d.inflight ≡ ids
    → all_completed d.definition d.run ≡ true
    → d.inflight ≡ []
unfolding all_completed
landed d [] t e h = e
landed d (x ∷ ids) t e h =
    let m : contains d.inflight x ≡ true = rw e (contains_head x ids) in
    ground
      (arith, t.going x m, all_done d.run d.definition.steps x (ground (arith, h)) (t.known x m))

-- The time and the revision of the run play no part.
revised-Tidy :
    {Clear : Type 0} (d : Drive) (run : Run)
    → Tidy Clear d
    → run.nodes ≡ d.run.nodes
    → run.status ≡ d.run.status
    → Tidy Clear (with_run d run)
revised-Tidy d run t n s = record {
  flies = λ x m. t.flies x (rw n at m);
  going = λ x m. rw n (t.going x m);
  known = t.known;
  once = t.once;
  completed = λ m. t.completed (sym s ∙ m);
  active = λ clear. elim (t.active clear) [
    | inl (inl why) ↦ inl (inl why)
    | inl (inr stops) ↦ inl (inr (s ∙ stops))
    | inr k ↦ inr (λ x m. rw n (k x m))
  ];
  unique = t.unique;
  valid = t.valid;
}

module _ (Clear : Type 0) (world : World) (steady : Steady world) where
  complete_if_done-Tidy : (d : Drive) → Tidy Clear d → Tidy Clear (complete_if_done d)
  unfolding completes
  complete_if_done-Tidy d t = elim (Bool-cases (completes d)) [
    | inr h ↦ rw h t
    | inl h ↦ rw h (record {
      flies = t.flies;
      going = t.going;
      known = t.known;
      once = t.once;
      completed = λ _. landed d d.inflight t refl (ground (arith, h));
      active = λ clear. elim (t.active clear) [
        | inl (inl why) ↦ inl (inl why)
        | inl (inr stops) ↦ cc (h, stops)
        | inr k ↦ inr k
      ];
      unique = t.unique;
      valid = t.valid;
    })
  ]

  pub apply_step_result-Tidy :
      (d : Drive) (item : StepResult)
      → Tidy Clear d
      → contains d.inflight item.step.id ≡ true
      → Replies
          (Tidy Clear)
          (apply_step_result world item (record d { inflight = without item.step.id d.inflight }))
  unfolding apply_step_result
  apply_step_result-Tidy d item t flies =
      let before = record d { inflight = without item.step.id d.inflight } in
      Replies-bind (Tidy Clear) (apply_result world item (keep_session item before)) _ (λ applied e.
        let a =
          Replies-read (Applied item.step.id (keep_session item before)) _ applied
            (apply_result-Applied world item (keep_session item before)) e in
        let tidy =
          Applied-Tidy item.step.id d applied t flies
            (keep_session-Applied item item.step.id before applied a) in
        let touched = revised-Tidy applied (touch world.now applied).run tidy refl refl in
        let final = complete_if_done (touch world.now applied) in
        Replies-bind (Tidy Clear) (world.save final.run final.run.revision) _ (λ saved s.
          let kept = steady.saves final.run saved final.run.revision s in
          revised-Tidy final saved (complete_if_done-Tidy (touch world.now applied) touched)
            (rw kept refl) (rw kept refl)))
