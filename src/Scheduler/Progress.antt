-- ===== src/Scheduler/Progress.antt =====
-- Starts of steps in the states that a drive reaches.
use onecatch.Base.{
  zero, suc, ◌≤◌, String, Bool, true, false, not, ◌&&◌, List, [], ◌∷◌, ◌++◌, map, length, all,
  contains, is_empty, ◌==◌, ◌≡◌, ◌≢◌, ◌∙◌, refl, sym, ◌⊎◌, inl, inr, arith, Bool-cases,
}
use onecatch.Base.Int.{ℤ, pos, negsuc, pos_part, ltb_ℤ}
use onecatch.Workflow.Model.{Step, Definition, RunStatus, Run}
use onecatch.Workflow.Graph.{step_ids}
use onecatch.Workflow.Graph.Descendants.{Arc}
use onecatch.Workflow.Normalize.{normalize, normalize_step}
use onecatch.Workflow.Validation.{validate}
use onecatch.Workflow.Validation.Spec.{validate_iff}
use onecatch.Workflow.State.{node_completed, all_completed, ready_steps}
use onecatch.Workflow.State.Ready.{
  contains-upstream, contains-ready_steps, ready_steps_progress, Idle, Startable,
}
use onecatch.Workflow.Loop.Rounds.{upstream-normalize}
use onecatch.Scheduler.{reply, World, Drive, Replies-read}
use onecatch.Scheduler.Start.{
  is_running_node, begin, ids_of, waiting_steps, start_ready_steps, limit_of,
}
use onecatch.Scheduler.Turns.{Steady, Rounds}
use onecatch.Scheduler.Moves.{status_at}
use onecatch.Scheduler.Waiting.{outside}
use onecatch.Scheduler.Tidy.{Tidy, Started, start_ready_steps-Started}
use onecatch.Scheduler.Settled.{normalize_ids}
use onecatch.Scheduler.Invariant.{CanDrive, IsClear, Rounds-Tidy}

Arc-normalize : (def : Definition) (u x : String) → Arc def u x → Arc (normalize def) u x
Arc-normalize def u x arc =
    sym (contains-upstream (normalize def) u x)
    ∙ (rw (upstream-normalize def x) (contains-upstream def u x) ∙ arc)

step_ids-normalize : (def : Definition) → step_ids (normalize def) ≡ step_ids def
unfolding normalize
step_ids-normalize def = normalize_ids def.steps

all-normalize :
    (run : Run) (ss : List Step)
    → all (λ s. node_completed run s.id) (map normalize_step ss)
      ≡ all (λ s. node_completed run s.id) ss
unfolding normalize_step
all-normalize run [] = refl
all-normalize run (s ∷ ss) = rw (all-normalize run ss) refl

all_completed-normalize :
    (def : Definition) (run : Run)
    → all_completed (normalize def) run ≡ true
    → all_completed def run ≡ true
unfolding all_completed normalize
all_completed-normalize def run h =
    ground (arith, h, all-normalize run def.steps, empty_map def.steps)
  where
    empty_map : (ss : List Step) → is_empty (map normalize_step ss) ≡ is_empty ss
    empty_map [] = refl
    empty_map (s ∷ ss) = refl

-- As `ready_steps_progress`, for a definition that `Validate` accepts as it stands.
accepted_progress :
    (def : Definition) (run : Run)
    → validate def ≡ []
    → Idle def run
    → (all_completed def run ≡ true)
      ⊎ ((x : String) × (contains (ids_of (ready_steps def run)) x ≡ true))
accepted_progress def run valid idle =
    let same = step_ids-normalize def in
    elim (ready_steps_progress (normalize def) run ((validate_iff def).0 valid)
      (λ x m. idle x (rw same at m))) [
        | inl done ↦ inl (all_completed-normalize def run done)
        | inr (x, m) ↦
            let (known, (waits, deps)) = (contains-ready_steps (normalize def) run x).0 m in
            inr (
              x,
              (contains-ready_steps def run x).1
                  (rw same at known, (waits, λ u arc. deps u (Arc-normalize def u x arc))),
            )
      ]

waiting_of :
    (d : Drive) (x : String)
    → contains (ids_of (waiting_steps d)) x
      ≡ (contains (ids_of (ready_steps d.definition d.run)) x && not (contains d.inflight x))
unfolding waiting_steps
waiting_of d x = outside d.inflight (ready_steps d.definition d.run) x

nothing_in : (ids : List String) (x : String) → is_empty ids ≡ true → contains ids x ≡ false
nothing_in [] x h = refl
nothing_in (y ∷ ids) x h = cc

at_least_one : (z : ℤ) → ltb_ℤ z (pos 1) ≡ false → pos_part z ≢ 0
at_least_one (pos zero) h e = cc
at_least_one (pos (suc n)) h e = omega (arith, e)
at_least_one (negsuc n) h e = ground (arith, h)

positive_limit :
    (world : World) (run : Run) → ltb_ℤ world.concurrency (pos 1) ≡ false → limit_of world run ≢ 0
unfolding limit_of
positive_limit world run h e = elim (Bool-cases (ltb_ℤ run.max_concurrency (pos 1))) [
  | inl low ↦ at_least_one world.concurrency h (rw low at e)
  | inr set ↦ at_least_one run.max_concurrency set (rw set at e)
]

idle_at_rest :
    {Clear : Type 0} (d : Drive)
    → Tidy Clear d
    → Clear
    → d.run.status ≡ RunStatus.running
    → (d.pause_reason == "") ≡ true
    → d.inflight ≡ []
    → Idle d.definition d.run
idle_at_rest d t clear live quiet none_flies x m = elim (t.active clear) [
  | inl (inl why) ↦ cc (why, quiet)
  | inl (inr stops) ↦ cc (live, stops)
  | inr k ↦ elim (Bool-cases (is_running_node (status_at d.run x))) [
    | inl runs ↦ cc (rw none_flies at (t.flies x runs))
    | inr rests ↦ ground (arith, rests, k x m)
  ]
]

module _ (def : Definition) (first : Run) (f : Bool) (preserve : List String)
    (c : CanDrive def first) where
  -- A drive begins under an accepted definition with no paused or failed step and no running node but
  -- those of its steps, in steady surroundings. In a state that it reaches, where the run is running and
  -- nothing has stopped it, no step is in flight, and the settings allow at least one step at a time: a
  -- start that comes back without an error has put a step in flight, or every step has passed.
  pub start_makes_progress :
      (d out : Drive) (world : World)
      → IsClear def first
      → Rounds preserve (begin def first f) d
      → Steady world
      → ltb_ℤ world.concurrency (pos 1) ≡ false
      → d.run.status ≡ RunStatus.running
      → (d.pause_reason == "") ≡ true
      → d.inflight ≡ []
      → start_ready_steps world preserve d ≡ reply out
      → (out.inflight ≢ []) ⊎ (all_completed d.definition d.run ≡ true)
  start_makes_progress d out world clear rounds steady room live quiet none_flies e =
      let t = Rounds-Tidy def first f d c rounds in
      let s =
        Replies-read (Started (IsClear def first) world preserve steady d) _ out
          (start_ready_steps-Started (IsClear def first) world preserve steady d t
            (ground (arith, live)))
          e in
      elim (accepted_progress d.definition d.run t.valid
        (idle_at_rest d t clear live quiet none_flies)) [
          | inl done ↦ inr done
          | inr (x, ready) ↦ inl (λ empty. elim (s.moves (rw empty refl)) [
            | inr full ↦ positive_limit world out.run room full
            | inl none_wait ↦ cc (
              nothing_in (ids_of (waiting_steps d)) x none_wait,
              waiting_of d x,
              ready,
              nothing_in d.inflight x (rw none_flies refl),
            )
          ])
        ]

  -- A drive begins under an accepted definition with no running node but those of its steps, in steady
  -- surroundings. In a state that it reaches, where the run is running: a start that comes back without
  -- an error leaves what was in flight and adds steps that were pending, not in flight, and had all their
  -- dependencies passed; the number in flight does not grow or is within the limit of the run.
  pub start_is_within_limit :
      (d out : Drive) (world : World)
      → Rounds preserve (begin def first f) d
      → Steady world
      → d.run.status ≡ RunStatus.running
      → start_ready_steps world preserve d ≡ reply out
      → (more : List String) × (out.inflight ≡ d.inflight ++ more)
        × ((x : String)
            → contains more x ≡ true
            → Startable d.definition d.run x × (contains d.inflight x ≡ false))
        × ((length out.inflight ≤ length d.inflight)
            ⊎ (length out.inflight ≤ limit_of world out.run))
  start_is_within_limit d out world rounds steady live e =
      let t = Rounds-Tidy def first f d c rounds in
      let s =
        Replies-read (Started (IsClear def first) world preserve steady d) _ out
          (start_ready_steps-Started (IsClear def first) world preserve steady d t
            (ground (arith, live)))
          e in
      (
        s.more,
        s.grows,
        λ x m.
            let w = s.waits x m in
            (
              ((contains-ready_steps d.definition d.run x).0 (ground (arith, w, waiting_of d x))).1,
              ground (arith, w, waiting_of d x),
            ),
        s.room,
      )
