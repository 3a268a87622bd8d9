-- ===== src/Scheduler/Settled.antt =====
-- What the scheduler does when nothing is in flight keeps its state tidy: a loop's next round, and the
-- steps that reopen for messages. With it, every state that a drive reaches is tidy.
use onecatch.Base.{
  ℕ, String, Bool, true, false, ◌&&◌, ◌||◌, List, [], ◌∷◌, map, contains, is_empty, ◌==◌,
  if◌then◌else◌, ◌≡◌, ◌∙◌, refl, sym, inl, inr, arith, Bool-cases, Unique, Option, none, some,
}
use onecatch.Workflow.Model.{Step, Definition, RunStatus, pending, Run}
use onecatch.Workflow.Graph.{step_ids, sink_steps}
use onecatch.Workflow.Normalize.{normalize, normalize_step}
use onecatch.Workflow.Validation.{validate}
use onecatch.Workflow.Validation.Spec.{PartsOk-IsGraph, validate_iff}
use onecatch.Workflow.State.{ok, ok_injective}
use onecatch.Workflow.State.Nodes.{node_at-ensure_all}
use onecatch.Workflow.Verdict.{is_running}
use onecatch.Workflow.Lifecycle.{reopen_for_inbox, is_completed_run}
use onecatch.Workflow.Lifecycle.Reopen.{reopen_for_inbox_drains}
use onecatch.Workflow.Loop.{next_loop_round}
use onecatch.Workflow.Loop.Rounds.{next_loop_round_opens, next_loop_round-nodes}
use onecatch.Scheduler.{
  Reply, reply, fault, reply_of_second, reply-of_engine, ◌>>=◌, ◌>>◌, of_engine, World, Drive,
  RunResolution, deliver_instructions, Replies, Replies-bind, Replies-if, Replies-read,
}
use onecatch.Scheduler.Refresh.{
  refresh_loop_definition, refresh_from, refresh_run_definition, adopted, adopt_candidate,
  apply_run_resolution, drop_old_sessions, check_candidate,
}
use onecatch.Scheduler.Start.{is_running_node}
use onecatch.Scheduler.Results.{with_run}
use onecatch.Scheduler.Turns.{
  Turn, goes_on, returns, Steady, settle, round_turn, reopened_turn, open_round,
  reopen_for_messages, as_turn, is_open, conclude,
}
use onecatch.Scheduler.Moves.{status_at, is_active, Calm}
use onecatch.Scheduler.Keeps.{empty_nil}
use onecatch.Scheduler.Tidy.{Tidy, Told, deliver_instructions-Told}

-- What holds of the state with which the loop goes on.
abbrev pub Goes {ℓ} : (Drive → Type ℓ) → Turn → Type ℓ
Goes P (goes_on d) = P d
Goes P (returns r) = Unit

pub as_turn-Goes {ℓ} : (P : Drive → Type ℓ) (r : Reply Drive) → Replies P r → Goes P (as_turn r)
as_turn-Goes P (reply d) p = p
as_turn-Goes P (fault f) p = tt

-- A state with nothing in flight and no step running.
at_rest :
    {Clear : Type 0} (d : Drive)
    → d.inflight ≡ []
    → ((x : String) → is_running_node (status_at d.run x) ≡ false)
    → (Clear
        → (x : String) → contains (step_ids d.definition) x ≡ true
        → is_active (status_at d.run x) ≡ true)
    → Unique (step_ids d.definition)
    → validate d.definition ≡ []
    → Tidy Clear d
at_rest d e idle active unique valid = record {
  flies = λ x m. cc (idle x, m);
  going = λ x m. cc (rw e at m);
  known = λ x m. cc (rw e at m);
  once = rw e tt;
  completed = λ _. e;
  active = λ clear. inr (active clear);
  unique = unique;
  valid = valid;
}

pub normalize_ids : (ss : List Step) → map (λ s. s.id) (map normalize_step ss) ≡ map (λ s. s.id) ss
unfolding normalize_step
normalize_ids [] = refl
normalize_ids (s ∷ ss) = rw (normalize_ids ss) refl

-- A definition that `Validate` accepts lists each step once.
pub validate-Unique : (def : Definition) → validate def ≡ [] → Unique (step_ids def)
unfolding normalize
validate-Unique def h =
    let valid = (validate_iff def).0 h in
    rw (normalize_ids def.steps) at (PartsOk-IsGraph (normalize def) valid.parts).unique

-- The run that a refresh leaves is the old one but for its settings, sessions and revision.
record Refreshed (run out : Run) : Type 0 where
  nodes : out.nodes ≡ run.nodes
  status : out.status ≡ run.status
  loops : out.loop_enabled ≡ run.loop_enabled

next_loop_round_valid :
    (def : Definition) (run out : Run) (now : ℕ)
    → next_loop_round def run now ≡ ok out
    → validate def ≡ []
unfolding next_loop_round
next_loop_round_valid def run out now e = elim (Bool-cases (is_empty (validate def))) [
  | inl h ↦ empty_nil (validate def) h
  | inr h ↦ ground (arith, h, e)
]

module _ (Clear : Type 0) (world : World) (steady : Steady world) where
  -- The run beside the definition, where there is one.
  abbrev With : Run → Run × Reply Definition → Type 0
  With run (out, answer) = Refreshed run out

  adopted-Refreshed :
      (d : Drive) (def : Definition) (next : Run) (r : Reply Run)
      → Refreshed d.run next
      → ((saved : Run) → r ≡ reply saved → Refreshed d.run saved)
      → With d.run (adopted world d def next r)
  unfolding adopted
  adopted-Refreshed d def next (fault f) n s = n
  adopted-Refreshed d def next (reply saved) n s = s saved refl

  adopt_candidate-Refreshed :
      (d : Drive) (r : Reply (Definition × RunResolution)) → With d.run (adopt_candidate world d r)
  unfolding adopt_candidate apply_run_resolution
  adopt_candidate-Refreshed d (fault f) = record { nodes = refl; status = refl; loops = refl }
  adopt_candidate-Refreshed d (reply (candidate, resolution)) =
      let next = record (apply_run_resolution resolution d.run) {
        sessions = drop_old_sessions candidate d.definition.steps d.run.sessions;
      } in
      adopted-Refreshed d candidate next
        (check_candidate candidate >> world.save next next.revision)
        (record { nodes = refl; status = refl; loops = refl })
        (λ saved e.
          let kept =
            steady.saves next saved next.revision (
              reply_of_second (check_candidate candidate) (world.save next next.revision) saved
                e) in
          record { nodes = rw kept refl; status = rw kept refl; loops = rw kept refl })

  refresh_from-Refreshed :
      (d : Drive) (latest : Option Definition) → With d.run (refresh_from world d latest)
  unfolding refresh_from
  refresh_from-Refreshed d none = record { nodes = refl; status = refl; loops = refl }
  refresh_from-Refreshed d (some latest) =
      adopt_candidate-Refreshed d (world.resolve (refresh_run_definition d.definition latest))

  refresh_loop_definition-Refreshed : (d : Drive) → With d.run (refresh_loop_definition world d)
  unfolding refresh_loop_definition
  refresh_loop_definition-Refreshed d = refresh_from-Refreshed d world.latest

  open_round-Tidy :
      (d : Drive)
      → d.inflight ≡ []
      → d.run.status ≡ RunStatus.completed
      → d.run.loop_enabled ≡ true
      → ((x : String) → is_running_node (status_at d.run x) ≡ false)
      → Replies (Tidy Clear) (open_round world d)
  unfolding open_round
  open_round-Tidy d none_flies passed loops idle =
      Replies-bind (Tidy Clear) (of_engine (next_loop_round d.definition d.run world.now)) _
        (λ next e.
          let opens = reply-of_engine (next_loop_round d.definition d.run world.now) next e in
          let valid = next_loop_round_valid d.definition d.run next world.now opens in
          let (out, found, _, _, _, _, _, marks) =
            next_loop_round_opens d.definition d.run world.now valid loops passed
              (next_loop_round-nodes d.definition d.run next world.now valid opens) in
          let same : out ≡ next = ok_injective (sym found ∙ opens) in
          let status : (x : String)
              → status_at next x
                ≡ (if contains (step_ids d.definition) x then pending else status_at d.run x) =
            rw same at marks in
          Replies-bind (Tidy Clear) (world.save next d.run.revision) _ (λ saved s.
            let kept = steady.saves next saved d.run.revision s in
            let reads : (x : String) → status_at saved x ≡ status_at next x = λ x. rw kept refl in
            Replies-bind (Tidy Clear) world.journal _ (λ _ _.
              at_rest (record d { run = saved; include_follow_up = true }) none_flies
                (λ x. ground (arith, reads x, status x, idle x))
                (λ _ x m. ground (arith, reads x, status x, m)) (validate-Unique d.definition valid)
                valid)))

  -- No step runs where nothing is in flight.
  idle_if_none :
      (d : Drive)
      → Tidy Clear d
      → d.inflight ≡ []
      → (x : String) → is_running_node (status_at d.run x) ≡ false
  idle_if_none d t e x = elim (Bool-cases (is_running_node (status_at d.run x))) [
    | inl m ↦ cc (rw e at (t.flies x m))
    | inr n ↦ n
  ]

  round_turn-Goes :
      (d : Drive) (next : Run × Reply Definition)
      → Tidy Clear d
      → d.inflight ≡ []
      → d.run.status ≡ RunStatus.completed
      → d.run.loop_enabled ≡ true
      → With d.run next
      → Goes (Tidy Clear) (round_turn world d next)
  unfolding round_turn
  round_turn-Goes d (run, fault f) t e passed loops r = tt
  round_turn-Goes d (run, reply def) t e passed loops r =
      let next = record d { definition = def; run = run } in
      as_turn-Goes (Tidy Clear) (open_round world next) (
        open_round-Tidy next e (r.status ∙ passed) (r.loops ∙ loops)
          (λ x. rw r.nodes (idle_if_none d t e x)))

  -- Each step stays as it is or waits again.
  Calm-reopen_for_inbox :
      (def : Definition) (run : Run) (x : String)
      → Calm (status_at run x) (status_at (reopen_for_inbox def run).0 x)
  Calm-reopen_for_inbox def run x = ground (
    arith,
    (reopen_for_inbox_drains def run x).1,
    node_at-ensure_all (normalize def).steps run.nodes x,
  )

  -- A run in which some steps wait again, while nothing stops it.
  reopened_Tidy :
      (d : Drive) (saved : Run)
      → Tidy Clear d
      → d.inflight ≡ []
      → (d.pause_reason == "") ≡ true
      → (is_running d.run.status || is_completed_run d.run.status) ≡ true
      → ((x : String) → Calm (status_at d.run x) (status_at saved x))
      → Tidy Clear (with_run d saved)
  reopened_Tidy d saved t e quiet live calm =
      at_rest (with_run d saved) e (λ x. ground (arith, calm x, idle_if_none d t e x))
        (λ clear x m. elim (t.active clear) [
          | inl (inl why) ↦ cc (why, quiet)
          | inl (inr stops) ↦ ground (arith, stops, live)
          | inr k ↦ ground (arith, calm x, k x m)
        ])
        t.unique t.valid

  -- Where steps reopened, the state is tidy.
  abbrev Reopened : Bool × Drive → Type 0
  Reopened (b, next) = b ≡ true → Tidy Clear next

  reopen_for_messages-Reopened :
      (d : Drive)
      → Tidy Clear d
      → d.inflight ≡ []
      → (d.pause_reason == "") ≡ true
      → (is_running d.run.status || is_completed_run d.run.status) ≡ true
      → Replies Reopened (reopen_for_messages world d)
  unfolding reopen_for_messages
  reopen_for_messages-Reopened d t e quiet live =
      let sinks = sink_steps d.definition in
      Replies-bind Reopened (deliver_instructions world d.definition d.run sinks false) _ (λ told h.
        let (same, like) =
          Replies-read (Told world [] steady d.run) _ told
            (deliver_instructions-Told world [] steady d.definition d.run sinks false) h in
        let opened = (reopen_for_inbox d.definition told).0 in
        let next = record opened {
          status = RunStatus.running;
          completed_at = 0;
          updated_at = world.now;
        } in
        Replies-if Reopened (is_empty (reopen_for_inbox d.definition told).1)
          (reply (false, with_run d told))
          (world.save next told.revision >>= λ saved. reply (true, with_run d saved)) (λ no. cc)
          (Replies-bind Reopened (world.save next told.revision) _ (λ saved s _.
            let kept = steady.saves next saved told.revision s in
            reopened_Tidy d saved t e quiet live
              (λ x. rw (kept, ← same x) (Calm-reopen_for_inbox d.definition told x)))))

  reopened_turn-Goes :
      (r : Reply (Bool × Drive)) → Replies Reopened r → Goes (Tidy Clear) (reopened_turn world r)
  unfolding reopened_turn
  reopened_turn-Goes (fault f) t = tt
  reopened_turn-Goes (reply (true, next)) t = t refl
  reopened_turn-Goes (reply (false, next)) t = tt

  Goes-if :
      (b : Bool) (p q : Turn)
      → (b ≡ true → Goes (Tidy Clear) p)
      → Goes (Tidy Clear) q
      → Goes (Tidy Clear) (if b then p else q)
  Goes-if true p q x y = x refl
  Goes-if false p q x y = y

  pub settle-Goes :
      (d : Drive) → Tidy Clear d → d.inflight ≡ [] → Goes (Tidy Clear) (settle world d)
  unfolding settle
  settle-Goes d t e =
      Goes-if (is_completed_run d.run.status && d.run.loop_enabled && is_open world 1 d)
        (round_turn world d (refresh_loop_definition world d)) _
        (λ h.
          round_turn-Goes d (refresh_loop_definition world d) t e (ground (arith, h))
            (ground (arith, h)) (refresh_loop_definition-Refreshed d))
        (Goes-if ((is_running d.run.status || is_completed_run d.run.status) && is_open world 2 d)
          (reopened_turn world (reopen_for_messages world d)) (returns (conclude world d))
          (λ h.
            reopened_turn-Goes (reopen_for_messages world d)
              (reopen_for_messages-Reopened d t e (ground (arith, h)) (ground (arith, h))))
          tt)
