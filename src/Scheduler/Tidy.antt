-- ===== src/Scheduler/Tidy.antt =====
-- The state that the scheduler keeps tidy, and the start of steps in it.
use mathlib.Core.List.{append-nil}
use onecatch.Base.{
  ℕ, ◌+◌, ◌-◌, ◌≤◌, String, Bool, true, false, ◌||◌, List, [], ◌∷◌, ◌++◌, take, length,
  length-append, contains, contains_head, contains-append, is_empty, ◌==◌, if◌then◌else◌, ◌≡◌, ◌∙◌,
  refl, sym, ◌⊎◌, inl, inr, arith, Bool-cases, Unique, Subset, or_cases, leb,
}
use onecatch.Base.Dict
use onecatch.Workflow.Model.{Step, Definition, RunStatus, running, Run}
use onecatch.Workflow.Graph.{step_ids}
use onecatch.Workflow.Validation.{validate}
use onecatch.Workflow.State.{is_pending, node_at}
use onecatch.Workflow.Verdict.{is_running}
use onecatch.Scheduler.{
  reply, World, Drive, Instruction, deliver_item, deliver_items, deliver_instructions, Replies,
  Replies-bind, Replies-read, Replies-map,
}
use onecatch.Scheduler.Refresh.{refresh_starting_settings}
use onecatch.Scheduler.Start.{
  started, is_running_node, ids_of, waiting_steps, chosen_steps, limit_of, mark_started, launch,
  start_waiting, start_ready_steps,
}
use onecatch.Scheduler.Turns.{Steady}
use onecatch.Scheduler.Moves.{status_at, is_active, status-deliver_items, status-mark_started}
use onecatch.Scheduler.Keeps.{empty_nil, Keeps, refresh_starting_settings-Keeps}
use onecatch.Scheduler.Waiting.{
  Waits, contains-waiting_steps, Unique-waiting_steps, ids-chosen_steps, contains-take, Unique-take,
  length-take, no_room,
}

-- Something has stopped the run: it starts no further step.
abbrev pub Stopping : Drive → Type 0
Stopping d = ((d.pause_reason == "") ≡ false) ⊎ (d.run.status ≡ RunStatus.paused)

-- A running step is in flight; a step in flight runs or waits to run again, is one of the definition's
-- and is in flight once; a completed run has nothing in flight. If the drive began clear of steps that
-- had paused or failed, then while nothing stops the run each step waits, runs or has passed.
pub record Tidy (Clear : Type 0) (d : Drive) : Type 0 where
  pub flies :
      (x : String) → is_running_node (status_at d.run x) ≡ true → contains d.inflight x ≡ true
  pub going :
      (x : String)
      → contains d.inflight x ≡ true
      → (is_running_node (status_at d.run x) || is_pending (status_at d.run x)) ≡ true
  pub known : Subset d.inflight (step_ids d.definition)
  pub once : Unique d.inflight
  pub completed : d.run.status ≡ RunStatus.completed → d.inflight ≡ []
  pub active :
      Clear
      → Stopping d
        ⊎ ((x : String)
            → contains (step_ids d.definition) x ≡ true
            → is_active (status_at d.run x) ≡ true)
  pub unique : Unique (step_ids d.definition)
  pub valid : validate d.definition ≡ []

Unique-append :
    (xs ys : List String)
    → Unique xs
    → Unique ys
    → ((x : String) → contains ys x ≡ true → contains xs x ≡ false)
    → Unique (xs ++ ys)
Unique-append [] ys u v apart = v
Unique-append (x ∷ xs) ys (new, u) v apart = (
  elim (Bool-cases (contains ys x)) [
    | inl m ↦ cc (apart x m, contains_head x xs)
    | inr n ↦ ground (arith, new, n, contains-append xs ys x)
  ],
  Unique-append xs ys u v (λ z m. ground (arith, apart z)),
)

-- A run whose status and whose limit are those of another.
pub record Like (a b : Run) : Type 0 where
  pub status : b.status ≡ a.status
  pub limit : b.max_concurrency ≡ a.max_concurrency

deliver_items-Like :
    (def : Definition) (starting : List String) (items : List Instruction) (run : Run)
    → Like run (deliver_items def starting items run)
unfolding deliver_items deliver_item
deliver_items-Like def starting [] run = record { status = refl; limit = refl }
deliver_items-Like def starting (item ∷ items) run =
    let rest = deliver_items-Like def starting items (deliver_item def starting item run) in
    record { status = ground (arith, rest.status); limit = ground (arith, rest.limit) }

mark_started-Like : (now : ℕ) (ss : List Step) (run : Run) → Like run (mark_started now ss run)
unfolding mark_started
mark_started-Like now [] run = record { status = refl; limit = refl }
mark_started-Like now (s ∷ ss) run =
    let node = started now (node_at run.nodes s.id) in
    let next = record run { nodes = Dict.insert s.id node run.nodes; current_step_id = s.id } in
    let rest = mark_started-Like now ss next in record { status = rest.status; limit = rest.limit }

within_room : (m l n : ℕ) → m ≤ l + (n - l) → (m ≤ l) ⊎ (m ≤ n)
within_room m l n h = ground arith

module _ (world : World) (preserve : List String) (steady : Steady world) where
  -- Delivered instructions touch no status.
  abbrev pub Told : Run → Run → Type 0
  Told run out = ((x : String) → status_at out x ≡ status_at run x) × Like run out

  pub deliver_instructions-Told :
      (def : Definition) (run : Run) (starting : List String) (f : Bool)
      → Replies (Told run) (deliver_instructions world def run starting f)
  unfolding deliver_instructions
  deliver_instructions-Told def run starting f =
      Replies-bind (Told run) (world.claim f) _ (λ items _.
        Replies-bind (Told run) (if is_empty items then reply tt else world.journal) _ (λ _ _.
          (status-deliver_items def starting items run, deliver_items-Like def starting items run)))

module _ (Clear : Type 0) (world : World) (preserve : List String) (steady : Steady world) where
  -- What a start leaves: a tidy state, in which more steps may be in flight.
  pub record Launched (steps : List Step) (d out : Drive) : Type 0 where
    pub tidy : Tidy Clear out
    pub inflight : out.inflight ≡ d.inflight ++ ids_of steps
    pub limit : out.run.max_concurrency ≡ d.run.max_concurrency

  module _ (d : Drive) (steps : List Step) (saved : Run) where
    flying :
        (x : String)
        → contains (d.inflight ++ ids_of steps) x
          ≡ (contains d.inflight x || contains (ids_of steps) x)
    flying x = contains-append d.inflight (ids_of steps) x

    launched :
        Tidy Clear d
        → is_running d.run.status ≡ true
        → Unique (ids_of steps)
        → ((x : String) → contains (ids_of steps) x ≡ true → Waits d x)
        → ((x : String)
            → status_at saved x
              ≡ (if contains (ids_of steps) x then running else status_at d.run x))
        → Like d.run saved
        → Launched steps d (record d {
          run = saved;
          inflight = d.inflight ++ ids_of steps;
          include_follow_up = false;
        })
    launched t live once waits status like = record {
      tidy = record {
        flies = λ x m. ground (arith, m, status x, flying x, t.flies x);
        going = λ x m. ground (arith, m, status x, flying x, t.going x);
        known = λ x m. elim (or_cases _ _ (sym (flying x) ∙ m)) [
          | inl old ↦ t.known x old
          | inr new ↦ (waits x new).known
        ];
        once = Unique-append d.inflight (ids_of steps) t.once once (λ x m. (waits x m).free);
        completed = λ m. ground (arith, m, like.status, live);
        active = λ clear. elim (t.active clear) [
          | inl (inl h) ↦ inl (inl h)
          | inl (inr h) ↦ inl (inr (like.status ∙ h))
          | inr h ↦ inr (λ x m. ground (arith, status x, h x m))
        ];
        unique = t.unique;
        valid = t.valid;
      };
      inflight = refl;
      limit = like.limit;
    }

  -- Steps that wait, are listed once and are started become running and in flight.
  launch-Launched :
      (d : Drive) (steps : List Step)
      → Tidy Clear d
      → is_running d.run.status ≡ true
      → Unique (ids_of steps)
      → ((x : String) → contains (ids_of steps) x ≡ true → Waits d x)
      → Replies (Launched steps d) (launch world d steps)
  unfolding launch
  launch-Launched d steps t live once waits =
      Replies-bind (Launched steps d)
        (deliver_instructions world d.definition d.run (ids_of steps) d.include_follow_up) _
        (λ told e.
          let next = record (mark_started world.now steps told) { updated_at = world.now } in
          let (same, like) =
            Replies-read (Told world preserve steady d.run) _ told
              (deliver_instructions-Told world preserve steady d.definition d.run (ids_of steps)
                d.include_follow_up)
              e in
          let marks = mark_started-Like world.now steps told in
          Replies-bind (Launched steps d) (world.save next next.revision) _ (λ saved s.
            let kept = steady.saves next saved next.revision s in
            launched d steps saved t live once waits
              (λ x. rw (kept, status-mark_started world.now steps told x, same x) refl)
              (record {
                status = rw kept (marks.status ∙ like.status);
                limit = rw kept (marks.limit ∙ like.limit);
              })))

  -- A refreshed definition and run keep the state tidy.
  refreshed :
      (d : Drive) (def : Definition) (run : Run)
      → Tidy Clear d
      → Keeps d.definition d.run (def, run)
      → Tidy Clear (record d { definition = def; run = run })
  refreshed d def run t k = record {
    flies = λ x m. t.flies x (ground (arith, m, k.nodes));
    going = λ x m. ground (arith, t.going x m, k.nodes);
    known = λ x m. rw k.ids (t.known x m);
    once = t.once;
    completed = λ m. t.completed (sym k.status ∙ m);
    active = λ clear. elim (t.active clear) [
      | inl (inl h) ↦ inl (inl h)
      | inl (inr h) ↦ inl (inr (k.status ∙ h))
      | inr h ↦ inr (λ x m. rw k.nodes (h x (rw k.ids at m)))
    ];
    unique = rw k.ids t.unique;
    valid = k.valid;
  }

  -- A start leaves a tidy state, and takes the steps in flight past the limit only if they were past
  -- it.
  pub record Started (d out : Drive) : Type 0 where
    pub tidy : Tidy Clear out
    pub room :
        (length out.inflight ≤ length d.inflight) ⊎ (length out.inflight ≤ limit_of world out.run)
    pub more : List String
    pub grows : out.inflight ≡ d.inflight ++ more
    pub waits : (x : String) → contains more x ≡ true → contains (ids_of (waiting_steps d)) x ≡ true
    pub moves :
        length out.inflight ≡ 0
        → (is_empty (ids_of (waiting_steps d)) ≡ true) ⊎ (limit_of world out.run ≡ 0)

  empty_map : (ss : List Step) → is_empty ss ≡ is_empty (ids_of ss)
  empty_map [] = refl
  empty_map (s ∷ ss) = refl

  same_limit :
      (a b : Run) → b.max_concurrency ≡ a.max_concurrency → limit_of world b ≡ limit_of world a
  unfolding limit_of
  same_limit a b e = rw e refl

  module _ (d : Drive) (def : Definition) (run : Run) (t : Tidy Clear d)
      (k : Keeps d.definition d.run (def, run)) where
    abbrev next : Drive
    next = record d { definition = def; run = run }

    abbrev chosen : List Step
    chosen = chosen_steps world def run d.inflight (waiting_steps d)

    abbrev room : ℕ
    room = limit_of world run - length d.inflight

    waiting_known : Subset (ids_of (waiting_steps d)) (step_ids def)
    waiting_known x m = rw k.ids (contains-waiting_steps d x m).known

    taken : ids_of chosen ≡ take room (ids_of (waiting_steps d))
    taken = ids-chosen_steps world def run d.inflight (waiting_steps d) waiting_known

    waits_chosen :
        (x : String)
        → contains (ids_of chosen) x ≡ true
        → contains (ids_of (waiting_steps d)) x ≡ true
    waits_chosen x m = contains-take room (ids_of (waiting_steps d)) x (rw taken at m)

    next-Waits : (x : String) → contains (ids_of chosen) x ≡ true → Waits next x
    next-Waits x m =
        let w = contains-waiting_steps d x (waits_chosen x m) in
        record { known = rw k.ids w.known; pending = rw k.nodes w.pending; free = w.free }

    once_chosen : Unique (ids_of chosen)
    once_chosen =
        rw taken (Unique-take room (ids_of (waiting_steps d)) (Unique-waiting_steps d t.unique))

    fits_room :
        (out : Drive)
        → is_empty (ids_of (waiting_steps d)) ≡ false
        → Launched chosen next out
        → Started d out
    fits_room out some_wait l =
        let limit : limit_of world out.run ≡ limit_of world run = same_limit run out.run l.limit in
        let size : length out.inflight ≡ length d.inflight + length (ids_of chosen) =
          rw l.inflight (length-append d.inflight (ids_of chosen)) in
        let small : length (ids_of chosen) ≤ room =
          rw taken (length-take room (ids_of (waiting_steps d))) in
        record {
          tidy = l.tidy;
          room =
              within_room (length out.inflight) (length d.inflight) (limit_of world out.run)
                (omega (arith, size, small, limit));
          more = ids_of chosen;
          grows = l.inflight;
          waits = waits_chosen;
          moves = λ none_flies. inr (
              omega (
                arith,
                leb,
                limit,
                size,
                none_flies,
                no_room room (ids_of (waiting_steps d))
                    (rw (← taken) (omega (arith, size, none_flies))) some_wait,
              ));
        }

    -- Without room the refresh is all that happens.
    fits_none :
        is_empty (ids_of (waiting_steps d)) ≡ false → is_empty chosen ≡ true → Started d next
    fits_none some_wait e = fits_room next some_wait (record {
      tidy = refreshed d def run t k;
      inflight = rw (empty_nil chosen e) (sym (append-nil d.inflight));
      limit = refl;
    })

    chosen-Started :
        is_running d.run.status ≡ true
        → is_empty (ids_of (waiting_steps d)) ≡ false
        → Replies (Started d) (if is_empty chosen then reply next else launch world next chosen)
    chosen-Started live some_wait = elim (Bool-cases (is_empty chosen)) [
      | inl e ↦ rw e (fits_none some_wait e)
      | inr e ↦ rw e (
          Replies-map (Launched chosen next) (Started d) (launch world next chosen)
            (λ out l. fits_room out some_wait l)
            (launch-Launched next chosen (refreshed d def run t k) (rw k.status live) once_chosen
              next-Waits))
    ]

  start_waiting-Started :
      (d : Drive)
      → Tidy Clear d
      → is_running d.run.status ≡ true
      → is_empty (ids_of (waiting_steps d)) ≡ false
      → Replies (Started d) (start_waiting world preserve d (waiting_steps d))
  unfolding start_waiting
  start_waiting-Started d t live some_wait =
      let ready = ids_of (waiting_steps d) in
      Replies-bind (Started d) (refresh_starting_settings world d.definition d.run ready preserve) _
        (λ fresh e.
          let k =
            Replies-read (Keeps d.definition d.run) _ fresh
              (refresh_starting_settings-Keeps world d.definition d.run ready preserve steady) e in
          chosen-Started d fresh.0 fresh.1 t k live some_wait)

  nothing_waits :
      (d : Drive) → Tidy Clear d → is_empty (ids_of (waiting_steps d)) ≡ true → Started d d
  nothing_waits d t e = record {
    tidy = t;
    room = inl (omega arith);
    more = [];
    grows = sym (append-nil d.inflight);
    waits = λ x m. cc;
    moves = λ _. inl e;
  }

  pub start_ready_steps-Started :
      (d : Drive)
      → Tidy Clear d
      → is_running d.run.status ≡ true
      → Replies (Started d) (start_ready_steps world preserve d)
  unfolding start_ready_steps
  start_ready_steps-Started d t live =
      let ready = waiting_steps d in
      let same : is_empty ready ≡ is_empty (ids_of ready) = empty_map ready in
      elim (Bool-cases (is_empty ready)) [
        | inl e ↦ rw e (nothing_waits d t (sym same ∙ e))
        | inr e ↦ rw e (start_waiting-Started d t live (sym same ∙ e))
      ]
