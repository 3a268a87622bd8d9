-- ===== src/Scheduler/Waiting.antt =====
-- The steps that a round of the scheduler may start, and the room that there is for them.
use mathlib.Core.Option
use onecatch.Base.{
  ℕ, zero, suc, ◌-◌, ◌≤◌, String, Bool, true, false, not, ◌&&◌, List, [], ◌∷◌, map, some, find,
  take, length, is_empty, select, contains, contains_head, ◌==◌, ◌≡◌, refl, inl, inr, arith,
  Bool-cases, Unique, Subset,
}
use onecatch.Workflow.Model.{Step, Definition, pending, Run}
use onecatch.Workflow.Graph.{find_step, step_ids}
use onecatch.Workflow.State.{is_ready, ready_steps}
use onecatch.Workflow.State.Ready.{contains-ready_steps}
use onecatch.Scheduler.{World, Drive}
use onecatch.Scheduler.Refresh.{step_of}
use onecatch.Scheduler.Start.{ids_of, waiting_steps, chosen_steps, limit_of}
use onecatch.Scheduler.Moves.{status_at}
use onecatch.Scheduler.Keeps.{id-find_step}

contains-select_ids :
    (p : Step → Bool) (ss : List Step) (x : String)
    → contains (ids_of (select p ss)) x ≡ true
    → contains (ids_of ss) x ≡ true
contains-select_ids p [] x m = m
contains-select_ids p (s ∷ ss) x m = ground (arith, contains-select_ids p ss x)

Unique-select :
    (p : Step → Bool) (ss : List Step) → Unique (ids_of ss) → Unique (ids_of (select p ss))
Unique-select p [] u = tt
Unique-select p (s ∷ ss) (new, u) = elim (Bool-cases (p s)) [
  | inr h ↦ rw (h, select) (Unique-select p ss u)
  | inl h ↦
      rw (h, select) (ground (arith, contains-select_ids p ss s.id, new), Unique-select p ss u)
]

pub outside :
    (taken : List String) (ss : List Step) (x : String)
    → contains (ids_of (select (λ s. not (contains taken s.id)) ss)) x
      ≡ (contains (ids_of ss) x && not (contains taken x))
outside taken [] x = refl
outside taken (s ∷ ss) x = ground (arith, outside taken ss x)

-- A step that may start is one of the definition, pending, and not in flight.
pub record Waits (d : Drive) (x : String) : Type 0 where
  pub known : contains (step_ids d.definition) x ≡ true
  pub pending : status_at d.run x ≡ pending
  pub free : contains d.inflight x ≡ false

pub contains-waiting_steps :
    (d : Drive) (x : String) → contains (ids_of (waiting_steps d)) x ≡ true → Waits d x
unfolding waiting_steps
contains-waiting_steps d x m =
    let e = outside d.inflight (ready_steps d.definition d.run) x in
    let (known, (waits, deps)) =
      (contains-ready_steps d.definition d.run x).0 (ground (arith, e, m)) in
    record { known = known; pending = waits; free = ground (arith, e, m) }

pub Unique-waiting_steps :
    (d : Drive) → Unique (step_ids d.definition) → Unique (ids_of (waiting_steps d))
unfolding waiting_steps ready_steps
Unique-waiting_steps d u =
    Unique-select (λ s. not (contains d.inflight s.id)) (ready_steps d.definition d.run)
      (Unique-select (is_ready d.definition d.run) d.definition.steps u)

pub contains-take :
    (n : ℕ) (xs : List String) (x : String) → contains (take n xs) x ≡ true → contains xs x ≡ true
contains-take zero xs x m = cc
contains-take (suc n) [] x m = m
contains-take (suc n) (y ∷ xs) x m = ground (arith, contains-take n xs x)

pub Unique-take : (n : ℕ) (xs : List String) → Unique xs → Unique (take n xs)
Unique-take zero xs u = tt
Unique-take (suc n) [] u = tt
Unique-take (suc n) (x ∷ xs) (new, u) =
    (ground (arith, contains-take n xs x, new), Unique-take n xs u)

pub length-take : (n : ℕ) (xs : List String) → length (take n xs) ≤ n
length-take zero xs = omega arith
length-take (suc n) [] = omega arith
length-take (suc n) (x ∷ xs) = omega (arith, length-take n xs)

-- Nothing is taken from a list with elements only if there is no room.
pub no_room : (n : ℕ) (xs : List String) → length (take n xs) ≡ 0 → is_empty xs ≡ false → n ≡ 0
no_room zero xs h e = refl
no_room (suc n) [] h e = cc
no_room (suc n) (x ∷ xs) h e = omega (arith, h)

find_known :
    (ss : List Step) (x : String)
    → contains (ids_of ss) x ≡ true
    → (s : Step) × (find (λ s. s.id == x) ss ≡ some s)
find_known [] x m = cc
find_known (s ∷ ss) x m = elim (Bool-cases (s.id == x)) [
  | inl here ↦ (s, rw here refl)
  | inr other ↦ let (t, e) = find_known ss x (ground arith) in (t, rw other e)
]

-- A step of the definition is found under its id.
id-step_of :
    (def : Definition) (x : String) → contains (step_ids def) x ≡ true → (step_of def x).id ≡ x
unfolding find_step
id-step_of def x m =
    let (s, found) = find_known def.steps x m in
    rw (found, Option.get_or) (id-find_step def x s found)

ids-taken :
    (def : Definition) (n : ℕ) (ss : List Step)
    → Subset (ids_of ss) (step_ids def)
    → ids_of (map (λ s. step_of def s.id) (take n ss)) ≡ take n (ids_of ss)
ids-taken def zero ss known = refl
ids-taken def (suc n) [] known = refl
ids-taken def (suc n) (s ∷ ss) known =
    let rest = ids-taken def n ss (λ x m. known x (ground arith)) in
    rw (rest, id-step_of def s.id (known s.id (contains_head s.id (ids_of ss)))) refl

-- The steps that start, in the order in which they wait.
pub ids-chosen_steps :
    (world : World) (def : Definition) (run : Run) (inflight : List String) (ready : List Step)
    → Subset (ids_of ready) (step_ids def)
    → ids_of (chosen_steps world def run inflight ready)
      ≡ take (limit_of world run - length inflight) (ids_of ready)
unfolding chosen_steps
ids-chosen_steps world def run inflight ready known =
    ids-taken def (limit_of world run - length inflight) ready known
