-- ===== src/Desktop/RunState.antt =====
-- internal/service/desktop/runstate/hub.go: runs are marked as changed, a timer collects the marks, and
-- its flush resolves and emits a view of each marked run. A state holds the hub's fields and what runs
-- beside it: the timer of the runtime, flushes that wait for the lock, and the runs that flushes have
-- taken out of the hub and not yet resolved. A view is whatever the resolver answers at that moment;
-- `emitted` has each one with the run that it was resolved for.
pub mod Traces
use onecatch.Base.{
  ℕ, suc, String, Bool, true, false, ◌&&◌, Option, none, some, List, [], ◌∷◌, ◌++◌, contains, ◌==◌,
  if◌then◌else◌, ◌≡◌,
}

-- `timer` says that the hub's timer is not nil; `armed` that the runtime has yet to fire it.
pub record Hub (View : Type 0) : Type 0 where
  pub dirty : List String
  pub timer : Bool
  pub resolver : Bool
  pub emitter : Bool
  pub stopped : Bool
  pub armed : Bool
  pub waiting : ℕ
  pub sending : List String
  pub resolved : List String
  pub emitted : List (String × View)

-- `h.dirty[runID] = struct{}{}`
abbrev add : String → List String → List String
add id ids = if contains ids id then ids else id ∷ ids

module _ {View : Type 0} where
  unfoldable pub new_hub : Hub View
  new_hub = record {
    dirty = [];
    timer = false;
    resolver = false;
    emitter = false;
    stopped = false;
    armed = false;
    waiting = 0;
    sending = [];
    resolved = [];
    emitted = [];
  }

  unfoldable pub mark_dirty : String → Hub View → Hub View
  mark_dirty id h =
      if id == ""
      then h
      else if h.stopped
      then h
      else if h.timer
      then record h { dirty = add id h.dirty }
      else record h { dirty = add id h.dirty; timer = true; armed = true }

  -- The part of `flush` that holds the lock.
  unfoldable pub flush : Hub View → Hub View
  flush h = if h.stopped then h else record h {
    timer = false;
    dirty = [];
    sending = if h.resolver && h.emitter then h.dirty ++ h.sending else h.sending;
  }

  -- One turn of the loop of `flush`: the answer of the resolver for one run is emitted.
  unfoldable pub emit_view : String → Option View → List String → Hub View → Hub View
  emit_view id answer rest h = record h {
    sending = rest;
    resolved = id ∷ h.resolved;
    emitted = elim answer [ none ↦ h.emitted | some view ↦ (id, view) ∷ h.emitted ];
  }

  -- `h.timer.Stop()` keeps a timer that has not fired from firing.
  unfoldable pub close : Hub View → Hub View
  close h =
      if h.timer
      then record h { stopped = true; timer = false; armed = false }
      else record h { stopped = true }

  unfoldable pub set_resolver : Hub View → Hub View
  set_resolver h = record h { resolver = true }

  unfoldable pub set_emitter : Hub View → Hub View
  set_emitter h = record h { emitter = true }

-- What can happen next: a call of the program, the timer that fires, a flush that gets the lock, or a
-- flush beyond it that goes on with any one of its runs.
pub data Step {View : Type 0} : Hub View → Hub View → Type 0 where
  marks : (h : Hub View) (id : String) → Step h (mark_dirty id h)
  fires :
      (h : Hub View) → h.armed ≡ true → Step h (record h { armed = false; waiting = suc h.waiting })
  flushes : (h : Hub View) (n : ℕ) → h.waiting ≡ suc n → Step h (flush (record h { waiting = n }))
  sends :
      (h : Hub View) (before after : List String) (id : String) (answer : Option View)
      → h.sending ≡ before ++ id ∷ after
      → Step h (emit_view id answer (before ++ after) h)
  closes : (h : Hub View) → Step h (close h)
  resolves : (h : Hub View) → Step h (set_resolver h)
  emits : (h : Hub View) → Step h (set_emitter h)

pub data Steps {View : Type 0} : Hub View → Hub View → Type 0 where
  done : (h : Hub View) → Steps h h
  next : {h i j : Hub View} → Step h i → Steps i j → Steps h j
