-- ===== src/Desktop/ListChange.antt =====
-- internal/service/desktop/listchange/hub.go: writes that a list shows mark the hub, a timer collects the
-- marks, and its flush emits one notification without content. `armed` says that the runtime has yet to
-- fire the timer; `waiting` counts flushes that wait for the lock, `sending` those beyond it that have
-- still to emit, and `emitted` the notifications.
pub mod Traces
use onecatch.Base.{ℕ, suc, Bool, true, false, not, ◌&&◌, ◌||◌, if◌then◌else◌, ◌≡◌}

pub record Hub : Type 0 where
  pub timer : Bool
  pub emitter : Bool
  pub stopped : Bool
  pub armed : Bool
  pub waiting : ℕ
  pub sending : ℕ
  pub emitted : ℕ

unfoldable pub new_hub : Hub
new_hub = record {
  timer = false;
  emitter = false;
  stopped = false;
  armed = false;
  waiting = 0;
  sending = 0;
  emitted = 0;
}

unfoldable pub set_emitter : Hub → Hub
set_emitter h = record h { emitter = true }

unfoldable pub mark_dirty : Hub → Hub
mark_dirty h = if h.stopped || h.timer then h else record h { timer = true; armed = true }

-- The part of `flush` that holds the lock, and whether it goes on to emit.
unfoldable pub flush : Hub → Hub
flush h = record h {
  timer = false;
  sending = if not h.stopped && h.emitter then suc h.sending else h.sending;
}

unfoldable pub close : Hub → Hub
close h =
    if h.timer
    then record h { stopped = true; timer = false; armed = false }
    else record h { stopped = true }

-- What can happen next: a call of the program, the timer that fires, a flush that gets the lock, or a
-- flush beyond it that emits.
pub data Step : Hub → Hub → Type 0 where
  marks : (h : Hub) → Step h (mark_dirty h)
  fires : (h : Hub) → h.armed ≡ true → Step h (record h { armed = false; waiting = suc h.waiting })
  flushes : (h : Hub) (n : ℕ) → h.waiting ≡ suc n → Step h (flush (record h { waiting = n }))
  sends :
      (h : Hub) (n : ℕ)
      → h.sending ≡ suc n
      → Step h (record h { sending = n; emitted = suc h.emitted })
  closes : (h : Hub) → Step h (close h)
  emits : (h : Hub) → Step h (set_emitter h)

pub data Steps : Hub → Hub → Type 0 where
  done : (h : Hub) → Steps h h
  next : {h i j : Hub} → Step h i → Steps i j → Steps h j
