-- ===== src/Desktop/ListChange/Traces.antt =====
-- Every order in which marks, the timer, flushes and Close can come.
use onecatch.Base.{bit, ◌+◌, ◌≤◌, true, false, ◌≡◌, refl, arith}
use onecatch.Desktop.ListChange.{
  Hub, new_hub, set_emitter, mark_dirty, flush, close, Step, marks, fires, flushes, sends, closes,
  emits, Steps, done, next,
}

abbrev Coalesced : Hub → Type 0
Coalesced h = h.stopped ≡ false → bit h.armed + h.waiting ≡ bit h.timer

Step-Coalesced : {h i : Hub} → Step h i → Coalesced h → Coalesced i
unfolding mark_dirty flush close set_emitter
Step-Coalesced (marks h) c = ground arith
Step-Coalesced (fires h a) c = ground arith
Step-Coalesced (flushes h n w) c = ground arith
Step-Coalesced (sends h n e) c = ground arith
Step-Coalesced (closes h) c = ground arith
Step-Coalesced (emits h) c = ground arith

Steps-Coalesced : {h i : Hub} → Steps h i → Coalesced h → Coalesced i
Steps-Coalesced (done h) c = c
Steps-Coalesced (next s ss) c = Steps-Coalesced ss (Step-Coalesced s c)

-- Whatever has happened since its creation: after a mark of an open hub exactly one timer or flush is on
-- its way, however many marks came before.
mark_is_awaited :
    (h : Hub)
    → Steps new_hub h
    → h.stopped ≡ false
    → bit (mark_dirty h).armed + (mark_dirty h).waiting ≡ 1
unfolding new_hub mark_dirty
mark_is_awaited h ss o = let c = Steps-Coalesced ss (λ _. refl) o in ground arith

abbrev Quiet : Hub → Hub → Type 0
Quiet h i =
    (i.stopped ≡ true)
    × (i.emitted + i.sending ≡ h.emitted + h.sending)
    × (bit i.armed + i.waiting ≤ bit h.armed + h.waiting)

Step-Quiet : {h i : Hub} → Step h i → h.stopped ≡ true → Quiet h i
unfolding mark_dirty flush close set_emitter
Step-Quiet (marks h) s = ground arith
Step-Quiet (fires h a) s = ground arith
Step-Quiet (flushes h n w) s = ground arith
Step-Quiet (sends h n e) s = ground arith
Step-Quiet (closes h) s = ground arith
Step-Quiet (emits h) s = ground arith

Steps-Quiet : {h i : Hub} → Steps h i → h.stopped ≡ true → Quiet h i
Steps-Quiet (done h) s = ground arith
Steps-Quiet (next t ts) s =
    let (s1, e1, l1) = Step-Quiet t s in
    let (s2, e2, l2) = Steps-Quiet ts s1 in (s2, omega arith, omega arith)

-- After Close, whatever happens next, the hub stays closed, the notifications emitted are those of
-- flushes that were already beyond the lock, and no timer or flush is added.
pub closed_hub_emits_no_more :
    (h i : Hub)
    → Steps (close h) i
    → (i.stopped ≡ true)
      × (i.emitted + i.sending ≡ h.emitted + h.sending)
      × (bit i.armed + i.waiting ≤ bit h.armed + h.waiting)
unfolding close
closed_hub_emits_no_more h i ss = let q = Steps-Quiet ss (ground arith) in ground arith
