-- ===== src/Desktop/RunState/Traces.antt =====
-- Every order in which marks, the timer, flushes and Close can come.
use onecatch.Base.{
  bit, ℕ, ◌==◌, if◌then◌else◌, suc, ◌+◌, ◌≤◌, String, true, false, ◌||◌, none, some, List, [], ◌∷◌,
  ◌++◌, append_assoc, contains, contains-append, contains_head, ◌≡◌, ◌≢◌, refl, arith, Unique,
}
use onecatch.Desktop.RunState.{
  Hub, new_hub, mark_dirty, flush, emit_view, close, set_resolver, set_emitter, Step, marks, fires,
  flushes, sends, closes, resolves, emits, Steps, done, next,
}

-- How often a run stands in a list.
abbrev pub occurs : String → List String → ℕ
occurs id [] = 0
occurs id (x ∷ xs) = let rest = occurs id xs in if x == id then suc rest else rest

occurs-append :
    (id : String) (xs ys : List String) → occurs id (xs ++ ys) ≡ occurs id xs + occurs id ys
occurs-append id [] ys = omega arith
occurs-append id (x ∷ xs) ys = ground (arith, occurs-append id xs ys)

occurs-split :
    (x : String) (before after : List String) (id : String)
    → occurs x (before ++ id ∷ after)
      ≡ (if id == x then suc (occurs x (before ++ after)) else occurs x (before ++ after))
occurs-split x before after id =
    ground (arith, occurs-append x before (id ∷ after), occurs-append x before after)

module _ {View : Type 0} where
  -- Of an open hub: one timer or flush is on its way when the hub has a timer and none otherwise, and
  -- a hub without a timer has no marks.
  abbrev Coalesced : Hub View → Type 0
  Coalesced h =
      h.stopped ≡ false
      → (bit h.armed + h.waiting ≡ bit h.timer) × (h.timer ≡ false → h.dirty ≡ []) × Unique h.dirty

  Step-Coalesced : {h i : Hub View} → Step h i → Coalesced h → Coalesced i
  unfolding mark_dirty flush emit_view close set_resolver set_emitter
  Step-Coalesced (marks h id) c = ground arith
  Step-Coalesced (fires h a) c = ground arith
  Step-Coalesced (flushes h n w) c = ground arith
  Step-Coalesced (sends h before after id answer e) c = ground arith
  Step-Coalesced (closes h) c = ground arith
  Step-Coalesced (resolves h) c = ground arith
  Step-Coalesced (emits h) c = ground arith

  Steps-Coalesced : {h i : Hub View} → Steps h i → Coalesced h → Coalesced i
  Steps-Coalesced (done h) c = c
  Steps-Coalesced (next s ss) c = Steps-Coalesced ss (Step-Coalesced s c)

  -- Whatever happens after its creation: while the hub is open and runs are marked, exactly one timer
  -- or flush is on its way, and no run is marked twice.
  pub marks_are_awaited :
      (h : Hub View)
      → Steps new_hub h
      → h.stopped ≡ false
      → h.dirty ≢ []
      → (bit h.armed + h.waiting ≡ 1) × Unique h.dirty
  unfolding new_hub
  marks_are_awaited h ss o d =
      let c = Steps-Coalesced ss (λ _. (refl, λ _. refl, tt)) o in ground arith

  -- A run that is marked after a log of resolved runs: it is marked still, taken by a flush, or resolved
  -- since then.
  abbrev Kept : String → List String → Hub View → Type 0
  Kept id log h =
      h.stopped ≡ false
      → (new : List String) × (h.resolved ≡ new ++ log)
        × ((contains new id || (contains h.dirty id || contains h.sending id)) ≡ true)

  abbrev Installed : Hub View → Type 0
  Installed h = (h.resolver ≡ true) × (h.emitter ≡ true)

  Step-Installed : {h i : Hub View} → Step h i → Installed h → Installed i
  unfolding mark_dirty flush emit_view close set_resolver set_emitter
  Step-Installed (marks h id) c = ground arith
  Step-Installed (fires h a) c = ground arith
  Step-Installed (flushes h n w) c = ground arith
  Step-Installed (sends h before after id answer e) c = ground arith
  Step-Installed (closes h) c = ground arith
  Step-Installed (resolves h) c = ground arith
  Step-Installed (emits h) c = ground arith

  send-Kept :
      (id other : String) (log before after : List String) (h : Hub View)
      → h.sending ≡ before ++ other ∷ after
      → Kept id log h
      → (h.stopped ≡ false)
      → (new : List String) × (other ∷ h.resolved ≡ new ++ log)
        × ((contains new id || (contains h.dirty id || contains (before ++ after) id)) ≡ true)
  send-Kept id other log before after h e k o =
      let (new, grows, found) = k o in
      (
        other ∷ new,
        cc,
        ground (
          arith,
          found,
          e,
          contains-append before (other ∷ after) id,
          contains-append before after id,
        ),
      )

  Step-Kept :
      {h i : Hub View} (id : String) (log : List String)
      → Step h i
      → Installed h
      → Kept id log h
      → Kept id log i
  unfolding mark_dirty flush emit_view close set_resolver set_emitter
  Step-Kept id log (marks h other) c k = λ o. ground (arith, k)
  Step-Kept id log (fires h a) c k = k
  Step-Kept id log (flushes h n w) c k =
      λ o. ground (arith, k, contains-append h.dirty h.sending id)
  Step-Kept id log (sends h before after other answer e) c k =
      λ o. send-Kept id other log before after h e k o
  Step-Kept id log (closes h) c k = λ o. ground arith
  Step-Kept id log (resolves h) c k = k
  Step-Kept id log (emits h) c k = k

  Steps-Kept :
      {h i : Hub View} (id : String) (log : List String)
      → Steps h i
      → Installed h
      → Kept id log h
      → Kept id log i
  Steps-Kept id log (done h) c k = k
  Steps-Kept id log (next s ss) c k =
      Steps-Kept id log ss (Step-Installed s c) (Step-Kept id log s c k)

  -- No mark is lost: once a run is marked in an open hub whose resolver and emitter are installed, then
  -- at every later moment at which the hub is open, the run is marked, taken by a flush, or resolved
  -- since.
  pub marks_are_kept :
      (h i : Hub View) (id : String)
      → id ≢ ""
      → h.stopped ≡ false
      → h.resolver ≡ true
      → h.emitter ≡ true
      → Steps (mark_dirty id h) i
      → i.stopped ≡ false
      → (new : List String) × (i.resolved ≡ new ++ h.resolved)
        × ((contains new id || (contains i.dirty id || contains i.sending id)) ≡ true)
  unfolding mark_dirty
  marks_are_kept h i id ne o r e ss =
      Steps-Kept id h.resolved ss (ground arith)
        (λ _. ([], ground arith, ground (arith, contains_head id h.dirty)))

  -- How many of some views are views of a run.
  abbrev pub views_of : String → List (String × View) → ℕ
  views_of id [] = 0
  views_of id ((other, view) ∷ views) =
      let rest = views_of id views in if other == id then suc rest else rest

  views_of-append :
      (id : String) (xs ys : List (String × View))
      → views_of id (xs ++ ys) ≡ views_of id xs + views_of id ys
  views_of-append id [] ys = omega arith
  views_of-append id ((other, view) ∷ xs) ys = ground (arith, views_of-append id xs ys)

  abbrev Quiet : Hub View → Hub View → Type 0
  Quiet h i =
      (i.stopped ≡ true)
      × (new : List (String × View)) × (i.emitted ≡ new ++ h.emitted)
      × ((id : String) → views_of id new + occurs id i.sending ≤ occurs id h.sending)

  Step-Quiet : {h i : Hub View} → Step h i → h.stopped ≡ true → Quiet h i
  unfolding mark_dirty flush emit_view close set_resolver set_emitter
  Step-Quiet (marks h id) s = (ground arith, [], ground arith, λ x. ground arith)
  Step-Quiet (fires h a) s = (s, [], refl, λ x. omega arith)
  Step-Quiet (flushes h n w) s = (ground arith, [], ground arith, λ x. ground arith)
  Step-Quiet (sends h before after id none e) s =
      (s, [], refl, λ x. ground (arith, e, occurs-split x before after id))
  Step-Quiet (sends h before after id (some view) e) s =
      (s, (id, view) ∷ [], refl, λ x. ground (arith, e, occurs-split x before after id))
  Step-Quiet (closes h) s = (ground arith, [], ground arith, λ x. ground arith)
  Step-Quiet (resolves h) s = (s, [], refl, λ x. omega arith)
  Step-Quiet (emits h) s = (s, [], refl, λ x. omega arith)

  Steps-Quiet : {h i : Hub View} → Steps h i → h.stopped ≡ true → Quiet h i
  Steps-Quiet (done h) s = (s, [], refl, λ x. omega arith)
  Steps-Quiet (next t ts) s =
      let (s1, new1, e1, l1) = Step-Quiet t s in
      let (s2, new2, e2, l2) = Steps-Quiet ts s1 in
      (
        s2,
        new2 ++ new1,
        cc (e2, e1, append_assoc new2 new1 _),
        λ x. omega (arith, views_of-append x new2 new1, l1 x, l2 x),
      )

  -- After Close, whatever happens next, the hub stays closed, and every view that is still emitted is
  -- one of a run that a flush had already taken out of the hub: no run has more views emitted, and
  -- more turns of a flush left, than flushes had taken it.
  pub close_is_quiet :
      (h i : Hub View)
      → Steps (close h) i
      → (i.stopped ≡ true)
        × (new : List (String × View)) × (i.emitted ≡ new ++ h.emitted)
        × ((id : String) → views_of id new + occurs id i.sending ≤ occurs id h.sending)
  unfolding close
  close_is_quiet h i ss =
      let (s, new, e, l) = Steps-Quiet ss (ground arith) in
      (s, new, ground arith, λ x. ground (arith, l x))
