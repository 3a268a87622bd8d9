-- ===== src/Collector/Agreement.antt =====
-- Whatever events and timers come, the logs agree.
use Prim.Native.String
use onecatch.Base.{
  ℕ, String, Bool, true, false, Option, some, List, if◌then◌else◌, ◌≡◌, ◌≢◌, inl, inr, refl, ap,
  sym, ◌∙◌, arith, Bool-cases, Option-cases,
}
use onecatch.Base.Dict
use onecatch.Collector.{
  Event, Stream, Collector, new_collector, each, stream_ids, flush_live, flush_durable, flush_all,
}
use onecatch.Collector.Push.{push, live_fires, durable_fires, last_event, close_one, close}
use onecatch.Collector.Logs.{replay, events, Agrees}
use onecatch.Collector.Pushes.{
  Good, each-Good, flush_live-Good, flush_durable-Good, flush_all-Good, end_stream-Good, push-Good,
}

module _ {R : Type 0} (persist : List (Event R) → Event R → Option ℕ) (blank : R) where
  abbrev Kept : Collector R → Type 0
  Kept = Good persist blank

  either-Kept : (b : Bool) (x y : Collector R) → Kept x → Kept y → Kept (if b then x else y)
  either-Kept true x y kx ky = kx
  either-Kept false x y kx ky = ky

  live_fires-Kept : (c : Collector R) → Kept c → Kept (live_fires persist blank c)
  unfolding live_fires
  live_fires-Kept c k =
      let late = record c { live_timer = false } in
      either-Kept c.closed late (flush_live persist blank late) k
        (flush_live-Good persist blank late k)

  durable_fires-Kept : (c : Collector R) → Kept c → Kept (durable_fires persist blank c)
  unfolding durable_fires
  durable_fires-Kept c k =
      let late = record c { durable_timer = false } in
      let live = flush_live persist blank late in
      either-Kept c.closed late (flush_durable persist blank live) k
        (flush_durable-Good persist blank live (flush_live-Good persist blank late k))

  close_one-Kept : (id : String) (c : Collector R) → Kept c → Kept (close_one persist blank id c)
  unfolding close_one
  close_one-Kept id c k = elim (Option-cases (Dict.lookup id c.streams)) [
    | inl f ↦ rw (close_one, f) k
    | inr (s, f) ↦ elim (Bool-cases s.ended) [
      | inl t ↦ rw (close_one, f, t) k
      | inr t ↦
          rw (close_one, f, t)
            (end_stream-Good persist blank (last_event persist blank id s) c (inr refl) k)
    ]
  ]

  close-Kept : (c : Collector R) → Kept c → Kept (close persist blank c)
  unfolding close
  close-Kept c k =
      let flushed = flush_all persist blank c in
      let ended =
        each persist blank (close_one persist blank) (stream_ids persist blank flushed) flushed in
      either-Kept c.closed c (record ended { closed = true }) k
        (each-Good persist blank (close_one persist blank) close_one-Kept
          (stream_ids persist blank flushed) flushed (flush_all-Good persist blank c k))

  -- What can happen next to a collector. A timer that was stopped too late still fires.
  pub data Step : Collector R → Collector R → Type 0 where
    pushes : (c out : Collector R) (e : Event R) → push persist blank e c ≡ some out → Step c out
    fires_live : (c : Collector R) → Step c (live_fires persist blank c)
    fires_durable : (c : Collector R) → Step c (durable_fires persist blank c)
    closes : (c : Collector R) → Step c (close persist blank c)

  pub data Steps : Collector R → Collector R → Type 0 where
    done : (c : Collector R) → Steps c c
    next : {a b c : Collector R} → Step a b → Steps b c → Steps a c

  Step-Kept : {c out : Collector R} → Step c out → Kept c → Kept out
  Step-Kept (pushes c out e h) k = push-Good persist blank e c out k h
  Step-Kept (fires_live c) k = live_fires-Kept c k
  Step-Kept (fires_durable c) k = durable_fires-Kept c k
  Step-Kept (closes c) k = close-Kept c k

  Steps-Kept : {c out : Collector R} → Steps c out → Kept c → Kept out
  Steps-Kept (done c) k = k
  Steps-Kept (next s ss) k = Steps-Kept ss (Step-Kept s k)

  new-Kept : (tokens : ℕ) → Kept (new_collector persist blank true tokens)
  unfolding new_collector Dict.lookup
  new-Kept tokens = inr (refl, refl, λ id named. (refl, refl))

  -- Whatever events, timers and Close came since a collector with a publisher was made, as long as the
  -- storage has had no error: a reader of the published frames has exactly the full text of each named
  -- stream, and what is stored together with what is held back for the storage is what is published
  -- together with what is held back for the window. An ended stream holds nothing back.
  pub window_and_storage_agree :
      (tokens : ℕ) (c : Collector R) (id : String) (s : Stream)
      → Steps (new_collector persist blank true tokens) c
      → c.error ≡ false
      → id ≢ ""
      → Dict.lookup id c.streams ≡ some s
      → (replay id (events c.published) ≡ s.full)
        × (String.◌++◌ (replay id c.persisted) (if s.ended then "" else s.disk_pending)
            ≡ String.◌++◌ (replay id (events c.published)) (if s.ended then "" else s.live_pending))
  window_and_storage_agree tokens c id s ss ok named f = elim (Steps-Kept ss (new-Kept tokens)) [
    | inl bad ↦ absurd (cc (ok, bad))
    | inr (_, _, agree) ↦
        let known : Agrees persist blank (replay id (events c.published)) (replay id c.persisted)
            (some s) =
          ground (arith, f, agree id named) in
        (
          known.0,
          elim (Bool-cases s.ended) [
            | inl t ↦ rw t (ap (λ u. String.◌++◌ u "") (known.1 t ∙ sym known.0))
            | inr t ↦ rw t (known.2 t ∙ ap (λ u. String.◌++◌ u s.live_pending) (sym known.0))
          ],
        )
  ]
