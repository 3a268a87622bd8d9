-- ===== src/Collector/Pushes.antt =====
-- A step of a running collector keeps its logs consistent.
use onecatch.Base.{
  ℕ, String, true, false, ◌&&◌, Option, some, List, [], ◌∷◌, ◌==◌, if◌then◌else◌, ltb, eqb, ◌≡◌,
  ◌⊎◌, inl, inr, refl, subst, some_injective, arith, Bool-cases, Option-cases,
}
use text.Mathlib.TextLemmas.{append_assoc}
use mathlib.Core.Option
use onecatch.Base.Dict
use onecatch.Desktop.RunStream.{Phase, atomic, start, delta, snapshot, end}
use onecatch.Collector.{
  ContextUsage, Event, Stream, Collector, blank_stream, kind_usage, kind_context_compaction,
  context_was_compacted, set_stream, start_stream, ensure_stream, end_stream, finish, final_event,
  both, each, stream_ids, persist_event, flush_live_one, flush_durable_one, flush_live,
  flush_durable, flush_all,
}
use onecatch.Collector.Push.{
  held, compaction_event, note_usage, noted_usage, note_context, push_delta, push, by_phase,
}
use onecatch.Collector.Logs.{
  replay, events, Consistent, emit-Consistent, both-Consistent, start_stream-Consistent,
  ensure_stream-Consistent, flush_live_one-Consistent, flush_durable_one-Consistent,
}

module _ {R : Type 0} (persist : List (Event R) → Event R → Option ℕ) (blank : R) where
  abbrev pub Good : Collector R → Type 0
  Good = Consistent persist blank

  pub each-Good :
      (f : String → Collector R → Collector R)
      → ((id : String) (c : Collector R) → Good c → Good (f id c))
      → (ids : List String) (c : Collector R) → Good c
      → Good (each persist blank f ids c)
  each-Good f one [] c k = k
  each-Good f one (id ∷ ids) c k = each-Good f one ids (f id c) (one id c k)

  pub flush_live-Good : (c : Collector R) → Good c → Good (flush_live persist blank c)
  unfolding flush_live
  flush_live-Good c k =
      each-Good (flush_live_one persist blank) (flush_live_one-Consistent persist blank)
        (stream_ids persist blank c) c k

  pub flush_durable-Good : (c : Collector R) → Good c → Good (flush_durable persist blank c)
  unfolding flush_durable
  flush_durable-Good c k =
      each-Good (flush_durable_one persist blank) (flush_durable_one-Consistent persist blank)
        (stream_ids persist blank c) c k

  pub flush_all-Good : (c : Collector R) → Good c → Good (flush_all persist blank c)
  unfolding flush_all
  flush_all-Good c k =
      let stopped = record c { live_timer = false; durable_timer = false } in
      flush_durable-Good (flush_live persist blank stopped) (flush_live-Good stopped k)

  replay-final :
      (e : Event R) (s : Stream) (log : List (Event R))
      → (e.phase ≡ snapshot) ⊎ (e.phase ≡ end)
      → replay e.stream_id (final_event persist blank e s ∷ log)
        ≡ (final_event persist blank e s).text
  replay-final e s log p = ground (arith, p)

  finish-Good :
      (e : Event R) (s : Stream) (c : Collector R)
      → (e.phase ≡ snapshot) ⊎ (e.phase ≡ end)
      → Good c
      → Good (finish persist blank e s c)
  finish-Good e s c p k =
      let event = final_event persist blank e s in
      let seq = (persist_event persist blank event c).1 in
      let number = if eqb s.seq 0 then seq else s.seq in
      emit-Consistent persist blank event number
        (record s { seq = number; revision = event.revision; full = event.text; ended = true }) c
        (λ agree.
          (replay-final e s (events c.published) p, λ _. replay-final e s c.persisted p, λ h. cc))
        k

  pub end_stream-Good :
      (e : Event R) (c : Collector R)
      → (e.phase ≡ snapshot) ⊎ (e.phase ≡ end)
      → Good c
      → Good (end_stream persist blank e c)
  unfolding end_stream
  end_stream-Good e c p k =
      let known = ensure_stream persist blank e c in
      let good = ensure_stream-Consistent persist blank e c k in
      let s = Option.get_or (Dict.lookup e.stream_id known.streams) blank_stream in
      elim (Bool-cases (e.stream_id == "")) [
        | inl t ↦ rw (t, end_stream) (both-Consistent persist blank e c (inl (ground arith)) k)
        | inr t ↦ elim (Bool-cases s.ended) [
          | inl u ↦ rw (t, end_stream, u) good
          | inr u ↦ rw (t, end_stream, u) (finish-Good e s known p good)
        ]
      ]

  both_alone-Good :
      (e : Event R) (c : Collector R)
      → (e.stream_id ≡ "") ⊎ (e.phase ≡ atomic)
      → Good c
      → Good (both persist blank e (flush_all persist blank c))
  both_alone-Good e c outside k =
      both-Consistent persist blank e (flush_all persist blank c) outside (flush_all-Good c k)

  note_usage-Good :
      (e : Event R) (usage : ContextUsage) (c : Collector R)
      → Good c
      → Good (note_usage persist blank e usage c)
  unfolding note_usage
  note_usage-Good e usage c k =
      elim (Bool-cases (context_was_compacted c.context_tokens usage.tokens)) [
        | inl t ↦
            rw (t, note_usage)
              (both_alone-Good (compaction_event persist blank e c.context_tokens usage) c
                (inl refl) k)
        | inr t ↦ rw (t, note_usage) k
      ]

  noted_usage-Good : (e : Event R) (c : Collector R) → Good c → Good (noted_usage persist blank e c)
  unfolding note_usage
  noted_usage-Good e c k = elim (Option-cases e.context) [
    | inl f ↦ rw f k
    | inr (usage, f) ↦ elim (Bool-cases ((e.kind == kind_usage) && ltb 0 usage.tokens)) [
      | inl t ↦ rw (f, t) (note_usage-Good e usage c k)
      | inr t ↦ rw (f, t) k
    ]
  ]

  note_context-Good :
      (e : Event R) (c : Collector R) → Good c → Good (note_context persist blank e c)
  unfolding note_context
  note_context-Good e c k = elim (Bool-cases (e.kind == kind_context_compaction)) [
    | inl t ↦ rw (note_context, t) (noted_usage-Good e (record c { context_tokens = 0 }) k)
    | inr t ↦ rw (note_context, t) (noted_usage-Good e c k)
  ]

  -- A piece that is held back is missing from both logs.
  hold-Good :
      (e : Event R) (s : Stream) (c : Collector R)
      → Dict.lookup e.stream_id c.streams ≡ some s
      → Good c
      → Good (set_stream persist blank e.stream_id (held persist blank e s) c)
  hold-Good e s c f k = elim k [
    | inl bad ↦ inl bad
    | inr (ok, has, agree) ↦ inr (
      ok,
      has,
      λ id o. ground (
        arith,
        agree id o,
        f,
        Dict.lookup-insert e.stream_id id (held persist blank e s) c.streams,
        append_assoc (replay e.stream_id c.persisted) s.disk_pending e.text,
        append_assoc s.full s.live_pending e.text,
      ),
    )
  ]

  push_delta-Good :
      (e : Event R) (c out : Collector R)
      → Good c
      → push_delta persist blank e c ≡ some out
      → Good out
  unfolding push_delta
  push_delta-Good e c out k h =
      let known = ensure_stream persist blank e c in
      let good = ensure_stream-Consistent persist blank e c k in
      elim (Option-cases (Dict.lookup e.stream_id known.streams)) [
        | inl f ↦ cc (rw (push_delta, f) at h)
        | inr (s, f) ↦
            subst Good (some_injective (rw (push_delta, f) at h)) (hold-Good e s known f good)
      ]

  by_phase-Good :
      (p : Phase) (e : Event R) (c out : Collector R)
      → e.phase ≡ p
      → Good c
      → by_phase persist blank e c ≡ some out
      → Good out
  by_phase-Good delta e c out f k h = push_delta-Good e c out k (ground (arith, f, h))
  by_phase-Good start e c out f k h =
      let flushed = flush_all persist blank c in
      let same : start_stream persist blank e flushed ≡ out = ground (arith, f, h) in
      subst Good same (start_stream-Consistent persist blank e flushed f (flush_all-Good c k))
  by_phase-Good snapshot e c out f k h =
      let flushed = flush_all persist blank c in
      let same : end_stream persist blank e flushed ≡ out = ground (arith, f, h) in
      subst Good same (end_stream-Good e flushed (inl f) (flush_all-Good c k))
  by_phase-Good end e c out f k h =
      let flushed = flush_all persist blank c in
      let same : end_stream persist blank e flushed ≡ out = ground (arith, f, h) in
      subst Good same (end_stream-Good e flushed (inr f) (flush_all-Good c k))
  by_phase-Good atomic e c out f k h =
      let same : both persist blank e (flush_all persist blank c) ≡ out = ground (arith, f, h) in
      subst Good same (both_alone-Good e c (inr f) k)

  pub push-Good :
      (e : Event R) (c out : Collector R) → Good c → push persist blank e c ≡ some out → Good out
  unfolding push
  push-Good e c out k h = elim (Bool-cases c.closed) [
    | inl t ↦ let same : c ≡ out = ground (arith, t, h) in subst Good same k
    | inr t ↦
        by_phase-Good e.phase e (note_context persist blank e c) out refl (note_context-Good e c k)
          (ground (arith, t, h))
  ]
