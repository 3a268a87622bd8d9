-- ===== src/Collector/Returns.antt =====
-- When taking an event does not panic.
use onecatch.Base.{
  ℕ, Option, none, some, List, ◌≡◌, ◌≢◌, ◌⊎◌, inl, inr, refl, ◌==◌, arith, Bool-cases, Option-cases,
}
use onecatch.Base.Dict
use onecatch.Desktop.RunStream.{Phase, start, delta}
use onecatch.Collector.{
  Event, Stream, Collector, blank_stream, persist_event, publish_event, start_stream, ensure_stream,
}
use onecatch.Collector.Push.{push, push_delta, by_phase, note_context}

module _ {R : Type 0} (persist : List (Event R) → Event R → Option ℕ) (blank : R) where
  started : Event R → ℕ → Stream
  started e seq = record blank_stream {
    kind = e.kind;
    seq = seq;
    last_at = e.at;
    last_raw = e.raw;
    failed = e.failed;
  }

  lookup-start_stream :
      (e : Event R) (c : Collector R)
      → e.stream_id ≢ ""
      → Dict.lookup e.stream_id c.streams ≡ none
      → (s : Stream) × (Dict.lookup e.stream_id (start_stream persist blank e c).streams ≡ some s)
  unfolding start_stream publish_event started
  lookup-start_stream e c named missing =
      let event = record e { revision = 0 } in
      let (kept, seq) = persist_event persist blank event c in
      (
        started e seq,
        ground (
          arith,
          missing,
          named,
          Dict.lookup-insert e.stream_id e.stream_id (started e seq) kept.streams,
        ),
      )

  lookup-ensure_stream :
      (e : Event R) (c : Collector R)
      → e.stream_id ≢ ""
      → (s : Stream) × (Dict.lookup e.stream_id (ensure_stream persist blank e c).streams ≡ some s)
  unfolding ensure_stream
  lookup-ensure_stream e c named = elim (Option-cases (Dict.lookup e.stream_id c.streams)) [
    | inl f ↦
        rw (f, ensure_stream)
          (lookup-start_stream (record e { phase = start; text = ""; revision = 0 }) c named f)
    | inr (s, f) ↦ (s, ground (arith, f))
  ]

  push_delta_returns :
      (e : Event R) (c : Collector R)
      → e.stream_id ≢ ""
      → (out : Collector R) × (push_delta persist blank e c ≡ some out)
  unfolding push_delta
  push_delta_returns e c named =
      let (s, f) = lookup-ensure_stream e c named in
      elim (Option-cases (push_delta persist blank e c)) [
        | inl bad ↦ absurd (ground (arith, f, bad))
        | inr found ↦ found
      ]

  by_phase_returns :
      (p : Phase) (e : Event R) (c : Collector R)
      → e.phase ≡ p
      → (e.stream_id ≢ "") ⊎ (p ≢ delta)
      → (out : Collector R) × (by_phase persist blank e c ≡ some out)
  by_phase_returns p e c f given = elim (Option-cases (by_phase persist blank e c)) [
    | inl bad ↦ elim (Bool-cases (e.stream_id == "")) [
      | inl t ↦ absurd (ground (arith, f, given, bad))
      | inr t ↦ absurd (ground (arith, f, given, bad, push_delta_returns e (c) (ground arith)))
    ]
    | inr found ↦ found
  ]

  -- `Push` returns for every event that names its stream and for every event that is no piece of a text,
  -- whatever the collector has seen: only a piece without a stream can panic.
  pub push_returns :
      (e : Event R) (c : Collector R)
      → (e.stream_id ≢ "") ⊎ (e.phase ≢ delta)
      → (out : Collector R) × (push persist blank e c ≡ some out)
  unfolding push
  push_returns e c given = elim (Bool-cases c.closed) [
    | inl t ↦ (c, ground (arith, t))
    | inr t ↦
        let (out, f) = by_phase_returns e.phase e (note_context persist blank e c) refl given in
        (out, ground (arith, t, f))
  ]
