-- ===== src/Collector/Logs.antt =====
-- What the window and the storage are told of each stream agree.
use Prim.Native.String
use onecatch.Base.{
  ℕ, suc, String, true, false, Option, none, some, List, [], ◌∷◌, ◌==◌, ◌||◌, if◌then◌else◌, ◌≡◌,
  ◌≢◌, ◌⊎◌, inl, inr, Bool-cases, Option-cases, refl, ap, arith, map,
}
use text.Mathlib.TextLemmas.{append-nil}
use onecatch.Base.Dict
use onecatch.Desktop.RunStream.{atomic, start, delta, snapshot, end}
use onecatch.Collector.{
  Event, Stream, Collector, blank_stream, persist_event, publish_event, set_stream, start_stream,
  ensure_stream, both, is_open, piece, flush_live_one, flush_durable_one,
}

-- The text that a reader of a log, the last event first, has for a stream.
abbrev pub replay : {R : Type 0} → String → List (Event R) → String
replay id [] = ""
replay id (e ∷ earlier) =
    let text = replay id earlier in
    if e.stream_id == id
    then elim e.phase [
      | start ↦ ""
      | delta ↦ String.◌++◌ text e.text
      | snapshot ↦ e.text
      | end ↦ e.text
      | atomic ↦ text
    ]
    else text

abbrev pub events : {R : Type 0} → List (ℕ × Event R) → List (Event R)
events = map (λ (seq, e). e)

module _ {R : Type 0} (persist : List (Event R) → Event R → Option ℕ) (blank : R) where
  -- What the logs say of one stream, given what the collector holds of it.
  abbrev pub Agrees : String → String → Option Stream → Type 0
  Agrees shown stored none = (shown ≡ "") × (stored ≡ "")
  Agrees shown stored (some s) =
      (shown ≡ s.full)
      × (s.ended ≡ true → stored ≡ s.full)
      × (s.ended ≡ false → String.◌++◌ stored s.disk_pending ≡ String.◌++◌ s.full s.live_pending)

  abbrev pub Agree : Collector R → Type 0
  Agree c =
      (id : String)
      → id ≢ ""
      → Agrees (replay id (events c.published)) (replay id c.persisted) (Dict.lookup id c.streams)

  -- Unless the storage had an error, the logs agree with each named stream.
  abbrev pub Consistent : Collector R → Type 0
  Consistent c = (c.error ≡ true) ⊎ (c.error ≡ false) × (c.publisher ≡ true) × Agree c

  persist_event-cases :
      (e : Event R) (c : Collector R)
      → ((persist_event persist blank e c).0.error ≡ true)
        ⊎ (c.error ≡ false)
          × ((persist_event persist blank e c).0 ≡ record c { persisted = e ∷ c.persisted })
  unfolding persist_event
  persist_event-cases e c = elim (Bool-cases c.error) [
    | inl h ↦ inl (rw h refl)
    | inr h ↦ elim (Option-cases (persist c.persisted e)) [
      | inl f ↦ inl (rw (h, f) refl)
      | inr (seq, f) ↦ inr (h, ground (arith, h, f))
    ]
  ]

  -- An event of a stream is persisted and published, and the stream changes with it.
  pub emit-Consistent :
      (e : Event R) (number : ℕ) (s : Stream) (c : Collector R)
      → (Agree c
          → Agrees
              (replay e.stream_id (e ∷ events c.published))
              (replay e.stream_id (e ∷ c.persisted))
              (some s))
      → Consistent c
      → Consistent (
          publish_event persist blank number e
            (set_stream persist blank e.stream_id s (persist_event persist blank e c).0))
  unfolding publish_event
  emit-Consistent e number s c told k = elim (persist_event-cases e c) [
    | inl bad ↦ inl (ground (arith, bad))
    | inr (ok, same) ↦ elim k [
      | inl bad ↦ absurd (cc (ok, bad))
      | inr (_, has, agree) ↦ rw same (
          inr (
            ground arith,
            ground arith,
            λ id named.
                ground (
                  arith,
                  agree id named,
                  told agree,
                  Dict.lookup-insert e.stream_id id s c.streams,
                ),
          ))
    ]
  ]

  -- An event that belongs to no stream, or adds nothing to one.
  pub both-Consistent :
      (e : Event R) (c : Collector R)
      → (e.stream_id ≡ "") ⊎ (e.phase ≡ atomic)
      → Consistent c
      → Consistent (both persist blank e c)
  unfolding publish_event
  both-Consistent e c outside k = elim (persist_event-cases e c) [
    | inl bad ↦ inl (ground (arith, bad))
    | inr (ok, same) ↦ elim k [
      | inl bad ↦ absurd (cc (ok, bad))
      | inr (_, has, agree) ↦
          rw same
            (inr (ground arith, ground arith, λ id named. ground (arith, agree id named, outside)))
    ]
  ]

  replay-start :
      (e : Event R) (log : List (Event R)) → e.phase ≡ start → replay e.stream_id (e ∷ log) ≡ ""
  replay-start e log p = ground (arith, p)

  pub start_stream-Consistent :
      (e : Event R) (c : Collector R)
      → e.phase ≡ start
      → Consistent c
      → Consistent (start_stream persist blank e c)
  unfolding start_stream
  start_stream-Consistent e c p k =
      elim (Bool-cases
        ((e.stream_id == "") || is_open persist blank (Dict.lookup e.stream_id c.streams))) [
          | inl same ↦ ground (arith, same)
          | inr new ↦
              let event = record e { revision = 0 } in
              let told =
                emit-Consistent event (persist_event persist blank event c).1
                  (record blank_stream {
                    kind = e.kind;
                    seq = (persist_event persist blank event c).1;
                    last_at = e.at;
                    last_raw = e.raw;
                    failed = e.failed;
                  })
                  c
                  (λ agree.
                    let empty : (log : List (Event R)) → replay event.stream_id (event ∷ log) ≡ "" =
                      λ log. replay-start event log p in
                    (
                      empty (events c.published),
                      λ _. empty c.persisted,
                      λ _. ap (λ text. String.◌++◌ text "") (empty c.persisted),
                    ))
                  k in
              ground (arith, new)
        ]

  pub ensure_stream-Consistent :
      (e : Event R) (c : Collector R) → Consistent c → Consistent (ensure_stream persist blank e c)
  unfolding ensure_stream
  ensure_stream-Consistent e c k = elim (Option-cases (Dict.lookup e.stream_id c.streams)) [
    | inl f ↦
        rw (f, ensure_stream)
          (start_stream-Consistent (record e { phase = start; text = ""; revision = 0 }) c refl k)
    | inr (s, f) ↦ rw (f, ensure_stream) k
  ]

  -- The window gets the text that was held back for it.
  sent : Stream → Stream
  sent s = record s {
    revision = suc s.revision;
    live_pending = "";
    full = String.◌++◌ s.full s.live_pending;
  }

  pub flush_live_one-Consistent :
      (id : String) (c : Collector R)
      → Consistent c
      → Consistent (flush_live_one persist blank id c)
  unfolding flush_live_one publish_event sent
  flush_live_one-Consistent id c k = elim (Option-cases (Dict.lookup id c.streams)) [
    | inl f ↦ rw (f, flush_live_one) k
    | inr (s, f) ↦ elim (Bool-cases (s.ended || (s.live_pending == ""))) [
      | inl t ↦ rw (f, flush_live_one, t) k
      | inr t ↦
          rw (f, flush_live_one, t)
            (elim k [
              | inl bad ↦ inl (ground (arith, bad))
              | inr (ok, has, agree) ↦ inr (
                ground (arith, ok),
                ground (arith, has),
                λ other o. ground (
                  arith,
                  agree other o,
                  f,
                  has,
                  t,
                  Dict.lookup-insert id other (sent s) c.streams,
                  append-nil (String.◌++◌ s.full s.live_pending),
                ),
              )
            ])
    ]
  ]

  -- The storage gets the text that was held back for it.
  pub flush_durable_one-Consistent :
      (id : String) (c : Collector R)
      → Consistent c
      → Consistent (flush_durable_one persist blank id c)
  unfolding flush_durable_one
  flush_durable_one-Consistent id c k = elim (Option-cases (Dict.lookup id c.streams)) [
    | inl f ↦ rw (f, flush_durable_one) k
    | inr (s, f) ↦ elim (Bool-cases (s.ended || (s.disk_pending == ""))) [
      | inl t ↦ rw (f, flush_durable_one, t) k
      | inr t ↦
          rw (f, flush_durable_one, t)
            (let stored = record s { disk_pending = "" } in
              elim (persist_event-cases (piece persist blank id s s.revision s.disk_pending)
                (set_stream persist blank id stored c)) [
                  | inl bad ↦ inl bad
                  | inr (ok, same) ↦ elim k [
                    | inl bad ↦ absurd (cc (ok, bad))
                    | inr (_, has, agree) ↦ rw same (
                        inr (
                          ok,
                          has,
                          λ other o. ground (
                            arith,
                            agree other o,
                            f,
                            t,
                            Dict.lookup-insert id other stored c.streams,
                            append-nil (String.◌++◌ (replay id c.persisted) s.disk_pending),
                          ),
                        ))
                  ]
                ])
    ]
  ]
