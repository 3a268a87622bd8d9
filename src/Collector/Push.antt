-- ===== src/Collector/Push.antt =====
-- internal/usecase/workflows/runtime_stream.go: what an event, a timer, and the end of the step do.
use Prim.Native.String
use onecatch.Base.{ℕ, String, true, false, ◌&&◌, Option, none, some, List, ◌==◌, if◌then◌else◌, ltb}
use onecatch.Base.Dict
use onecatch.Desktop.RunStream.{atomic, start, delta, snapshot, end}
use onecatch.Collector.{
  ContextUsage, Event, Stream, Collector, kind_usage, kind_context_compaction,
  context_was_compacted, compaction_text, set_stream, start_stream, ensure_stream, end_stream, both,
  each, stream_ids, flush_live, flush_durable, flush_all,
}

module _ {R : Type 0} (persist : List (Event R) → Event R → Option ℕ) (blank : R) where
  -- `scheduleLocked`
  abbrev pub schedule : Collector R → Collector R
  schedule c = record c { live_timer = true; durable_timer = true }

  abbrev pub compaction_event : Event R → ℕ → ContextUsage → Event R
  compaction_event e before usage = record {
    kind = kind_context_compaction;
    stream_id = "";
    phase = atomic;
    revision = 0;
    text = compaction_text before usage.tokens usage.window;
    raw = "";
    failed = false;
    context = none;
    at = e.at;
    rest = blank;
  }

  -- A usage event tells how full the context is.
  unfoldable pub note_usage : Event R → ContextUsage → Collector R → Collector R
  note_usage e usage c =
      let noted =
        if context_was_compacted c.context_tokens usage.tokens
        then both persist blank (compaction_event e c.context_tokens usage)
            (flush_all persist blank c)
        else c in
      record noted { context_tokens = usage.tokens }

  abbrev pub noted_usage : Event R → Collector R → Collector R
  noted_usage e c = elim e.context [
    | none ↦ c
    | some usage ↦ if (e.kind == kind_usage) && ltb 0 usage.tokens then note_usage e usage c else c
  ]

  unfoldable pub note_context : Event R → Collector R → Collector R
  note_context e c =
      noted_usage e
        (if e.kind == kind_context_compaction then record c { context_tokens = 0 } else c)

  abbrev pub held : Event R → Stream → Stream
  held e s = record s {
    live_pending = String.◌++◌ s.live_pending e.text;
    disk_pending = String.◌++◌ s.disk_pending e.text;
    last_at = e.at;
    last_raw = e.raw;
    failed = e.failed;
  }

  -- `case StreamDelta`: none is the panic at a stream that is nil.
  unfoldable pub push_delta : Event R → Collector R → Option (Collector R)
  push_delta e c =
      let known = ensure_stream persist blank e c in
      elim (Dict.lookup e.stream_id known.streams) [
        | none ↦ none
        | some s ↦ some (schedule (set_stream persist blank e.stream_id (held e s) known))
      ]

  abbrev pub by_phase : Event R → Collector R → Option (Collector R)
  by_phase e c = elim e.phase [
    | delta ↦ push_delta e c
    | start ↦ some (start_stream persist blank e (flush_all persist blank c))
    | snapshot ↦ some (end_stream persist blank e (flush_all persist blank c))
    | end ↦ some (end_stream persist blank e (flush_all persist blank c))
    | atomic ↦ some (both persist blank e (flush_all persist blank c))
  ]

  unfoldable pub push : Event R → Collector R → Option (Collector R)
  push e c = if c.closed then some c else by_phase e (note_context e c)

  unfoldable pub live_fires : Collector R → Collector R
  live_fires c =
      let late = record c { live_timer = false } in
      if c.closed then late else flush_live persist blank late

  unfoldable pub durable_fires : Collector R → Collector R
  durable_fires c =
      let late = record c { durable_timer = false } in
      if c.closed then late else flush_durable persist blank (flush_live persist blank late)

  abbrev pub last_event : String → Stream → Event R
  last_event id s = record {
    kind = s.kind;
    stream_id = id;
    phase = end;
    revision = 0;
    text = s.full;
    raw = s.last_raw;
    failed = s.failed;
    context = none;
    at = s.last_at;
    rest = blank;
  }

  unfoldable pub close_one : String → Collector R → Collector R
  close_one id c = elim (Dict.lookup id c.streams) [
    | none ↦ c
    | some s ↦ if s.ended then c else end_stream persist blank (last_event id s) c
  ]

  unfoldable pub close : Collector R → Collector R
  close c =
      if c.closed
      then c
      else let flushed = flush_all persist blank c in
        record (each persist blank (close_one) (stream_ids persist blank flushed) flushed) {
          closed = true;
        }
