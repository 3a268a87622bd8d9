-- ===== src/Collector.antt =====
-- internal/usecase/workflows/runtime_stream.go: the events of a running step are persisted and published;
-- pieces of a growing text are held back and sent together by two timers. The logs of what was persisted
-- and published, the last first, are kept beside the collector's fields.
pub mod Push
pub mod Logs
pub mod Pushes
pub mod Returns
pub mod Agreement
use Prim.Native.Nat.{Ordering}
use Prim.Native.String
use Prim.Native.String.{compare}
use onecatch.Base.{
  ℕ, suc, ◌+◌, ◌*◌, String, Bool, true, false, not, ◌&&◌, ◌||◌, Option, none, some, List, [], ◌∷◌,
  map, ◌==◌, if◌then◌else◌, ltb, leb, eqb, show_nat,
}
use mathlib.Core.Option
use onecatch.Base.Dict
use onecatch.Base.Dict.{Dict}
use onecatch.Desktop.RunStream.{Phase, atomic, start, delta, snapshot, end}

pub record ContextUsage : Type 0 where
  pub tokens : ℕ
  pub window : ℕ

-- `rest` stands for the fields of an event that the collector only copies.
pub record Event (R : Type 0) : Type 0 where
  pub kind : String
  pub stream_id : String
  pub phase : Phase
  pub revision : ℕ
  pub text : String
  pub raw : String
  pub failed : Bool
  pub context : Option ContextUsage
  pub at : ℕ
  pub rest : R

-- `runtimeStreamState`
pub record Stream : Type 0 where
  pub kind : String
  pub seq : ℕ
  pub revision : ℕ
  pub full : String
  pub live_pending : String
  pub disk_pending : String
  pub last_at : ℕ
  pub last_raw : String
  pub failed : Bool
  pub ended : Bool

-- `runtimeEventCollector`; a timer is set or not, and `error` is the first error of the storage.
pub record Collector (R : Type 0) : Type 0 where
  pub publisher : Bool
  pub streams : Dict Stream
  pub live_timer : Bool
  pub durable_timer : Bool
  pub closed : Bool
  pub error : Bool
  pub context_tokens : ℕ
  pub persisted : List (Event R)
  pub published : List (ℕ × Event R)

abbrev pub kind_usage : String
kind_usage = "usage"

abbrev pub kind_context_compaction : String
kind_context_compaction = "context_compaction"

unfoldable pub context_was_compacted : ℕ → ℕ → Bool
context_was_compacted before after =
    ltb 0 before && ltb 0 after && leb (after + 4096) before && leb (after * 4) (before * 3)

abbrev pub blank_stream : Stream
blank_stream = record {
  kind = "";
  seq = 0;
  revision = 0;
  full = "";
  live_pending = "";
  disk_pending = "";
  last_at = 0;
  last_raw = "";
  failed = false;
  ended = false;
}

abbrev text_before : String → String → Bool
text_before s t = elim (compare s t) [ Ordering.lt ↦ true | _ ↦ false ]

sorted_in : String → List String → List String
sorted_in s [] = s ∷ []
sorted_in s (t ∷ ts) = if text_before t s then t ∷ sorted_in s ts else s ∷ t ∷ ts

-- `sort.Strings`
unfoldable pub sort_texts : List String → List String
unfolding sorted_in
sort_texts [] = []
sort_texts (s ∷ ss) = sorted_in s (sort_texts ss)

abbrev compaction_text : ℕ → ℕ → ℕ → String
compaction_text before after window = String.◌++◌ "{\"afterTokens\":" (
    String.◌++◌ (show_nat after) (
      String.◌++◌ ",\"beforeTokens\":" (
        String.◌++◌ (show_nat before)
          (String.◌++◌ ",\"contextWindow\":" (String.◌++◌ (show_nat window) "}")))))

-- `persist` is the storage: the number that it gives to the next event, after those that it holds, or
-- none for an error. `blank` is what the other fields of a new event are.
module _ {R : Type 0} (persist : List (Event R) → Event R → Option ℕ) (blank : R) where
  unfoldable pub new_collector : Bool → ℕ → Collector R
  new_collector publisher tokens = record {
    publisher = publisher;
    streams = [];
    live_timer = false;
    durable_timer = false;
    closed = false;
    error = false;
    context_tokens = tokens;
    persisted = [];
    published = [];
  }

  unfoldable pub persist_event : Event R → Collector R → Collector R × ℕ
  persist_event e c = if c.error then (c, 0) else elim (persist c.persisted e) [
    | none ↦ (record c { error = true }, 0)
    | some seq ↦ (record c { persisted = e ∷ c.persisted }, seq)
  ]

  unfoldable pub publish_event : ℕ → Event R → Collector R → Collector R
  publish_event seq e c = if c.publisher then record c { published = (seq, e) ∷ c.published } else c

  abbrev pub set_stream : String → Stream → Collector R → Collector R
  set_stream id s c = record c { streams = Dict.insert id s c.streams }

  abbrev both : Event R → Collector R → Collector R
  both e c = let (kept, seq) = persist_event e c in publish_event seq e kept

  abbrev is_open : Option Stream → Bool
  is_open none = false
  is_open (some s) = not s.ended

  unfoldable pub start_stream : Event R → Collector R → Collector R
  start_stream e c =
      if e.stream_id == ""
      then c
      else if is_open (Dict.lookup e.stream_id c.streams)
      then c
      else let event = record e { revision = 0 } in
        let (kept, seq) = persist_event event c in
        publish_event seq event (
          set_stream e.stream_id
            (record blank_stream {
              kind = e.kind;
              seq = seq;
              last_at = e.at;
              last_raw = e.raw;
              failed = e.failed;
            })
            kept)

  unfoldable pub ensure_stream : Event R → Collector R → Collector R
  ensure_stream e c = elim (Dict.lookup e.stream_id c.streams) [
    | some s ↦ c
    | none ↦ start_stream (record e { phase = start; text = ""; revision = 0 }) c
  ]

  -- What the end of a stream says: a snapshot counts as an end, and what is missing is filled in.
  abbrev pub final_event : Event R → Stream → Event R
  final_event e s = record e {
    revision = suc s.revision;
    text = if e.text == "" then s.full else e.text;
    at = if eqb e.at 0 then s.last_at else e.at;
    phase = elim e.phase [ snapshot ↦ end | p ↦ p ];
  }

  abbrev finish : Event R → Stream → Collector R → Collector R
  finish e s c =
      let event = final_event e s in
      let (kept, seq) = persist_event event c in
      let number = if eqb s.seq 0 then seq else s.seq in
      publish_event number event (
        set_stream e.stream_id
          (record s { seq = number; revision = event.revision; full = event.text; ended = true })
          kept)

  -- The stream is there, since `ensure_stream` makes it when the event names one.
  unfoldable pub end_stream : Event R → Collector R → Collector R
  end_stream e c =
      if e.stream_id == ""
      then both e c
      else let known = ensure_stream e c in
        let s = Option.get_or (Dict.lookup e.stream_id known.streams) blank_stream in
        if s.ended then known else finish e s known

  abbrev pub piece : String → Stream → ℕ → String → Event R
  piece id s revision text = record {
    kind = s.kind;
    stream_id = id;
    phase = delta;
    revision = revision;
    text = text;
    raw = s.last_raw;
    failed = s.failed;
    context = none;
    at = s.last_at;
    rest = blank;
  }

  -- One turn of the loop of `flushLiveLocked`.
  unfoldable pub flush_live_one : String → Collector R → Collector R
  flush_live_one id c = elim (Dict.lookup id c.streams) [
    | none ↦ c
    | some s ↦
        if s.ended || (s.live_pending == "")
        then c
        else publish_event s.seq (piece id s (suc s.revision) s.live_pending) (
            set_stream id
              (record s {
                revision = suc s.revision;
                live_pending = "";
                full = String.◌++◌ s.full s.live_pending;
              })
              c)
  ]

  -- One turn of the loop of `flushDurableLocked`.
  unfoldable pub flush_durable_one : String → Collector R → Collector R
  flush_durable_one id c = elim (Dict.lookup id c.streams) [
    | none ↦ c
    | some s ↦
        if s.ended || (s.disk_pending == "")
        then c
        else (persist_event (piece id s s.revision s.disk_pending)
            (set_stream id (record s { disk_pending = "" }) c)).0
  ]

  abbrev pub each : (String → Collector R → Collector R) → List String → Collector R → Collector R
  each f [] c = c
  each f (id ∷ ids) c = each f ids (f id c)

  abbrev stream_ids : Collector R → List String
  stream_ids c = sort_texts (map (λ (id, s). id) c.streams)

  unfoldable pub flush_live : Collector R → Collector R
  flush_live c = each flush_live_one (stream_ids c) c

  unfoldable pub flush_durable : Collector R → Collector R
  flush_durable c = each flush_durable_one (stream_ids c) c

  unfoldable pub flush_all : Collector R → Collector R
  flush_all c = flush_durable (flush_live (record c { live_timer = false; durable_timer = false }))
