-- ===== src/Examples/Collector.antt =====
-- The theorem about the collector on a piece of text that one timer has sent.
use Prim.Native.String
use mathlib.Core.Option
use onecatch.Base.{
  inl, ℕ, String, true, false, ◌≡◌, ◌≢◌, Option, none, some, List, [], ◌∷◌, if◌then◌else◌,
  String_discrete, ne_of_test, refl,
}
use onecatch.Base.Dict
use onecatch.Desktop.RunStream.{delta}
use onecatch.Collector.{
  Event, Stream, Collector, blank_stream, new_collector, ensure_stream, start_stream, persist_event,
  publish_event, flush_live_one, flush_live, sort_texts,
}
use onecatch.Collector.Push.{push, push_delta, note_context, live_fires}
use onecatch.Collector.Logs.{replay, events}
use onecatch.Collector.Returns.{push_returns}
use onecatch.Collector.Agreement.{done, next, pushes, fires_live, window_and_storage_agree}

-- A storage that numbers its events from 1.
abbrev stored : List (Event ℕ) → Event ℕ → Option ℕ
stored [] e = some 1
stored (x ∷ xs) e = some 2

abbrev piece : Event ℕ
piece = record {
  kind = "message";
  stream_id = "m";
  phase = delta;
  revision = 0;
  text = "Hel";
  raw = "";
  failed = false;
  context = none;
  at = 5;
  rest = 0;
}

abbrev fresh : Collector ℕ
fresh = new_collector stored 0 true 0

abbrev pushed : Collector ℕ
pushed = Option.get_or (push stored 0 piece fresh) fresh

abbrev sent : Collector ℕ
sent = live_fires stored 0 pushed

abbrev message : String
message = "m"

abbrev stream : Stream
stream = Option.get_or (Dict.lookup message sent.streams) blank_stream

message_named : message ≢ ""
unfolding String_discrete
message_named = ne_of_test message "" refl

pushed-piece : push stored 0 piece fresh ≡ some pushed
unfolding new_collector push note_context push_delta ensure_stream start_stream persist_event
    publish_event Dict.lookup Dict.insert String_discrete
pushed-piece = refl

window_and_storage_agree_example :
    (replay message (events sent.published) ≡ stream.full)
    × (String.◌++◌
          (replay message sent.persisted)
          (if stream.ended then "" else stream.disk_pending)
        ≡ String.◌++◌
            (replay message (events sent.published))
            (if stream.ended then "" else stream.live_pending))
unfolding new_collector push note_context push_delta ensure_stream start_stream persist_event
    publish_event Dict.lookup Dict.insert String_discrete live_fires flush_live flush_live_one
    sort_texts
window_and_storage_agree_example =
    window_and_storage_agree stored 0 0 sent message stream
      (next (pushes fresh pushed piece pushed-piece) (next (fires_live pushed) (done sent))) refl
      message_named refl

push_returns_example : (out : Collector ℕ) × (push stored 0 piece sent ≡ some out)
push_returns_example = push_returns stored 0 piece sent (inl message_named)
