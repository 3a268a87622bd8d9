-- ===== src/Examples/Desktop.antt =====
-- The theorems about the desktop's hubs on short histories of them.
use onecatch.Base.{
  bit, ℕ, ◌+◌, ◌≤◌, String, true, false, ◌||◌, ◌≡◌, ◌≢◌, some, List, [], ◌∷◌, ◌++◌, contains,
  Unique, String_discrete, ne_of_test, refl, arith,
}
use onecatch.Base.Dict
use onecatch.Desktop.RunState
use onecatch.Desktop.RunState.{Step, Steps, marks, fires, closes, done, next}
use onecatch.Desktop.RunState.Traces.{
  marks_are_awaited, marks_are_kept, close_is_quiet, views_of, occurs,
}
use onecatch.Desktop.ListChange
use onecatch.Desktop.ListChange.Traces.{closed_hub_emits_no_more}
use onecatch.Desktop.RunStream.{
  start, delta, Frame, Key, key_of, Hub, new_hub, publish, streams_of, lookup, insert, same_key,
  advance, is_news,
}
use onecatch.Desktop.RunStream.Streams.{current, result, publish_all, joined, publish_all-joined}

abbrev fresh : RunState.Hub ℕ
fresh = RunState.new_hub

abbrev marked : RunState.Hub ℕ
marked = RunState.mark_dirty "run" fresh

marked_history : Steps fresh marked
marked_history = next (marks fresh "run") (done marked)

marked_open : marked.stopped ≡ false
unfolding RunState.new_hub RunState.mark_dirty String_discrete
marked_open = refl

marked_dirty : marked.dirty ≢ []
unfolding RunState.new_hub RunState.mark_dirty String_discrete
marked_dirty e = cc

marks_are_awaited_example : (bit marked.armed + marked.waiting ≡ 1) × Unique marked.dirty
marks_are_awaited_example = marks_are_awaited marked marked_history marked_open marked_dirty

abbrev installed : RunState.Hub ℕ
installed = RunState.set_emitter (RunState.set_resolver fresh)

abbrev once : RunState.Hub ℕ
once = RunState.mark_dirty "run" installed

abbrev twice : RunState.Hub ℕ
twice = RunState.mark_dirty "other" once

abbrev run : String
run = "run"

run_named : run ≢ ""
unfolding String_discrete
run_named = ne_of_test run "" refl

marks_are_kept_example :
    (new : List String) × (twice.resolved ≡ new ++ installed.resolved)
    × ((contains new "run" || (contains twice.dirty "run" || contains twice.sending "run")) ≡ true)
unfolding RunState.new_hub RunState.set_emitter RunState.set_resolver RunState.mark_dirty
    String_discrete
marks_are_kept_example =
    marks_are_kept installed twice "run" run_named refl refl refl
      (next (marks once "other") (done twice)) refl

abbrev closed : RunState.Hub ℕ
closed = RunState.close once

close_is_quiet_example :
    ((RunState.mark_dirty "run" closed).stopped ≡ true)
    × (new : List (String × ℕ)) × ((RunState.mark_dirty "run" closed).emitted ≡ new ++ once.emitted)
    × ((id : String)
        → views_of id new + occurs id (RunState.mark_dirty "run" closed).sending
          ≤ occurs id once.sending)
close_is_quiet_example =
    close_is_quiet once (RunState.mark_dirty "run" closed)
      (next (marks closed "run") (done (RunState.mark_dirty "run" closed)))

abbrev lists : ListChange.Hub
lists = ListChange.mark_dirty ListChange.new_hub

abbrev shut : ListChange.Hub
shut = ListChange.close lists

closed_hub_emits_no_more_example :
    ((ListChange.mark_dirty shut).stopped ≡ true)
    × ((ListChange.mark_dirty shut).emitted + (ListChange.mark_dirty shut).sending
        ≡ lists.emitted + lists.sending)
    × (bit (ListChange.mark_dirty shut).armed + (ListChange.mark_dirty shut).waiting
        ≤ bit lists.armed + lists.waiting)
closed_hub_emits_no_more_example =
    closed_hub_emits_no_more lists (ListChange.mark_dirty shut)
      (ListChange.next (ListChange.marks shut) (ListChange.done (ListChange.mark_dirty shut)))

abbrev opening : Frame ℕ
opening = record {
  run_id = "run";
  step_run_id = "step";
  seq = 1;
  kind = "message";
  stream_id = "m";
  phase = start;
  revision = 1;
  text = "";
  at = 5;
  rest = 0;
}

abbrev piece : ℕ → String → Frame ℕ
piece n text = record opening { phase = delta; revision = n; text = text }

abbrev key : Key
key = key_of opening

abbrev begun : Hub ℕ
begun = result opening new_hub

key_named : key.stream_id ≢ ""
unfolding String_discrete
key_named = ne_of_test key.stream_id "" refl

begun-current : current "run" key begun ≡ some opening
unfolding publish new_hub streams_of lookup insert same_key advance is_news Dict.lookup Dict.insert
    String_discrete
begun-current = refl

publish_all-joined_example :
    (out : Frame ℕ) × (current "run" key (publish_all (piece 2 "Hel" ∷ piece 4 "lo" ∷ []) begun)
      ≡ some out)
    × (out.text ≡ joined opening.text (piece 2 "Hel" ∷ piece 4 "lo" ∷ []))
publish_all-joined_example =
    publish_all-joined (piece 2 "Hel" ∷ piece 4 "lo" ∷ []) opening begun "run" key run_named
      key_named begun-current (refl, refl, refl, omega arith, (refl, refl, refl, omega arith, tt))
