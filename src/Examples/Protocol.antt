-- ===== src/Examples/Protocol.antt =====
-- The theorems about verdicts in replies and about the stored runs.
use onecatch.Base.{
  String, Bool, true, false, [], ◌∷◌, none, some, ◌==◌, ◌≡◌, ◌≢◌, if◌then◌else◌, refl,
  String_discrete, trim_space, trim_left, trim_right, is_space, has_prefix,
}
use onecatch.Base.Dict
use onecatch.Base.Dict.{Dict}
use onecatch.Workflow.Model.{Outcome, RunStatus, running, Run, verdict_pass}
use onecatch.Workflow.Graph.{find_step}
use onecatch.Workflow.Normalize.{normalize, normalize_step}
use onecatch.Workflow.State.{ok, node_at}
use onecatch.Workflow.Verdict.{apply_outcome, check_outcome}
use onecatch.Workflow.Protocol.{
  Json, finished, parsed, parse_outcome, split_outcome_json, strip_suffix, is_whole, is_finished,
  terminal_json_object, outcome_fence_open, last_fence, next_fence, opened_by, run_of, split_lines,
}
use onecatch.Workflow.Protocol.Accepted.{IsComplete, ComesFrom, accepted_is_complete}
use onecatch.Workflow.Protocol.Prose.{
  Writes, IsPlain, IsProse, braced, follow, parse_outcome_after_prose,
}
use onecatch.Scheduler.Results.{stored}
use onecatch.Scheduler.Answers.{
  Words, answers, direct_agent_definition, parsed_answer, agent_outcome, agent_outcome_is_applied,
}
use onecatch.RunStore.{
  Disk, Update, stored as stored_as, failed, update_run, current_run, replace_current, replace_run,
  write_run, validate_run_for_storage, lacks_text, nodes_error, node_error,
}
use onecatch.RunStore.Writes.{Written, update_run-Written, second_write_is_refused}
use onecatch.Examples.{step, sample, run_with}

abbrev passes : Outcome
passes = record { verdict = verdict_pass; summary = "all tests pass"; feedback = ""; target = "" }

abbrev tail : String
tail = "\"verdict\": \"pass\", \"summary\": \"all tests pass\"}"

-- A decoder that knows one object.
abbrev json : Json
json = record {
  outcome = λ s. if s == braced tail then some (passes, "") else none;
  object = λ s. if s == braced tail then some "" else none;
  rest = λ s. finished;
}

passes-Writes : Writes json tail passes
unfolding is_whole is_finished terminal_json_object trim_space trim_left trim_right is_space
    String_discrete
passes-Writes = record {
  rest = "";
  reads = refl;
  alone = refl;
  whole = refl;
  last = refl;
  trimmed = refl;
}

passes-IsPlain : IsPlain passes
unfolding trim_space trim_left trim_right is_space String_discrete
passes-IsPlain = record {
  complete = record { verdict = refl; summary = refl; feedback = refl };
  verdict = refl;
  target = refl;
}

abbrev prose : String
prose = "I ran the tests.\n"

prose-IsProse : IsProse prose (braced tail)
unfolding trim_space trim_left trim_right is_space has_prefix strip_suffix outcome_fence_open
    last_fence next_fence opened_by run_of split_lines String_discrete
prose-IsProse = record { trimmed = refl; no_brace = refl; no_fence = refl; closed = refl }

abbrev reply : String
reply = follow prose (braced tail)

reads_reply : parse_outcome json reply ≡ parsed passes
reads_reply =
    parse_outcome_after_prose json prose tail passes passes-Writes passes-IsPlain prose-IsProse

parse_outcome_after_prose_example : parse_outcome json reply ≡ parsed passes
parse_outcome_after_prose_example =
    parse_outcome_after_prose json prose tail passes passes-Writes passes-IsPlain prose-IsProse

accepted_is_complete_example :
    IsComplete passes × ComesFrom json (split_outcome_json json (trim_space reply)) passes
accepted_is_complete_example = accepted_is_complete json reply passes reads_reply

abbrev words : Words
words = record { protocol = λ e. "refused"; engine = λ e. "refused" }

abbrev live : Run
live = run_with RunStatus.running running

answers_passes : agent_outcome json words sample (step "review") reply ≡ answers passes
unfolding agent_outcome direct_agent_definition parsed_answer check_outcome String_discrete
answers_passes = rw reads_reply refl

agent_outcome_is_applied_example :
    (out : Run) × (apply_outcome sample live "review" (stored passes) 9 ≡ ok out)
unfolding normalize normalize_step find_step String_discrete
agent_outcome_is_applied_example =
    agent_outcome_is_applied json words sample (step "review") reply live 9 passes answers_passes
      refl refl

abbrev disk : Disk
disk = record { ended = false; valid_id = λ id. true; readable = true; writable = true }

abbrev kept : Dict Run
kept = ("run", live) ∷ []

-- The run and the store after a write; of a refusal, what was there.
abbrev written : Update → Run × Dict Run
written (stored_as run after) = (run, after)
written (failed e) = (live, kept)

abbrev is_written : Update → Bool
is_written (stored_as run after) = true
is_written (failed e) = false

was_written : (u : Update) → is_written u ≡ true → u ≡ stored_as (written u).0 (written u).1
was_written (stored_as run after) h = refl
was_written (failed e) h = cc

abbrev first_write : Update
first_write = update_run disk kept live 4

first_is_written : is_written first_write ≡ true
unfolding update_run current_run replace_current replace_run write_run validate_run_for_storage
    lacks_text nodes_error node_error node_at trim_space trim_left trim_right is_space Dict.lookup
    Dict.insert String_discrete
first_is_written = refl

abbrev after : Dict Run
after = (written first_write).1

update_run-Written_example : Written kept live 4 (written first_write).0 after
update_run-Written_example =
    update_run-Written disk kept after live (written first_write).0 4
      (was_written first_write first_is_written)

second_write_is_refused_example : update_run disk after live 4 ≢ stored_as live after
second_write_is_refused_example =
    second_write_is_refused disk disk kept after after live live (written first_write).0 live 4
      (was_written first_write first_is_written) refl
