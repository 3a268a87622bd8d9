-- ===== src/Workflow/Protocol.antt =====
-- internal/domain/workflows/protocol.go: the verdict at the end of an agent's reply. The JSON decoder
-- of the standard library is a parameter. Positions count characters where the source counts bytes: it
-- cuts only beside ASCII characters.
pub mod Accepted
pub mod Prose
use Prim.Native.Char.{code}
use Prim.Native.String.{[] as nil_text, ◌∷◌ as ◌:::◌}
use Prim.Native.String
use onecatch.Base.{
  ℕ, zero, suc, ◌-◌, String, Bool, true, false, not, ◌&&◌, ◌||◌, List, [], ◌∷◌, Option, none, some,
  eqb, if◌then◌else◌, ◌==◌, trim_space, is_blank, has_prefix, first_chars, text_length,
}
use onecatch.Workflow.Model.{Outcome, verdict_pass, verdict_rework, verdict_ask_human}

-- What the second `Decode` of a decoder finds.
pub data Rest : Type 0 where
  finished another_value broken : Rest

-- The decoder: the first value of a text as an outcome, or as an object, with the text behind it, and
-- what stands there.
pub record Json : Type 0 where
  pub outcome : String → Option (Outcome × String)
  pub object : String → Option String
  pub rest : String → Rest

pub data ProtocolError : Type 0 where
  response_empty decode_failed multiple_values trailing_content : ProtocolError
  verdict_unknown summary_required : ProtocolError

pub record OutcomeMessage : Type 0 where
  pub outcome : Outcome
  pub prose : String
  pub json : String

pub data Parsed {ℓ} (A : Type ℓ) : Type ℓ where
  parsed : A → Parsed A
  refused : ProtocolError → Parsed A

-- `text[:len(text)-len(s)]` where the text ends with `s`.
unfoldable pub strip_suffix : String → String → Option String
strip_suffix s nil_text = if s == "" then some "" else none
strip_suffix s (c ::: text) =
    let rest = strip_suffix s text in
    if s == c ::: text
    then some ""
    else elim rest [ some before ↦ some (c ::: before) | none ↦ none ]

-- The text before the last `s`, and from there on; `strings.LastIndex`.
unfoldable pub split_last : String → String → Option (String × String)
split_last s nil_text = none
split_last s (c ::: text) =
    let rest = split_last s text in
    elim rest [
      | some (before, from) ↦ some (c ::: before, from)
      | none ↦ if has_prefix s (c ::: text) then some ("", c ::: text) else none
    ]

-- `strings.SplitN(text, "\n", 2)`: the first line, and what follows it if anything does.
unfoldable pub first_line : String → String × Option String
first_line nil_text = ("", none)
first_line (c ::: text) =
    let (line, rest) = first_line text in
    if eqb (code c) 10 then ("", some text) else (c ::: line, rest)

-- `strings.Split(text, "\n")`
unfoldable pub split_lines : String → List String
split_lines nil_text = "" ∷ []
split_lines (c ::: text) =
    let rest = split_lines text in
    if eqb (code c) 10
    then "" ∷ rest
    else elim rest [ [] ↦ (c ::: "") ∷ [] | line ∷ lines ↦ (c ::: line) ∷ lines ]

-- The characters at the start that are `m`.
unfoldable pub run_of : ℕ → String → String
run_of m nil_text = ""
run_of m (c ::: text) = let rest = run_of m text in if eqb (code c) m then c ::: rest else ""

-- The fence that a line opens.
unfoldable pub opened_by : String → String
opened_by line =
    if has_prefix "```" line
    then run_of b'`' line
    else if has_prefix "~~~" line
    then run_of b'~' line
    else ""

unfoldable pub next_fence : String → String → String
next_fence fence line =
    if not (fence == "") then (if line == fence then "" else fence) else opened_by line

unfoldable pub last_fence : String → List String → String
last_fence fence [] = fence
last_fence fence (line ∷ lines) = last_fence (next_fence fence (trim_space line)) lines

unfoldable pub outcome_fence_open : String → Bool
outcome_fence_open text = not (last_fence "" (split_lines text) == "")

unfoldable pub is_finished : Rest → Bool
is_finished finished = true
is_finished _ = false

-- The candidate is one object and nothing else.
unfoldable pub is_whole : Json → String → Bool
is_whole json candidate = elim (json.object candidate) [
  | none ↦ false
  | some rest ↦ is_finished (json.rest rest)
]

-- The last `{` from which a whole object reaches the end; "" where there is none.
unfoldable pub terminal_json_object : Json → String → String
terminal_json_object json nil_text = ""
terminal_json_object json (c ::: text) =
    let later = terminal_json_object json text in
    if not (later == "")
    then later
    else if eqb (code c) b'{' && is_whole json (trim_space (c ::: text))
    then trim_space (c ::: text)
    else ""

-- The text before the fence that closes at the end of the reply, and the fence with its content.
unfoldable pub fence_start : String → String → Option (String × String)
fence_start text inner = elim (split_last "\n```" inner) [
  | some (before, newline ::: fenced) ↦ some (String.◌++◌ before "\n", fenced)
  | some (before, nil_text) ↦ none
  | none ↦ if has_prefix "```" text then some ("", inner) else none
]

-- The prose and the content of a fence with the language `json` or with none.
unfoldable pub fence_content : String → String → Option String → Option (String × String)
fence_content before line none = none
fence_content before line (some content) =
    if ((trim_space line == "```json") || (trim_space line == "```"))
      && not (trim_space content == "")
      && not (outcome_fence_open before)
    then some (trim_space before, trim_space content)
    else none

abbrev fence_body : String × String → Option (String × String)
fence_body (before, fenced) =
    let (line, content) = first_line fenced in fence_content before line content

unfoldable pub fenced_json : String → Option (String × String)
fenced_json text = elim (strip_suffix "\n```" text) [
  | none ↦ none
  | some inner ↦ elim (fence_start text inner) [ none ↦ none | some parts ↦ fence_body parts ]
]

-- The object at the end of the reply, if no fence is open before it.
unfoldable pub terminal_json : Json → String → String × String
terminal_json json text =
    let terminal = terminal_json_object json text in
    let prose = trim_space (first_chars (text_length text - text_length terminal) text) in
    if not (terminal == "") && not (outcome_fence_open prose) then (prose, terminal) else ("", text)

unfoldable pub split_outcome_json : Json → String → Parsed (String × String)
split_outcome_json json text =
    if text == ""
    then refused response_empty
    else if has_prefix "{" text
    then parsed ("", text)
    else elim (fenced_json text) [
      | some parts ↦ parsed parts
      | none ↦ parsed (terminal_json json text)
    ]

abbrev pub is_verdict : String → Bool
is_verdict v = (v == verdict_pass) || (v == verdict_rework) || (v == verdict_ask_human)

-- A missing summary is the feedback, and missing feedback for rework is the summary.
abbrev pub summary_of : Outcome → String
summary_of old = if is_blank old.summary then old.feedback else old.summary

abbrev pub feedback_of : Outcome → String
feedback_of old =
    if (trim_space old.verdict == verdict_rework) && is_blank old.feedback
    then summary_of old
    else old.feedback

abbrev pub completed : OutcomeMessage → OutcomeMessage
completed message = record message {
  outcome = record {
    verdict = trim_space message.outcome.verdict;
    target = trim_space message.outcome.target;
    summary = summary_of message.outcome;
    feedback = feedback_of message.outcome;
  };
}

unfoldable pub checked : OutcomeMessage → Parsed OutcomeMessage
checked message =
    if not (is_verdict (trim_space message.outcome.verdict))
    then refused verdict_unknown
    else if is_blank (summary_of message.outcome)
    then refused summary_required
    else parsed (completed message)

-- What follows the first value decides.
unfoldable pub alone : Rest → OutcomeMessage → Parsed OutcomeMessage
alone finished message = checked message
alone another_value message = refused multiple_values
alone broken message = refused trailing_content

unfoldable pub decoded : Json → String → String → Option (Outcome × String) → Parsed OutcomeMessage
decoded json prose raw none = refused decode_failed
decoded json prose raw (some (outcome, rest)) =
    alone (json.rest rest) (record { outcome = outcome; prose = prose; json = raw })

unfoldable pub decode_parts : Json → Parsed (String × String) → Parsed OutcomeMessage
decode_parts json (refused e) = refused e
decode_parts json (parsed (prose, raw)) = decoded json prose raw (json.outcome raw)

unfoldable pub parse_outcome_message : Json → String → Parsed OutcomeMessage
parse_outcome_message json text = decode_parts json (split_outcome_json json (trim_space text))

abbrev pub outcome_of : Parsed OutcomeMessage → Parsed Outcome
outcome_of (refused e) = refused e
outcome_of (parsed message) = parsed message.outcome

-- `ParseOutcome`
unfoldable pub parse_outcome : Json → String → Parsed Outcome
parse_outcome json text = outcome_of (parse_outcome_message json text)
