-- ===== src/Workflow/Protocol/Accepted.antt =====
-- What a reply has to say for `ParseOutcome` to accept it, and what it then means.
use onecatch.Base.{
  String, true, false, ◌&&◌, Option, none, some, ◌==◌, ◌≡◌, refl, inl, inr, arith, Bool-cases,
  trim_space, is_blank, if◌then◌else◌,
}
use onecatch.Workflow.Model.{Outcome, verdict_rework}
use onecatch.Workflow.Protocol.{
  Rest, finished, another_value, broken, Json, OutcomeMessage, Parsed, parsed, refused, outcome_of,
  is_verdict, summary_of, checked, alone, decoded, decode_parts, split_outcome_json,
  parse_outcome_message, parse_outcome,
}

-- An outcome that the engine can act on.
pub record IsComplete (o : Outcome) : Type 0 where
  pub verdict : is_verdict o.verdict ≡ true
  pub summary : is_blank o.summary ≡ false
  pub feedback : ((o.verdict == verdict_rework) && is_blank o.feedback) ≡ false

-- The part of a reply that `split_outcome_json` takes for its JSON is one value, with nothing behind it,
-- that has the verdict and the target of the outcome. Its feedback stands in for a blank summary, and
-- the summary for blank feedback where work is sent back.
pub record ComesFrom (json : Json) (parts : Parsed (String × String)) (o : Outcome) : Type 0 where
  pub prose : String
  pub raw : String
  pub split : parts ≡ parsed (prose, raw)
  pub rest : String
  pub value : Outcome
  pub decodes : json.outcome raw ≡ some (value, rest)
  pub alone : json.rest rest ≡ finished
  pub verdict : o.verdict ≡ trim_space value.verdict
  pub target : o.target ≡ trim_space value.target
  pub said : o.summary ≡ (if is_blank value.summary then value.feedback else value.summary)
  pub asked : o.feedback ≡ (
      if (o.verdict == verdict_rework) && is_blank value.feedback
      then o.summary
      else value.feedback)

abbrev Yields {ℓ κ} : {A : Type ℓ} → (A → Type κ) → Parsed A → Type κ
Yields P (parsed a) = P a
Yields P (refused e) = Unit

abbrev Good : Json → Parsed (String × String) → OutcomeMessage → Type 0
Good json parts m = IsComplete m.outcome × ComesFrom json parts m.outcome

parsed_injective {ℓ} : {A : Type ℓ} {a b : A} → parsed a ≡ parsed b → a ≡ b
parsed_injective h = cc

module _ (json : Json) where
  -- What `checked` makes of a decoded value.
  abbrev Completes : OutcomeMessage → OutcomeMessage → Type 0
  Completes before m =
      IsComplete m.outcome
      × (m.outcome.verdict ≡ trim_space before.outcome.verdict)
      × (m.outcome.target ≡ trim_space before.outcome.target)
      × (m.outcome.summary ≡ (
          if is_blank before.outcome.summary
          then before.outcome.feedback
          else before.outcome.summary))
      × (m.outcome.feedback ≡ (
          if (m.outcome.verdict == verdict_rework) && is_blank before.outcome.feedback
          then m.outcome.summary
          else before.outcome.feedback))

  checked-Completes : (before : OutcomeMessage) → Yields (Completes before) (checked before)
  unfolding checked
  checked-Completes before = elim (Bool-cases (is_verdict (trim_space before.outcome.verdict))) [
    | inr h ↦ rw h tt
    | inl known ↦ elim (Bool-cases (is_blank (summary_of before.outcome))) [
      | inl h ↦ rw (known, h) tt
      | inr said ↦
          rw (known, said)
            (
              record { verdict = known; summary = said; feedback = ground (arith, said) },
              refl,
              refl,
              refl,
              refl,
            )
    ]
  ]

  decoded-Good :
      (prose raw : String) (value : Option (Outcome × String))
      → json.outcome raw ≡ value
      → Yields (Good json (parsed (prose, raw))) (decoded json prose raw value)
  unfolding decoded alone
  decoded-Good prose raw none e = tt
  decoded-Good prose raw (some (outcome, rest)) e =
      after (record { outcome = outcome; prose = prose; json = raw }) raw rest e (json.rest rest)
        refl
    where
      after :
          (before : OutcomeMessage) (raw rest : String)
          → json.outcome raw ≡ some (before.outcome, rest)
          → (r : Rest) → json.rest rest ≡ r
          → Yields (Good json (parsed (prose, raw))) (alone r before)
      after before raw rest e another_value h = tt
      after before raw rest e broken h = tt
      after before raw rest e finished h = from (checked before) (checked-Completes before)
        where
          from :
              (r : Parsed OutcomeMessage)
              → Yields (Completes before) r
              → Yields (Good json (parsed (prose, raw))) r
          from (refused p) y = tt
          from (parsed m) (complete, verdict, target, said, asked) = (
            complete,
            record {
              prose = prose;
              raw = raw;
              split = refl;
              rest = rest;
              value = before.outcome;
              decodes = e;
              alone = h;
              verdict = verdict;
              target = target;
              said = said;
              asked = asked;
            },
          )

  decode_parts-Good :
      (parts : Parsed (String × String)) → Yields (Good json parts) (decode_parts json parts)
  unfolding decode_parts
  decode_parts-Good (refused e) = tt
  decode_parts-Good (parsed (prose, raw)) = decoded-Good prose raw (json.outcome raw) refl

  read :
      (parts : Parsed (String × String)) (r : Parsed OutcomeMessage) (o : Outcome)
      → Yields (Good json parts) r
      → outcome_of r ≡ parsed o
      → IsComplete o × ComesFrom json parts o
  read parts (refused p) o y e = cc
  read parts (parsed m) o y e = let same : m.outcome ≡ o = parsed_injective e in rw (← same) y

  -- The JSON part of an accepted reply is one value with nothing behind it. The outcome has the value's
  -- verdict and target, trimmed, its summary, or its feedback if that is blank, and its feedback, or the
  -- summary if that is blank and work is sent back. So the outcome has a verdict of the engine's, a
  -- summary that is not blank, and feedback that is not blank where work is sent back.
  pub accepted_is_complete :
      (text : String) (o : Outcome)
      → parse_outcome json text ≡ parsed o
      → IsComplete o × ComesFrom json (split_outcome_json json (trim_space text)) o
  unfolding parse_outcome parse_outcome_message
  accepted_is_complete text o e =
      read (split_outcome_json json (trim_space text)) (parse_outcome_message json text) o
        (decode_parts-Good (split_outcome_json json (trim_space text))) e
