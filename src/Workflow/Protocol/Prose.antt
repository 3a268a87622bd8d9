-- ===== src/Workflow/Protocol/Prose.antt =====
-- Outcomes at the end of a reply, behind prose.
use Prim.Native.Char.{Char}
use Prim.Native.String.{[] as nil_text, ◌∷◌ as ◌:::◌}
use onecatch.Base.{
  ◌+◌, ◌-◌, String, true, false, none, some, ◌==◌, ◌≡◌, refl, inl, inr, arith, Bool-cases,
  trim_space, trim_left, trim_right, has_prefix, first_chars, text_length, ap, ==_iff, ==_refl,
}
use onecatch.Workflow.Model.{Outcome}
use onecatch.Workflow.Protocol.{
  finished, Json, OutcomeMessage, parsed, outcome_of, checked, alone, decoded, decode_parts,
  strip_suffix, is_whole, terminal_json_object, terminal_json, fenced_json, outcome_fence_open,
  split_outcome_json, parse_outcome_message, parse_outcome,
}
use onecatch.Workflow.Protocol.Accepted.{IsComplete}

-- One text behind another.
abbrev pub follow : String → String → String
follow nil_text after = after
follow (c ::: before) after = c ::: follow before after

abbrev pub braced : String → String
braced tail = follow "{" tail

-- The decoder reads `{` and `tail` as the outcome, up to the end, and no object that starts later.
pub record Writes (json : Json) (tail : String) (o : Outcome) : Type 0 where
  pub rest : String
  pub reads : json.outcome (braced tail) ≡ some (o, rest)
  pub alone : json.rest rest ≡ finished
  pub whole : is_whole json (braced tail) ≡ true
  pub last : terminal_json_object json tail ≡ ""
  pub trimmed : trim_space (braced tail) ≡ braced tail

-- An outcome that the parser has nothing to complete in.
pub record IsPlain (o : Outcome) : Type 0 where
  pub complete : IsComplete o
  pub verdict : trim_space o.verdict ≡ o.verdict
  pub target : trim_space o.target ≡ o.target

-- Prose that can stand before the object: with the object it is a trimmed text that neither starts with
-- a brace nor ends with a fence, and it leaves no fence open.
pub record IsProse (prose raw : String) : Type 0 where
  pub trimmed : trim_space (follow prose raw) ≡ follow prose raw
  pub no_brace : has_prefix "{" prose ≡ false
  pub no_fence : strip_suffix "\n```" (follow prose raw) ≡ none
  pub closed : outcome_fence_open (trim_space prose) ≡ false

length-follow : (p s : String) → text_length (follow p s) ≡ text_length p + text_length s
unfolding text_length
length-follow nil_text s = omega arith
length-follow (c ::: p) s = omega (arith, length-follow p s)

first_chars-follow : (p s : String) → first_chars (text_length p) (follow p s) ≡ p
unfolding first_chars text_length
first_chars-follow nil_text s = refl
first_chars-follow (c ::: p) s = rw (first_chars-follow p s) refl

trim_empty : trim_space "" ≡ ""
unfolding trim_space trim_left trim_right
trim_empty = refl

module _ (json : Json) (tail : String) (o : Outcome) (w : Writes json tail o) where
  abbrev raw : String
  raw = braced tail

  not_empty : (raw == "") ≡ false
  unfolding text_length
  not_empty = elim (Bool-cases (raw == "")) [
    | inr n ↦ n
    | inl h ↦ absurd (omega (arith, ap text_length ((==_iff raw "").0 h)))
  ]

  terminal_here : terminal_json_object json raw ≡ raw
  unfolding terminal_json_object
  terminal_here = rw (w.last, w.trimmed, w.whole, ==_refl "") refl

  terminal_after : (prose : String) → terminal_json_object json (follow prose raw) ≡ raw
  unfolding terminal_json_object
  terminal_after nil_text = terminal_here
  terminal_after (c ::: prose) = rw (terminal_after prose, not_empty) refl

  -- The outcome is complete as it is.
  checked-IsPlain :
      (message : OutcomeMessage)
      → message.outcome ≡ o
      → IsPlain o
      → outcome_of (checked message) ≡ parsed o
  unfolding checked
  checked-IsPlain message same plain =
      let c = plain.complete in
      rw (same, plain.verdict, plain.target, c.verdict, c.summary, c.feedback) (rw c.summary refl)

  module _ (prose : String) (p : IsProse prose raw) where
    text_not_empty : (follow prose raw == "") ≡ false
    unfolding text_length
    text_not_empty = elim (Bool-cases (follow prose raw == "")) [
      | inr n ↦ n
      | inl h ↦ absurd (
          omega
            (arith, ap text_length ((==_iff (follow prose raw) "").0 h), length-follow prose raw))
    ]

    no_fenced_json : fenced_json (follow prose raw) ≡ none
    unfolding fenced_json
    no_fenced_json = rw (p.no_fence, fenced_json) refl

    prose_cut :
        first_chars (text_length (follow prose raw) - text_length raw) (follow prose raw) ≡ prose
    prose_cut =
        let size : text_length (follow prose raw) - text_length raw ≡ text_length prose =
          omega (arith, length-follow prose raw) in
        rw (size, first_chars-follow prose raw) refl

    terminal_prose : terminal_json json (follow prose raw) ≡ (trim_space prose, raw)
    unfolding terminal_json
    terminal_prose = rw (terminal_after prose, prose_cut, not_empty, p.closed) refl

  braced_first :
      (c : Char) (prose : String)
      → has_prefix "{" (c ::: follow prose raw) ≡ has_prefix "{" (c ::: prose)
  unfolding has_prefix
  braced_first c prose = refl

  braced_prefix : has_prefix "{" raw ≡ true
  unfolding has_prefix
  braced_prefix = refl

  split_prose :
      (prose : String)
      → IsProse prose raw
      → split_outcome_json json (follow prose raw) ≡ parsed (trim_space prose, raw)
  unfolding split_outcome_json
  split_prose nil_text p = rw (trim_empty, not_empty, braced_prefix) refl
  split_prose (c ::: prose) p =
      rw
        (
          text_not_empty (c ::: prose) p,
          braced_first c prose,
          p.no_brace,
          no_fenced_json (c ::: prose) p,
          terminal_prose (c ::: prose) p,
        )
        refl

  decoded_plain :
      (prose : String) → IsPlain o → outcome_of (decode_parts json (parsed (prose, raw))) ≡ parsed o
  unfolding decode_parts decoded alone
  decoded_plain prose plain =
      rw (w.reads, w.alone)
        (checked-IsPlain (record { outcome = o; prose = prose; json = raw }) refl plain)

-- A reply that ends in an outcome with nothing to complete or trim, written as a JSON object that the
-- decoder reads back as a whole, and no object that starts later, is parsed to that outcome, when the
-- prose before the object does not start with a brace and leaves no fence open, and the reply is a
-- trimmed text that does not end with a fence.
pub parse_outcome_after_prose :
    (json : Json) (prose tail : String) (o : Outcome)
    → Writes json tail o
    → IsPlain o
    → IsProse prose (braced tail)
    → parse_outcome json (follow prose (braced tail)) ≡ parsed o
unfolding parse_outcome parse_outcome_message
parse_outcome_after_prose json prose tail o w plain p =
    rw (p.trimmed, split_prose json tail o w prose p)
      (decoded_plain json tail o w (trim_space prose) plain)
