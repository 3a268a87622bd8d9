-- ===== src/Workflow/Verdict/Budget.antt =====
-- The rework rounds of a run: they never pass the bound of their edge, and each one uses up a part of
-- a budget that the definition fixes.
use onecatch.Base.{
  ℕ, suc, ◌+◌, ◌-◌, ◌≤◌, ◌<◌, String, true, false, ◌&&◌, List, [], ◌∷◌, ◌==◌, if◌then◌else◌, ◌≡◌,
  refl, sym, ap, ◌⊎◌, inl, inr, arith, Bool-cases, All,
}
use onecatch.Base.Dict
use onecatch.Base.Dict.{Dict}
use onecatch.Base.Int.{pos, pos_part, ◌≤ℤ◌}
use onecatch.Workflow.Model.{
  Edge, Definition, RunStatus, NodeState, Run, Outcome, verdict_pass, verdict_ask_human,
  edge_rework, verdict_rework,
}
use onecatch.Workflow.Graph.{edge_key, step_ids}
use onecatch.Workflow.Normalize.{normalize}
use onecatch.Workflow.State.{ok, Result-cases, ok_injective}
use onecatch.Workflow.Verdict.{
  is_running, apply_outcome, apply_verdict, apply_pass, apply_ask_human, apply_rework,
  rework_exhausted, rework_again, rework_edge, rework_limit, exhausted, rounds_at, opened,
  step_exists,
}
use onecatch.Workflow.Verdict.Edges.{rework_edge-All}
use onecatch.Workflow.Verdict.Apply.{rounds_at-insert, finished, pass_ne}
use onecatch.Workflow.Validation.{validate}
use onecatch.Workflow.Validation.Lists.{EdgeOk}
use onecatch.Workflow.Validation.Spec.{IsValid, validate_iff}

-- Whether a verdict sent work back and left the run running.
abbrev pub sends_back : Outcome → Run → ℕ
sends_back outcome out =
    if (outcome.verdict == verdict_rework) && is_running out.status then 1 else 0

-- The round that a verdict used, if it used one: a verdict either leaves the rounds as they are, or
-- counts one more for an edge that had some left and keeps the run going.
pub data Used (input : Definition) (run out : Run) (step_id : String) (outcome : Outcome)
    : Type 0 where
  unused :
      out.rework_rounds ≡ run.rework_rounds
      → sends_back outcome out ≡ 0
      → Used input run out step_id outcome
  used :
      (edge : Edge)
      → rework_edge (normalize input) step_id outcome.target ≡ ok edge
      → exhausted (normalize input) edge run ≡ false
      → out.status ≡ run.status
      → out.rework_rounds
        ≡ Dict.insert
            (edge_key edge.from edge.to)
            (suc (rounds_at run.rework_rounds (edge_key edge.from edge.to)))
            run.rework_rounds
      → Used input run out step_id outcome

apply_rework-Used :
    (input : Definition) (run : Run) (step_id : String) (outcome : Outcome) (now : ℕ)
    (node : NodeState) {out : Run}
    → apply_rework (normalize input) step_id outcome now node (opened (normalize input) run now)
      ≡ ok out
    → Used input run out step_id outcome
unfolding apply_rework rework_exhausted rework_again
apply_rework-Used input run step_id outcome now node {out} h =
    elim (Result-cases (rework_edge (normalize input) step_id outcome.target)) [
      | inr (e, failed) ↦ cc (rw (failed, apply_rework) at h)
      | inl (edge, chosen) ↦ elim (Bool-cases (exhausted (normalize input) edge run)) [
        | inl used_up ↦
            let e = ok_injective (rw (chosen, used_up, apply_rework) at h) in
            unused (sym (ap (λ r. r.rework_rounds) e))
              (ground (arith, ap (λ (r : Run). r.status) e))
        | inr rounds_left ↦
            let e = ok_injective (rw (chosen, rounds_left, apply_rework) at h) in
            used edge chosen rounds_left (sym (ap (λ r. r.status) e))
              (sym (ap (λ r. r.rework_rounds) e))
      ]
    ]

apply_verdict-Used :
    (input : Definition) (run : Run) (step_id : String) (outcome : Outcome) (now : ℕ)
    (node : NodeState) {out : Run}
    → apply_verdict (normalize input) step_id outcome now node (opened (normalize input) run now)
      ≡ ok out
    → Used input run out step_id outcome
unfolding apply_verdict apply_pass apply_ask_human
apply_verdict-Used input run step_id outcome now node {out} h =
    elim (Bool-cases (outcome.verdict == verdict_pass)) [
      | inl passes ↦
          unused (sym (ap (λ r. r.rework_rounds) (ok_injective (rw (passes, apply_verdict) at h))))
            (ground (arith, passes, pass_ne))
      | inr other ↦ elim (Bool-cases (outcome.verdict == verdict_ask_human)) [
        | inl asks ↦
            unused
              (sym
                (ap (λ r. r.rework_rounds) (ok_injective (rw (other, asks, apply_verdict) at h))))
              (ground (arith, asks, pass_ne))
        | inr third ↦ elim (Bool-cases (outcome.verdict == verdict_rework)) [
          | inl back ↦
              apply_rework-Used input run step_id outcome now node
                (rw (other, third, back, apply_verdict) at h)
          | inr none_of_them ↦ cc (rw (other, third, none_of_them, apply_verdict) at h)
        ]
      ]
    ]

-- An outcome that is accepted was applied to a running run.
apply_outcome-ok :
    (input : Definition) (run : Run) (step_id : String) (outcome : Outcome) (now : ℕ) {out : Run}
    → apply_outcome input run step_id outcome now ≡ ok out
    → (step_exists (normalize input) step_id ≡ true)
      × (run.status ≡ RunStatus.running)
      × (apply_verdict
            (normalize input)
            step_id
            outcome
            now
            (finished input run step_id outcome now)
            (opened (normalize input) run now)
          ≡ ok out)
unfolding apply_outcome
apply_outcome-ok input run step_id outcome now {out} h = ground arith

apply_outcome-Used :
    (input : Definition) (run : Run) (step_id : String) (outcome : Outcome) (now : ℕ) {out : Run}
    → apply_outcome input run step_id outcome now ≡ ok out
    → Used input run out step_id outcome
apply_outcome-Used input run step_id outcome now h =
    apply_verdict-Used input run step_id outcome now (finished input run step_id outcome now)
      (apply_outcome-ok input run step_id outcome now h).2

-- A valid definition lets no edge have more than 50 rounds.
rework_limit-le :
    (def : Definition) (step_id target : String) (edge : Edge)
    → IsValid def
    → rework_edge def step_id target ≡ ok edge
    → rework_limit def edge ≤ℤ pos 50
unfolding rework_limit
rework_limit-le def step_id target edge valid chosen =
    let (ok_edge, _, _, _) =
      rework_edge-All (EdgeOk (step_ids def)) def step_id target valid.parts.5.0 chosen in
    ground (arith, ok_edge.5, valid.parts.3.1)

abbrev pub Capped : Run → Type 0
Capped run = (key : String) → rounds_at run.rework_rounds key ≤ 50

-- Under a definition that `Validate` accepts, an accepted verdict takes no count of rework rounds past
-- 50.
pub apply_outcome-Capped :
    (input : Definition) (run out : Run) (step_id : String) (outcome : Outcome) (now : ℕ)
    → validate input ≡ []
    → Capped run
    → apply_outcome input run step_id outcome now ≡ ok out
    → Capped out
apply_outcome-Capped input run out step_id outcome now valid capped h key =
    elim (apply_outcome-Used input run step_id outcome now h) [
      | unused e _ ↦ rw e (capped key)
      | used edge chosen rounds_left _ e ↦
          let k = edge_key edge.from edge.to in
          rw e (
            ground (
              arith,
              rounds_at-insert run.rework_rounds k key (suc (rounds_at run.rework_rounds k)),
              capped key,
              rework_limit-le (normalize input) step_id outcome.target edge
                  ((validate_iff input).0 valid) chosen,
              rounds_left,
            ))
    ]

-- The rounds that the rework edges have left, added up.
abbrev pub rounds_left : Definition → Dict ℕ → List Edge → ℕ
rounds_left def rounds [] = 0
rounds_left def rounds (e ∷ es) =
    let rest = rounds_left def rounds es in
    if e.kind == edge_rework
    then (pos_part (rework_limit def e) - rounds_at rounds (edge_key e.from e.to)) + rest
    else rest

abbrev pub budget : Definition → Run → ℕ
budget input run = let def = normalize input in rounds_left def run.rework_rounds def.edges

abbrev In : Edge → List Edge → Type 0
In e [] = ⊥
In e (x ∷ xs) = (x ≡ e) ⊎ In e xs

All-In : (es rest : List Edge) → ((e : Edge) → In e es → In e rest) → All (λ e. In e rest) es
All-In [] rest f = tt
All-In (e ∷ es) rest f = (f e (inl refl), All-In es rest (λ x m. f x (inr m)))

module _ (def : Definition) (rounds : Dict ℕ) (key : String) where
  abbrev counted : Dict ℕ
  counted = Dict.insert key (suc (rounds_at rounds key)) rounds

  rounds_left-counted_le : (es : List Edge) → rounds_left def counted es ≤ rounds_left def rounds es
  rounds_left-counted_le [] = omega arith
  rounds_left-counted_le (e ∷ es) = ground (
    arith,
    rounds_left-counted_le es,
    rounds_at-insert rounds key (edge_key e.from e.to) (suc (rounds_at rounds key)),
  )

  rounds_left-counted_lt :
      (es : List Edge) (edge : Edge)
      → In edge es
      → edge.kind ≡ edge_rework
      → edge_key edge.from edge.to ≡ key
      → rounds_at rounds key < pos_part (rework_limit def edge)
      → rounds_left def counted es < rounds_left def rounds es
  rounds_left-counted_lt [] edge m k e h = elim m [ ]
  rounds_left-counted_lt (x ∷ es) edge (inl same) k e h = ground (
    arith,
    same,
    rounds_left-counted_le es,
    rounds_at-insert rounds key (edge_key edge.from edge.to) (suc (rounds_at rounds key)),
  )
  rounds_left-counted_lt (x ∷ es) edge (inr m) k e h = ground (
    arith,
    rounds_left-counted_lt es edge m k e h,
    rounds_at-insert rounds key (edge_key x.from x.to) (suc (rounds_at rounds key)),
  )

-- A verdict that sends work back and leaves the run running uses up a part of the budget, and no
-- verdict adds to it.
pub apply_outcome-budget :
    (input : Definition) (run out : Run) (step_id : String) (outcome : Outcome) (now : ℕ)
    → apply_outcome input run step_id outcome now ≡ ok out
    → budget input out + sends_back outcome out ≤ budget input run
apply_outcome-budget input run out step_id outcome now h =
    elim (apply_outcome-Used input run step_id outcome now h) [
      | unused e z ↦ rw e (omega (arith, z))
      | used edge chosen left_over _ e ↦
          let def = normalize input in
          let key = edge_key edge.from edge.to in
          let (member, kind, _, _) =
            rework_edge-All (λ x. In x def.edges) def step_id outcome.target
              (All-In def.edges def.edges (λ x m. m)) chosen in
          rw e (
            ground (
              arith,
              rounds_left-counted_lt def run.rework_rounds key def.edges edge member kind refl
                  (ground (arith, left_over)),
            ))
    ]
