-- ===== src/Workflow/Verdict/Failure.antt =====
-- Failures of a step in a row: they are counted, and at the policy's limit the run pauses.
use onecatch.Base.{
  ℕ, suc, ◌+◌, ◌≤◌, String, Bool, true, false, List, [], ◌∷◌, length, ◌==◌, if◌then◌else◌,
  trim_space, ◌≡◌, ◌∙◌, arith, Bool-cases, inl, inr,
}
use native.Mathlib.Nat.{add-zero}
use onecatch.Base.Int.{ℤ, pos, leb_ℤ}
use onecatch.Base.Dict
use onecatch.Workflow.Model.{Definition, RunStatus, NodeStatus, pending, paused, NodeState, Run}
use onecatch.Workflow.Normalize.{normalize}
use onecatch.Workflow.State.{Nodes, node_at, node_of, ensure_all}
use onecatch.Workflow.State.Nodes.{
  node_at-insert, has_node-insert, node_at-ensure_all, has_node-ensure_all,
}
use onecatch.Workflow.Verdict.{record_step_failure}

module _ (input : Definition) (id : String) where
  abbrev limit : ℤ
  limit = (normalize input).policy.max_consecutive_failures

  abbrev table : Run → Nodes
  table run = ensure_all (normalize input).steps run.nodes

  -- The failures of one step, reported one after the other with their messages and times.
  abbrev pub fails : Run → List (String × ℕ) → Run
  fails run [] = run
  fails run ((message, now) ∷ rest) = fails (record_step_failure input run id message now) rest

  abbrev over : ℕ → Bool
  over n = leb_ℤ limit (pos n)

  -- A table that holds a node for every step is not changed by `ensureNodes`.
  settled_table :
      (run : Run) (node : NodeState) (x : String)
      → node_at (ensure_all (normalize input).steps (Dict.insert id node (table run))) x
        ≡ (if id == x then node else node_at (table run) x)
  settled_table run node x =
      let steps = (normalize input).steps in
      ground (
        arith,
        node_at-ensure_all steps (Dict.insert id node (table run)) x,
        has_node-insert (table run) id x node,
        has_node-ensure_all steps run.nodes x,
        node_at-insert (table run) id x node,
      )

  -- What failures leave, given the count that they lead to.
  pub record Counts (n : ℕ) (run out : Run) : Type 0 where
    pub failures : (node_at (table out) id).failures ≡ n
    pub node : (node_of out id).status ≡ (if over n then paused else pending)
    pub status : out.status ≡ (if over n then RunStatus.paused else run.status)
    pub others : (x : String) → (id == x) ≡ false → node_at (table out) x ≡ node_at (table run) x
    pub sessions : out.sessions ≡ run.sessions

  one_failure :
      (run : Run) (message : String) (now : ℕ)
      → Counts
          (suc (node_at (table run) id).failures)
          run
          (record_step_failure input run id message now)
  unfolding record_step_failure
  one_failure run message now =
      let old = node_at (table run) id in
      let failed = λ (s : NodeStatus). record old {
        failures = suc old.failures;
        error = trim_space message;
        finished_at = now;
        status = s;
      } in
      elim (Bool-cases (over (suc old.failures))) [
        | inl h ↦ record {
          failures = ground (arith, h, settled_table run (failed paused) id);
          node = ground (arith, h, node_at-insert (table run) id id (failed paused));
          status = ground (arith, h);
          others = λ x d. ground (arith, h, d, settled_table run (failed paused) x);
          sessions = ground (arith, h);
        }
        | inr h ↦ record {
          failures = ground (arith, h, settled_table run (failed pending) id);
          node = ground (arith, h, node_at-insert (table run) id id (failed pending));
          status = ground (arith, h);
          others = λ x d. ground (arith, h, d, settled_table run (failed pending) x);
          sessions = ground (arith, h);
        }
      ]

  over_mono : (m n : ℕ) → m ≤ n → over m ≡ true → over n ≡ true
  over_mono m n h k = ground arith

  Counts-trans : (m n : ℕ) (a b c : Run) → m ≤ n → Counts m a b → Counts n b c → Counts n a c
  Counts-trans m n a b c h p q = record {
    failures = q.failures;
    node = q.node;
    status = ground (arith, over_mono m n h, p.status, q.status);
    others = λ x d. q.others x d ∙ p.others x d;
    sessions = q.sessions ∙ p.sessions;
  }

  fails-Counts :
      (run : Run) (first : String × ℕ) (rest : List (String × ℕ))
      → Counts (suc (node_at (table run) id).failures + length rest) run (fails run (first ∷ rest))
  fails-Counts run (message, now) [] = rw add-zero (one_failure run message now)
  fails-Counts run (message, now) (next ∷ rest) =
      let mid = record_step_failure input run id message now in
      let one = one_failure run message now in
      let total = suc (node_at (table run) id).failures + length (next ∷ rest) in
      let same : suc (node_at (table mid) id).failures + length rest ≡ total =
        omega (arith, one.failures) in
      Counts-trans (suc (node_at (table run) id).failures) total run mid
        (fails run ((message, now) ∷ next ∷ rest)) (omega arith) one
        (rw same at (fails-Counts mid next rest))

-- Failures of one step in a row, at least one: they add up in its node; the run and the step are paused
-- when the count has reached the policy's limit, and otherwise the run's status is as before and the
-- step is pending; the other nodes and the sessions stay as they are.
pub record_step_failure-Counts :
    (input : Definition) (id : String) (run : Run) (first : String × ℕ) (rest : List (String × ℕ))
    → Counts input id
        ((node_at (ensure_all (normalize input).steps run.nodes) id).failures
          + length (first ∷ rest))
        run
        (fails input id run (first ∷ rest))
record_step_failure-Counts input id run first rest =
    let n = (node_at (ensure_all (normalize input).steps run.nodes) id).failures in
    let same : suc n + length rest ≡ n + length (first ∷ rest) = omega arith in
    rw same at (fails-Counts input id run first rest)
