-- ===== src/Workflow/Validation/Acyclic/Rounds.antt =====
-- The loop of `acyclic` ends within its rounds, for every definition.
use onecatch.Base.{
  ℕ, zero, suc, ◌+◌, ◌≤◌, ◌<◌, String, Bool, true, false, List, [], ◌∷◌, ◌++◌, some, ◌≡◌, refl,
  ◌==◌, arith, length, contains, contains_head, length-append, length-map, Bool-cases, inl, inr,
  if◌then◌else◌,
}
use onecatch.Base.Int.{ℤ, pos, negsuc, pred_ℤ, is_zero}
use onecatch.Base.Dict
use onecatch.Base.Dict.{Dict, lookup-insert}
use onecatch.Workflow.Model.{Step, Edge, Definition}
use onecatch.Workflow.Graph.{downstream, step_ids}
use onecatch.Workflow.Graph.Descendants.{targets, contains-Arc}
use onecatch.Workflow.Validation.Acyclic.{degree, count_arcs, roots, release, visit, visited_steps}

pub degree-insert :
    (d : Dict ℤ) (c x : String) (z : ℤ)
    → degree (Dict.insert c z d) x ≡ (if c == x then z else degree d x)
degree-insert d c x z = ground (arith, lookup-insert c x z d)

abbrev is_pos : ℤ → Bool
is_pos (pos zero) = false
is_pos (pos (suc n)) = true
is_pos (negsuc n) = false

is_pos-pred : (z : ℤ) → is_pos (pred_ℤ z) ≡ true → is_pos z ≡ true
is_pos-pred (pos zero) h = h
is_pos-pred (pos (suc n)) h = refl
is_pos-pred (negsuc n) h = h

is_zero-pred : (z : ℤ) → is_zero (pred_ℤ z) ≡ true → (is_pos z ≡ true) × (is_pos (pred_ℤ z) ≡ false)
is_zero-pred (pos zero) h = ground arith
is_zero-pred (pos (suc zero)) h = (refl, refl)
is_zero-pred (pos (suc (suc n))) h = ground arith
is_zero-pred (negsuc n) h = ground arith

-- The edges whose target still waits for a dependency.
abbrev waiting : List Edge → Dict ℤ → ℕ
waiting [] d = 0
waiting (e ∷ es) d = let rest = waiting es d in if is_pos (degree d e.to) then suc rest else rest

abbrev lower : Dict ℤ → String → Dict ℤ
lower d c = Dict.insert c (pred_ℤ (degree d c)) d

waiting-lower_le :
    (es : List Edge) (d : Dict ℤ) (c : String) → waiting es (lower d c) ≤ waiting es d
waiting-lower_le [] d c = omega arith
waiting-lower_le (e ∷ es) d c = ground (
  arith,
  degree-insert d c e.to (pred_ℤ (degree d c)),
  is_pos-pred (degree d c),
  waiting-lower_le es d c,
)

waiting-lower_lt :
    (es : List Edge) (d : Dict ℤ) (c : String)
    → contains (targets es) c ≡ true
    → is_zero (pred_ℤ (degree d c)) ≡ true
    → waiting es (lower d c) < waiting es d
waiting-lower_lt [] d c m z = cc
waiting-lower_lt (e ∷ es) d c m z = ground (
  arith,
  degree-insert d c e.to (pred_ℤ (degree d c)),
  is_pos-pred (degree d c),
  is_zero-pred (degree d c),
  waiting-lower_lt es d c,
  waiting-lower_le es d c,
)

release-measure :
    (es : List Edge) (cs : List String) (d : Dict ℤ) (queue : List String)
    → ((x : String) → contains cs x ≡ true → contains (targets es) x ≡ true)
    → length (release cs d queue).1 + waiting es (release cs d queue).0
      ≤ length queue + waiting es d
unfolding release
release-measure es [] d queue h = omega arith
release-measure es (c ∷ cs) d queue h =
    let tail = λ (x : String) (m : contains cs x ≡ true). h x (ground arith) in
    elim (Bool-cases (is_zero (pred_ℤ (degree d c)))) [
      | inl free ↦
          rw (free, release)
            (omega (
              arith,
              release-measure es cs (lower d c) (queue ++ c ∷ []) tail,
              waiting-lower_lt es d c (h c (contains_head c cs)) free,
              length-append queue (c ∷ []),
            ))
      | inr held ↦
          rw (held, release)
            (omega (arith, release-measure es cs (lower d c) queue tail, waiting-lower_le es d c))
    ]

visit_returns :
    (def : Definition) (rounds : ℕ) (d : Dict ℤ) (queue : List String) (n : ℕ)
    → length queue + waiting def.edges d ≤ rounds
    → (r : ℕ) × (visit def rounds d queue n ≡ some r)
unfolding visit
visit_returns def zero d [] n h = (n, refl)
visit_returns def (suc rounds) d [] n h = (n, refl)
visit_returns def zero d (u ∷ queue) n h = absurd (omega arith)
visit_returns def (suc rounds) d (u ∷ queue) n h =
    visit_returns def rounds (release (downstream def u) d queue).0
      (release (downstream def u) d queue).1 (suc n)
      (omega (arith, release-measure def.edges (downstream def u) d queue (contains-Arc def u)))

waiting-le : (es : List Edge) (d : Dict ℤ) → waiting es d ≤ length es
waiting-le [] d = omega arith
waiting-le (e ∷ es) d = ground (arith, waiting-le es d)

length-roots : (d : Dict ℤ) (ids : List String) → length (roots d ids) ≤ length ids
length-roots d [] = omega arith
length-roots d (x ∷ ids) = ground (arith, length-roots d ids)

-- The loop of `acyclic` ends by its own test for every definition, with a cycle or without.
pub visited_steps_returns : (def : Definition) → (n : ℕ) × (visited_steps def ≡ some n)
unfolding visited_steps
visited_steps_returns def =
    let d = count_arcs def.edges [] in
    visit_returns def (length def.steps + length def.edges) d (roots d (step_ids def)) 0 (
      omega (
        arith,
        waiting-le def.edges d,
        length-roots d (step_ids def),
        length-map (λ (s : Step). s.id) def.steps,
      ))
