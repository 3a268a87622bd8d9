-- ===== src/Workflow/Validation/Acyclic/Degrees.antt =====
-- What the loop of `acyclic` keeps in its table: how many dependencies of a step are not yet visited.
use onecatch.Base.{
  ℕ, suc, ◌+◌, String, true, false, not, ◌&&◌, ◌||◌, List, [], ◌∷◌, ◌++◌, map, ◌≡◌, refl, ◌==◌,
  arith, select, contains, contains_head, contains-snoc, Bool-cases, inl, inr, if◌then◌else◌, eqb,
  Unique, Unique-snoc,
}
use onecatch.Base.Int.{ℤ, pos, pred_ℤ, succ_ℤ, is_zero}
use onecatch.Base.Dict
use onecatch.Base.Dict.{Dict}
use onecatch.Workflow.Model.{Edge}
use onecatch.Workflow.Graph.{is_next}
use onecatch.Workflow.Validation.Acyclic.{degree, count_arcs, release}
use onecatch.Workflow.Validation.Acyclic.Rounds.{degree-insert}

-- The dependency edges into `x` whose source is not in `visited`.
abbrev pub remaining : List Edge → List String → String → ℕ
remaining [] visited x = 0
remaining (e ∷ es) visited x =
    let rest = remaining es visited x in
    if is_next e && (e.to == x) && not (contains visited e.from) then suc rest else rest

abbrev pub count : List String → String → ℕ
count [] x = 0
count (y ∷ ys) x = let rest = count ys x in if y == x then suc rest else rest

pub contains-count : (ys : List String) (x : String) → contains ys x ≡ not (eqb (count ys x) 0)
contains-count [] x = refl
contains-count (y ∷ ys) x = ground (arith, contains-count ys x)

abbrev pub arcs_from : List Edge → String → List String
arcs_from es u = map (λ e. e.to) (select (λ e. is_next e && (e.from == u)) es)

pub remaining-visit :
    (es : List Edge) (visited : List String) (u x : String)
    → contains visited u ≡ false
    → remaining es (u ∷ visited) x + count (arcs_from es u) x ≡ remaining es visited x
remaining-visit [] visited u x n = omega arith
remaining-visit (e ∷ es) visited u x n = ground (arith, remaining-visit es visited u x)

-- A step with nothing remaining has all its dependencies visited.
pub remaining_zero :
    (es : List Edge) (visited : List String) (u x : String)
    → remaining es visited x ≡ 0
    → contains (arcs_from es u) x ≡ true
    → contains visited u ≡ true
remaining_zero [] visited u x z m = cc
remaining_zero (e ∷ es) visited u x z m = ground (arith, remaining_zero es visited u x)

pub degree-count_arcs :
    (es : List Edge) (d : Dict ℤ) (x : String) (k : ℕ)
    → degree d x ≡ pos k
    → degree (count_arcs es d) x ≡ pos (k + remaining es [] x)
unfolding count_arcs
degree-count_arcs [] d x k h = ground arith
degree-count_arcs (e ∷ es) d x k h = elim (Bool-cases (is_next e)) [
  | inl next ↦ ground (
    arith,
    degree-count_arcs es (Dict.insert e.to (succ_ℤ (degree d e.to)) d) x
        (if e.to == x then suc k else k),
    degree-insert d e.to x (succ_ℤ (degree d e.to)),
  )
  | inr other ↦ ground (arith, degree-count_arcs es d x k)
]

module _ (r : String → ℕ) where
  abbrev pub Owes : List String → Dict ℤ → Type 0
  Owes cs d = (x : String) → degree d x ≡ pos (r x + count cs x)

  Owes-lower :
      (c : String) (cs : List String) (d : Dict ℤ)
      → Owes (c ∷ cs) d
      → Owes cs (Dict.insert c (pred_ℤ (degree d c)) d)
  Owes-lower c cs d h x = ground (arith, degree-insert d c x (pred_ℤ (degree d c)), h x, h c)

  pub degree-release :
      (cs : List String) (d : Dict ℤ) (queue : List String)
      → Owes cs d
      → (x : String) → degree (release cs d queue).0 x ≡ pos (r x)
  unfolding release
  degree-release [] d queue h x = ground (arith, h x)
  degree-release (c ∷ cs) d queue h x =
      degree-release cs (Dict.insert c (pred_ℤ (degree d c)) d)
        (if is_zero (pred_ℤ (degree d c)) then queue ++ c ∷ [] else queue) (Owes-lower c cs d h) x

  is_zero_left :
      (c : String) (cs : List String) (d : Dict ℤ)
      → Owes (c ∷ cs) d
      → is_zero (pred_ℤ (degree d c)) ≡ eqb (r c + count cs c) 0
  is_zero_left c cs d h = ground (arith, h c)

  pub contains-release :
      (cs : List String) (d : Dict ℤ) (queue : List String)
      → Owes cs d
      → (x : String)
      → contains (release cs d queue).1 x ≡ (contains queue x || (contains cs x && eqb (r x) 0))
  unfolding release
  contains-release [] d queue h x = ground arith
  contains-release (c ∷ cs) d queue h x = ground (
    arith,
    contains-release cs (Dict.insert c (pred_ℤ (degree d c)) d)
        (if is_zero (pred_ℤ (degree d c)) then queue ++ c ∷ [] else queue) (Owes-lower c cs d h) x,
    is_zero_left c cs d h,
    contains-snoc queue c x,
    contains-count cs c,
  )

  pub Unique-release :
      (cs : List String) (d : Dict ℤ) (queue : List String)
      → Owes cs d
      → ((x : String) → contains cs x ≡ true → contains queue x ≡ false)
      → Unique queue
      → Unique (release cs d queue).1
  unfolding release
  Unique-release [] d queue h new u = u
  Unique-release (c ∷ cs) d queue h new u =
      let d' = Dict.insert c (pred_ℤ (degree d c)) d in
      let h' = Owes-lower c cs d h in
      elim (Bool-cases (is_zero (pred_ℤ (degree d c)))) [
        | inl free ↦
            rw (free, release)
              (Unique-release cs d' (queue ++ c ∷ []) h'
                (λ x m. ground (
                  arith,
                  contains-snoc queue c x,
                  new x,
                  is_zero_left c cs d h,
                  contains-count cs c,
                ))
                (Unique-snoc queue c u (new c (contains_head c cs))))
        | inr held ↦
            rw (held, release) (Unique-release cs d' queue h' (λ x m. new x (ground arith)) u)
      ]
