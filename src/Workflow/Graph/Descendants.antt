-- ===== src/Workflow/Graph/Descendants.antt =====
-- What `descendants` finds: the steps below a step along dependency edges, and nothing else.
use onecatch.Base.{
  ℕ, zero, suc, ◌+◌, ◌≤◌, ◌<◌, String, Bool, true, false, not, ◌&&◌, ◌||◌, List, [], ◌∷◌, ◌++◌, map,
  length, select, contains, contains-snoc, ◌==◌, ◌≡◌, refl, ◌↔◌, ◌⊎◌, inl, inr, arith, Bool-cases,
  or_cases, contains_head, length-append, if◌then◌else◌,
}
use mathlib.Core.Logic.{⊎_elim}
use onecatch.Workflow.Model.{Edge, Definition}
use onecatch.Workflow.Graph.{is_next, downstream, scan, descendants_loop, descendants}

-- `v` depends directly on `u`.
abbrev pub Arc : Definition → String → String → Type 0
Arc def u v = contains (downstream def u) v ≡ true

-- `v` can be reached from `u` by one dependency edge or more.
pub data Below (def : Definition) (u : String) : String → Type 0 where
  child : {v : String} → Arc def u v → Below def u v
  later : {v w : String} → Below def u v → Arc def v w → Below def u w

contains-scan :
    (cs seen queue : List String) (x : String)
    → contains (scan cs seen queue).0 x ≡ (contains seen x || contains cs x)
unfolding scan
contains-scan [] seen queue x = ground arith
contains-scan (c ∷ cs) seen queue x = elim (Bool-cases (contains seen c)) [
  | inl old ↦ ground (arith, contains-scan cs seen queue x)
  | inr new ↦
      ground (arith, contains-scan cs (seen ++ c ∷ []) (queue ++ c ∷ []) x, contains-snoc seen c x)
]

contains-scan_queue :
    (cs seen queue : List String) (x : String)
    → contains (scan cs seen queue).1 x
      ≡ (contains queue x || (contains cs x && not (contains seen x)))
unfolding scan
contains-scan_queue [] seen queue x = ground arith
contains-scan_queue (c ∷ cs) seen queue x = elim (Bool-cases (contains seen c)) [
  | inl old ↦ ground (arith, contains-scan_queue cs seen queue x)
  | inr new ↦ ground (
    arith,
    contains-scan_queue cs (seen ++ c ∷ []) (queue ++ c ∷ []) x,
    contains-snoc seen c x,
    contains-snoc queue c x,
  )
]

-- The edges whose target is not in `seen`.
abbrev fresh : List Edge → List String → ℕ
fresh [] seen = 0
fresh (e ∷ es) seen = if contains seen e.to then fresh es seen else suc (fresh es seen)

abbrev pub targets : List Edge → List String
targets = map (λ e. e.to)

fresh-snoc_le :
    (es : List Edge) (seen : List String) (c : String) → fresh es (seen ++ c ∷ []) ≤ fresh es seen
fresh-snoc_le [] seen c = omega arith
fresh-snoc_le (e ∷ es) seen c = ground (arith, contains-snoc seen c e.to, fresh-snoc_le es seen c)

fresh-snoc_lt :
    (es : List Edge) (seen : List String) (c : String)
    → contains (targets es) c ≡ true
    → contains seen c ≡ false
    → fresh es (seen ++ c ∷ []) < fresh es seen
fresh-snoc_lt [] seen c m n = cc
fresh-snoc_lt (e ∷ es) seen c m n =
    ground (arith, contains-snoc seen c e.to, fresh-snoc_lt es seen c, fresh-snoc_le es seen c)

contains-downstream :
    (p : Edge → Bool) (es : List Edge) (c : String)
    → contains (map (λ e. e.to) (select p es)) c ≡ true
    → contains (targets es) c ≡ true
contains-downstream p [] c h = h
contains-downstream p (e ∷ es) c h = ground (arith, contains-downstream p es c)

scan-measure :
    (es : List Edge) (cs seen queue : List String)
    → ((x : String) → contains cs x ≡ true → contains (targets es) x ≡ true)
    → length (scan cs seen queue).1 + fresh es (scan cs seen queue).0 ≤ length queue + fresh es seen
unfolding scan
scan-measure es [] seen queue h = omega arith
scan-measure es (c ∷ cs) seen queue h =
    let tail = λ (x : String) (m : contains cs x ≡ true). h x (ground arith) in
    elim (Bool-cases (contains seen c)) [
      | inl old ↦ rw (old, scan) (scan-measure es cs seen queue tail)
      | inr new ↦
          rw (new, scan)
            (omega (
              arith,
              scan-measure es cs (seen ++ c ∷ []) (queue ++ c ∷ []) tail,
              fresh-snoc_lt es seen c (h c (ground arith)) new,
              length-append queue (c ∷ []),
            ))
    ]

pub contains-Arc :
    (def : Definition) (u x : String)
    → contains (downstream def u) x ≡ true
    → contains (targets def.edges) x ≡ true
unfolding downstream
contains-Arc def u x m = contains-downstream (λ e. is_next e && (e.from == u)) def.edges x m

fresh-nil : (es : List Edge) → fresh es [] ≡ length es
fresh-nil [] = refl
fresh-nil (e ∷ es) = omega (arith, fresh-nil es)

extend :
    (def : Definition) (id u v : String) → (u ≡ id) ⊎ Below def id u → Arc def u v → Below def id v
extend def id u v (inl e) arc = child (rw e at arc)
extend def id u v (inr b) arc = later b arc

module _ (def : Definition) (id : String) where
  record Inv (seen queue : List String) : Type 0 where
    sound : (x : String) → contains seen x ≡ true → Below def id x
    queued : (x : String) → contains queue x ≡ true → (x ≡ id) ⊎ (contains seen x ≡ true)
    closed :
        (u v : String)
        → (u ≡ id) ⊎ (contains seen u ≡ true)
        → Arc def u v
        → (contains queue u ≡ true) ⊎ (contains seen v ≡ true)

  Inv-round :
      (seen queue : List String) (u : String)
      → Inv seen (u ∷ queue)
      → Inv (scan (downstream def u) seen queue).0 (scan (downstream def u) seen queue).1
  Inv-round seen queue u inv =
      let flags = contains-scan (downstream def u) seen queue in
      let waits = contains-scan_queue (downstream def u) seen queue in
      record {
        sound = λ x m. elim (or_cases (contains seen x) _ (rw (flags x) at m)) [
          | inl old ↦ inv.sound x old
          | inr new ↦
              extend def id u x
                (⊎_elim inl (λ q. inr (inv.sound u q)) (inv.queued u (contains_head u queue))) new
        ];
        queued = λ x m. ground (arith, flags x, waits x, inv.queued x);
        closed = λ x v m arc. ground (arith, flags x, flags v, waits x, inv.closed x v);
      }

  Inv-loop :
      (rounds : ℕ) (seen queue : List String)
      → length queue + fresh def.edges seen ≤ rounds
      → Inv seen queue
      → Inv (descendants_loop def rounds seen queue) []
  unfolding descendants_loop
  Inv-loop zero seen [] h inv = inv
  Inv-loop zero seen (u ∷ queue) h inv = absurd (omega arith)
  Inv-loop (suc rounds) seen [] h inv = inv
  Inv-loop (suc rounds) seen (u ∷ queue) h inv =
      Inv-loop rounds (scan (downstream def u) seen queue).0 (scan (downstream def u) seen queue).1
        (omega (arith, scan-measure def.edges (downstream def u) seen queue (contains-Arc def u)))
        (Inv-round seen queue u inv)

  Inv-start : Inv [] (id ∷ [])
  Inv-start = record {
    sound = λ x m. cc;
    queued = λ x m. ground arith;
    closed = λ u v m arc. ground arith;
  }

  Inv-end : Inv (descendants def id) []
  unfolding descendants
  Inv-end =
      Inv-loop (suc (length def.edges)) [] (id ∷ []) (omega (arith, fresh-nil def.edges)) Inv-start

  complete : {x : String} → Below def id x → contains (descendants def id) x ≡ true
  complete (child arc) = ⊎_elim (λ h. cc) (λ h. h) (Inv-end.closed _ _ (inl refl) arc)
  complete (later b arc) = ⊎_elim (λ h. cc) (λ h. h) (Inv-end.closed _ _ (inr (complete b)) arc)

-- A step is among the descendants of another exactly when a chain of one or more dependency edges
-- leads to it; so the search visits all of them within its bound on rounds, cycles or not.
pub contains-descendants :
    (def : Definition) (id x : String) → (contains (descendants def id) x ≡ true) ↔ Below def id x
contains-descendants def id x = ((Inv-end def id).sound x, complete def id)
