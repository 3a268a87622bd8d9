-- ===== src/Workflow/Normalize/Twice.antt =====
-- Filling in the defaults of a definition twice changes nothing.
use onecatch.Base.{
  String, map, ◌≡◌, ◌≢◌, refl, ap₂, arith, List, [], ◌∷◌, ne_of_test, String_discrete,
}
use onecatch.Base.Text.Trim.{to_lower-trim_space_idem}
use onecatch.Workflow.Model.{Step, Edge, Policy, Definition, step_agent, edge_next}
use onecatch.Workflow.Normalize.{normalize_policy, normalize_step, normalize_edge, normalize}

named :
    (◌≢◌ {A = String} step_agent "")
    × (◌≢◌ {A = String} edge_next "")
    × (◌≢◌ {A = String} "local" "")
unfolding String_discrete
named = (ne_of_test _ _ refl, ne_of_test _ _ refl, ne_of_test _ _ refl)

normalize_policy_idem : (p : Policy) → normalize_policy (normalize_policy p) ≡ normalize_policy p
unfolding normalize_policy
normalize_policy_idem p = ground arith

normalize_step_idem : (s : Step) → normalize_step (normalize_step s) ≡ normalize_step s
unfolding normalize_step
normalize_step_idem s = ground (arith, named, to_lower-trim_space_idem s.reasoning_effort)

normalize_edge_idem : (e : Edge) → normalize_edge (normalize_edge e) ≡ normalize_edge e
unfolding normalize_edge
normalize_edge_idem e = ground (arith, named)

map_twice {ℓ} :
    {A : Type ℓ} (f : A → A)
    → ((a : A) → f (f a) ≡ f a)
    → (xs : List A) → map f (map f xs) ≡ map f xs
map_twice f twice [] = refl
map_twice f twice (x ∷ xs) = ap₂ ◌∷◌ (twice x) (map_twice f twice xs)

-- `Normalize` is idempotent: policy, steps and edges keep the defaults that it fills in.
pub normalize_idem : (def : Definition) → normalize (normalize def) ≡ normalize def
unfolding normalize
normalize_idem def = λ i. record (normalize def) {
  policy = normalize_policy_idem def.policy i;
  steps = map_twice normalize_step normalize_step_idem def.steps i;
  edges = map_twice normalize_edge normalize_edge_idem def.edges i;
}
