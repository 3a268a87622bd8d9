-- ===== src/Settings/Switches.antt =====
-- What Normalize does to the switches of the harnesses.
use mathlib.Core.Option
use onecatch.Base.{
  String, true, none, some, List, [], ◌∷◌, contains, ◌==◌, ◌≡◌, refl, arith, inl, inr, Option-cases,
  Bool-cases,
}
use onecatch.Base.Dict
use onecatch.Base.Dict.{Dict}
use onecatch.Harness.{ids}
use onecatch.Settings.{RuntimeSettings, Settings, current_schema_version, defaults}
use onecatch.Settings.Rules.{Equal}
use onecatch.Settings.Normalize.{
  normalize_runtime, normalize_runtimes, fill_one, fill, runtime_at, source_version, switched,
  normal, normalize,
}

lookup-normalize_runtimes :
    (k : String) (m : Dict RuntimeSettings)
    → Dict.lookup k (normalize_runtimes m) ≡ Option.map (normalize_runtime k) (Dict.lookup k m)
unfolding Dict.lookup normalize_runtimes
lookup-normalize_runtimes k [] = refl
lookup-normalize_runtimes k ((j, r) ∷ m) = ground (arith, lookup-normalize_runtimes k m)

fill_one_there :
    (given : Dict RuntimeSettings) (id : String) (m : Dict RuntimeSettings) (r : RuntimeSettings)
    → Dict.lookup id m ≡ some r
    → fill_one given id m ≡ m
unfolding fill_one
fill_one_there given id m r e = rw (fill_one, e) refl

fill_one_missing :
    (given : Dict RuntimeSettings) (id : String) (m : Dict RuntimeSettings)
    → Dict.lookup id m ≡ none
    → fill_one given id m ≡ Dict.insert id (runtime_at given id) m
unfolding fill_one
fill_one_missing given id m e = rw (fill_one, e) refl

lookup-fill_one :
    (given : Dict RuntimeSettings) (id k : String) (m : Dict RuntimeSettings) (r : RuntimeSettings)
    → Dict.lookup k m ≡ some r
    → Dict.lookup k (fill_one given id m) ≡ some r
lookup-fill_one given id k m r e = elim (Option-cases (Dict.lookup id m)) [
  | inr (w, there) ↦ rw (fill_one_there given id m w there) e
  | inl missing ↦
      rw (fill_one_missing given id m missing)
        (ground (arith, e, missing, Dict.lookup-insert id k (runtime_at given id) m))
]

fill_one_adds :
    (given : Dict RuntimeSettings) (id : String) (m : Dict RuntimeSettings)
    → (r : RuntimeSettings) × (Dict.lookup id (fill_one given id m) ≡ some r)
fill_one_adds given id m = elim (Option-cases (Dict.lookup id m)) [
  | inr (w, there) ↦ (w, lookup-fill_one given id id m w there)
  | inl missing ↦ (
    runtime_at given id,
    rw (fill_one_missing given id m missing)
        (ground (arith, Dict.lookup-insert id id (runtime_at given id) m)),
  )
]

lookup-fill :
    (given : Dict RuntimeSettings) (names : List String) (k : String) (m : Dict RuntimeSettings)
    (r : RuntimeSettings)
    → Dict.lookup k m ≡ some r
    → Dict.lookup k (fill given names m) ≡ some r
unfolding fill
lookup-fill given [] k m r e = e
lookup-fill given (id ∷ names) k m r e =
    lookup-fill given names k (fill_one given id m) r (lookup-fill_one given id k m r e)

fill_adds :
    (given : Dict RuntimeSettings) (names : List String) (k : String) (m : Dict RuntimeSettings)
    → contains names k ≡ true
    → (r : RuntimeSettings) × (Dict.lookup k (fill given names m) ≡ some r)
unfolding fill
fill_adds given [] k m e = cc
fill_adds given (id ∷ names) k m e = elim (Bool-cases (id == k)) [
  | inl this ↦
      let (r, there) = fill_one_adds given id m in
      (r, lookup-fill given names k (fill_one given id m) r (ground (arith, there, this)))
  | inr other ↦ fill_adds given names k (fill_one given id m) (ground (arith, other, e))
]

switched_current :
    (s : Settings)
    → Equal s.schema_version current_schema_version
    → switched s ≡ fill defaults.runtimes ids s.runtimes
unfolding switched source_version
switched_current s now = ground (arith, now)

normalize_current :
    (s : Settings) → Equal s.schema_version current_schema_version → normalize s ≡ some (normal s)
unfolding normalize
normalize_current s now = ground (arith, now)

-- Settings of the current version are never refused, and Normalize leaves the switches of each harness
-- that they name as they are, off as well as on.
pub normalize_keeps_switches :
    (s : Settings) (id : String) (r : RuntimeSettings)
    → Equal s.schema_version current_schema_version
    → Dict.lookup id s.runtimes ≡ some r
    → (out : Settings) × (q : RuntimeSettings) × (normalize s ≡ some out)
      × (Dict.lookup id out.runtimes ≡ some q)
      × (q.enabled ≡ r.enabled)
      × (q.remote_fs_enabled ≡ r.remote_fs_enabled)
unfolding normalize_runtime
normalize_keeps_switches s id r now there = (
  normal s,
  normalize_runtime id r,
  normalize_current s now,
  rw (lookup-normalize_runtimes id (switched s), switched_current s now)
      (rw (lookup-fill defaults.runtimes ids id s.runtimes r there) refl),
  refl,
  refl,
)

-- Settings of the current version come out with a runtime for each known harness.
normalize_names_harnesses :
    (s : Settings) (id : String)
    → Equal s.schema_version current_schema_version
    → contains ids id ≡ true
    → (out : Settings) × (q : RuntimeSettings) × (normalize s ≡ some out)
      × (Dict.lookup id out.runtimes ≡ some q)
normalize_names_harnesses s id now known =
    let (r, there) = fill_adds defaults.runtimes ids id s.runtimes known in
    (
      normal s,
      normalize_runtime id r,
      normalize_current s now,
      rw (lookup-normalize_runtimes id (switched s), switched_current s now) (rw there refl),
    )
