-- ===== src/Settings/Rules.antt =====
-- What accepted settings allow: the numbers of their sections, and the harnesses.
use onecatch.Base.{
  ℕ, String, true, false, some, List, [], ◌∷◌, contains, map, find, ◌==◌, ◌&&◌, ◌≡◌, ◌↔◌, ◌⊎◌, refl,
  inl, inr, arith, All, Bool-cases, some_injective, subst, ap₂,
}
use onecatch.Base.Int.{ℤ, pos, ◌≤ℤ◌}
use onecatch.Base.Dict
use onecatch.Base.Dict.{Dict}
use onecatch.Harness.{
  Harness, catalog, ids, find_harness, supports_integration, supports_effort, supports_provider,
}
use onecatch.Settings.{
  RuntimeSettings, TerminalSettings, ExecutionSettings, StorageSettings, Settings,
  current_schema_version, has_control, environment_key, service_tier_key, forbidden_environment_key,
  harness_of, texts, several, config_ok, tier_ok, keys_ok, runtime_ok, runtimes_ok, arguments_ok,
  themes, terminal_ok, execution_ok, log_levels, odd_days, storage_ok, validate,
  harness_remote_fs_enabled,
}

abbrev pub Within : ℕ → ℕ → ℤ → Type 0
Within low high n = (pos low ≤ℤ n) × (n ≤ℤ pos high)

abbrev pub Equal : ℤ → ℤ → Type 0
Equal a b = (a ≤ℤ b) × (b ≤ℤ a)

abbrev pub ExecutionOk : ExecutionSettings → Type 0
ExecutionOk e =
    Within 1 50 e.max_rework_rounds
    × Within 1 100 e.max_consecutive_failures
    × Within 30 86400 e.step_timeout_seconds
    × Within 1 16 e.max_concurrency
    × Within 1 60 e.interrupt_grace_seconds
    × ((e.default_sandbox ≡ "read-only")
        ⊎ (e.default_sandbox ≡ "workspace-write")
        ⊎ (e.default_sandbox ≡ "full"))

abbrev pub DaysOk : ℤ → Type 0
DaysOk days = Equal days (pos 0) ⊎ Equal days (pos 30) ⊎ Equal days (pos 90) ⊎ Equal days (pos 180)

abbrev pub StorageOk : StorageSettings → Type 0
StorageOk s =
    DaysOk s.completed_run_retention_days
    × (contains log_levels s.log_level ≡ true)
    × Within 1 1024 s.log_max_size_mb
    × Within 1 50 s.log_max_backups
    × Within 1 365 s.log_max_age_days

abbrev pub TerminalOk : TerminalSettings → Type 0
TerminalOk t =
    (has_control t.shell ≡ false)
    × All (λ a. has_control a ≡ false) t.arguments
    × (contains themes t.theme ≡ true)

abbrev pub ConfigOk : Harness → RuntimeSettings → Type 0
ConfigOk h r =
    ((several h.integrations ≡ true)
      × ((r.config_source ≡ "") ⊎ (r.config_source ≡ "shared") ⊎ (r.config_source ≡ "onecatch")))
    ⊎ ((several h.integrations ≡ false) × (r.config_source ≡ "") × (r.config_path ≡ ""))

abbrev pub TierOk : Harness → RuntimeSettings → Type 0
TierOk h r =
    (r.service_tier ≡ "") ⊎ ((h.service_tiers ≡ true) × (service_tier_key r.service_tier ≡ true))

abbrev pub KeyOk : String → Type 0
KeyOk key = (environment_key key ≡ true) × (forbidden_environment_key key ≡ false)

abbrev pub RuntimeOk : String × RuntimeSettings → Type 0
RuntimeOk (id, r) =
    (contains ids id ≡ true)
    × (has_control (texts r) ≡ false)
    × ((r.remote_fs_enabled ≡ false) ⊎ ((harness_of id).supports_remote_fs ≡ true))
    × ((r.integration ≡ "") ⊎ (supports_integration (harness_of id) r.integration ≡ true))
    × ConfigOk (harness_of id) r
    × (supports_effort (harness_of id) r.reasoning_effort ≡ true)
    × TierOk (harness_of id) r
    × (supports_provider (harness_of id) r.provider ≡ true)
    × All KeyOk r.environment_allowlist

execution_iff : (e : ExecutionSettings) → (execution_ok e ≡ true) ↔ ExecutionOk e
unfolding execution_ok
execution_iff e = ground arith

days_iff : (days : ℤ) → (odd_days days ≡ false) ↔ DaysOk days
unfolding odd_days
days_iff days = ground arith

storage_iff : (s : StorageSettings) → (storage_ok s ≡ true) ↔ StorageOk s
unfolding storage_ok
storage_iff s = ground (arith, days_iff s.completed_run_retention_days)

arguments_iff : (xs : List String) → (arguments_ok xs ≡ true) ↔ All (λ a. has_control a ≡ false) xs
unfolding arguments_ok
arguments_iff [] = (λ h. tt, λ h. refl)
arguments_iff (x ∷ xs) = ground (arith, arguments_iff xs)

terminal_iff : (t : TerminalSettings) → (terminal_ok t ≡ true) ↔ TerminalOk t
unfolding terminal_ok
terminal_iff t = ground (arith, arguments_iff t.arguments)

config_iff : (h : Harness) (r : RuntimeSettings) → (config_ok h r ≡ true) ↔ ConfigOk h r
unfolding config_ok
config_iff h r = ground arith

tier_iff : (h : Harness) (r : RuntimeSettings) → (tier_ok h r ≡ true) ↔ TierOk h r
unfolding tier_ok
tier_iff h r = ground arith

keys_iff : (keys : List String) → (keys_ok keys ≡ true) ↔ All KeyOk keys
unfolding keys_ok
keys_iff [] = (λ h. tt, λ h. refl)
keys_iff (key ∷ keys) = ground (arith, keys_iff keys)

runtime_iff : (id : String) (r : RuntimeSettings) → (runtime_ok id r ≡ true) ↔ RuntimeOk (id, r)
unfolding runtime_ok
runtime_iff id r = ground (
  arith,
  config_iff (harness_of id) r,
  tier_iff (harness_of id) r,
  keys_iff r.environment_allowlist,
)

runtimes_iff : (rs : Dict RuntimeSettings) → (runtimes_ok rs ≡ true) ↔ All RuntimeOk rs
unfolding runtimes_ok
runtimes_iff [] = (λ h. tt, λ h. refl)
runtimes_iff ((id, r) ∷ rs) = ground (arith, runtime_iff id r, runtimes_iff rs)

-- Settings are accepted exactly when the schema is the current one, the revision is positive, each
-- runtime is that of a known harness and asks only for what the harness offers, no text or environment
-- key is forbidden, and each number lies within its bounds.
pub validate_settings_iff :
    (s : Settings)
    → (validate s ≡ true) ↔ (
        Equal s.schema_version current_schema_version
        × (pos 1 ≤ℤ s.revision)
        × All RuntimeOk s.runtimes
        × TerminalOk s.terminal
        × ExecutionOk s.execution
        × StorageOk s.storage)
unfolding validate
validate_settings_iff s = ground (
  arith,
  runtimes_iff s.runtimes,
  terminal_iff s.terminal,
  execution_iff s.execution,
  storage_iff s.storage,
)

find-contains :
    (hs : List Harness) (id : String)
    → contains (map (λ h. h.id) hs) id ≡ true
    → (h : Harness) × (find (λ h. h.id == id) hs ≡ some h)
find-contains [] id e = cc
find-contains (h ∷ hs) id e = elim (Bool-cases (h.id == id)) [
  | inl this ↦ (h, rw this refl)
  | inr other ↦ rw other (find-contains hs id (rw other at e))
]

find_harness-known :
    (id : String) → contains ids id ≡ true → (h : Harness) × (find_harness id ≡ some h)
unfolding find_harness ids
find_harness-known id e = find-contains catalog id e

lookup-All :
    (rs : Dict RuntimeSettings) (id : String) (r : RuntimeSettings)
    → All RuntimeOk rs
    → Dict.lookup id rs ≡ some r
    → RuntimeOk (id, r)
unfolding Dict.lookup
lookup-All [] id r oks e = cc
lookup-All ((key, w) ∷ rs) id r (ok, oks) e = elim (Bool-cases (key == id)) [
  | inl this ↦
      let same : w ≡ r = some_injective (rw this at e) in
      let named : key ≡ id = ground (arith, this) in
      subst RuntimeOk (ap₂ (λ a b. (a, b)) named same) ok
  | inr other ↦ lookup-All rs id r oks (rw other at e)
]

-- In accepted settings the switches of a runtime alone decide over remote file systems: the harness of a
-- runtime that is switched on for them supports them.
pub remote_fs_follows_switch :
    (s : Settings) (id : String) (r : RuntimeSettings)
    → validate s ≡ true
    → Dict.lookup id s.runtimes ≡ some r
    → harness_remote_fs_enabled s id ≡ (r.enabled && r.remote_fs_enabled)
unfolding harness_remote_fs_enabled
remote_fs_follows_switch s id r valid there =
    let (version, revision, oks, terminal, execution, storage) =
      (validate_settings_iff s).0 valid in
    let (known, clean, backed, integration, config, effort, tier, provider, keys) =
      lookup-All s.runtimes id r oks there in
    let (h, found) = find_harness-known id known in
    let remote : (r.remote_fs_enabled ≡ false) ⊎ (h.supports_remote_fs ≡ true) =
      rw found at backed in
    rw (harness_remote_fs_enabled, found, there) (ground (arith, remote))
