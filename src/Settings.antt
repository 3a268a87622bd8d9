-- ===== src/Settings.antt =====
-- internal/domain/settings/model.go: which settings are accepted, and which harnesses they let do what.
-- The fields that neither Validate nor Normalize reads, but for the switch of a harness, are left out.
pub mod Rules
pub mod Normalize
pub mod Switches
use Prim.Native.Char.{code}
use Prim.Native.String
use Prim.Native.String.{[] as nil_text, ◌∷◌ as ◌:::◌}
use onecatch.Base.{
  ℕ, zero, suc, String, Bool, true, false, not, ◌&&◌, ◌||◌, Option, none, some, List, [], ◌∷◌,
  contains, ◌==◌, if◌then◌else◌, leb, eqb, is_empty, has_prefix,
}
use onecatch.Base.Int.{ℤ, pos, leb_ℤ, ltb_ℤ}
use onecatch.Base.Dict
use onecatch.Base.Dict.{Dict}
use onecatch.Harness.{
  Harness, catalog, ids, find_harness, supports_integration, supports_effort, supports_provider,
  default_integration,
}
use mathlib.Core.Option

abbrev pub current_schema_version : ℤ
current_schema_version = pos 2

pub record RuntimeSettings : Type 0 where
  pub enabled : Bool
  pub remote_fs_enabled : Bool
  pub integration : String
  pub config_source : String
  pub config_path : String
  pub binary : String
  pub default_model : String
  pub reasoning_effort : String
  pub service_tier : String
  pub provider : String
  pub environment_allowlist : List String

pub record TerminalSettings : Type 0 where
  pub shell : String
  pub arguments : List String
  pub theme : String

pub record ExecutionSettings : Type 0 where
  pub max_rework_rounds : ℤ
  pub max_consecutive_failures : ℤ
  pub step_timeout_seconds : ℤ
  pub max_concurrency : ℤ
  pub interrupt_grace_seconds : ℤ
  pub default_sandbox : String

pub record StorageSettings : Type 0 where
  pub completed_run_retention_days : ℤ
  pub log_level : String
  pub log_max_size_mb : ℤ
  pub log_max_backups : ℤ
  pub log_max_age_days : ℤ

pub record Settings : Type 0 where
  pub schema_version : ℤ
  pub revision : ℤ
  pub runtimes : Dict RuntimeSettings
  pub terminal : TerminalSettings
  pub execution : ExecutionSettings
  pub storage : StorageSettings

-- `strings.ContainsAny(text, "\r\n\x00")`
unfoldable pub has_control : String → Bool
has_control nil_text = false
has_control (c ::: text) =
    let rest = has_control text in eqb (code c) 13 || eqb (code c) 10 || eqb (code c) 0 || rest

-- The characters of a class, at most `n` of them.
unfoldable pub run_of : (ℕ → Bool) → ℕ → String → Bool
run_of class n nil_text = true
run_of class zero (c ::: text) = false
run_of class (suc n) (c ::: text) = class (code c) && run_of class n text

abbrev between : ℕ → ℕ → ℕ → Bool
between low high c = leb low c && leb c high

abbrev digit : ℕ → Bool
digit = between b'0' b'9'

abbrev upper : ℕ → Bool
upper c = between b'A' b'Z' c || eqb c b'_'

abbrev lower_digit : ℕ → Bool
lower_digit c = between b'a' b'z' c || digit c

-- `^[A-Z_][A-Z0-9_]{0,127}$`
unfoldable pub environment_key : String → Bool
environment_key nil_text = false
environment_key (c ::: text) = upper (code c) && run_of (λ d. upper d || digit d) 127 text

-- `^[a-z0-9][a-z0-9_-]{0,63}$`
unfoldable pub service_tier_key : String → Bool
service_tier_key nil_text = false
service_tier_key (c ::: text) =
    lower_digit (code c) && run_of (λ d. lower_digit d || eqb d b'_' || eqb d b'-') 63 text

abbrev pub forbidden_keys : List String
forbidden_keys = "PATH" ∷ "HOME" ∷ "SHELL" ∷ "BASH_ENV" ∷ "ENV" ∷ "ZDOTDIR" ∷ []

unfoldable pub forbidden_environment_key : String → Bool
forbidden_environment_key key =
    contains forbidden_keys key || has_prefix "DYLD_" key || has_prefix "LD_" key

-- The harness that `Find` returns when it finds none.
abbrev pub no_harness : Harness
no_harness = record {
  id = "";
  name = "";
  command = "";
  efforts = [];
  providers = [];
  service_tiers = false;
  integrations = [];
  environment_hint = "";
  can_resume = false;
  supports_remote_fs = false;
}

abbrev pub harness_of : String → Harness
harness_of id = Option.get_or (find_harness id) no_harness

-- The texts of a runtime, one after the other.
unfoldable pub texts : RuntimeSettings → String
texts r =
    let join = String.◌++◌ in
    join r.integration (
      join r.config_source (
        join r.config_path (
          join r.binary
            (join r.default_model (join r.reasoning_effort (join r.service_tier r.provider))))))

abbrev pub several : List String → Bool
several [] = false
several (x ∷ []) = false
several (x ∷ y ∷ xs) = true

-- Only a harness with more than one integration has a configuration source to choose.
unfoldable pub config_ok : Harness → RuntimeSettings → Bool
config_ok h r =
    if several h.integrations
    then contains ("" ∷ "shared" ∷ "onecatch" ∷ []) r.config_source
    else not (not (r.config_source == "") || not (r.config_path == ""))

unfoldable pub tier_ok : Harness → RuntimeSettings → Bool
tier_ok h r =
    if r.service_tier == ""
    then true
    else if not h.service_tiers
    then false
    else service_tier_key r.service_tier

unfoldable pub keys_ok : List String → Bool
keys_ok [] = true
keys_ok (key ∷ keys) =
    let rest = keys_ok keys in
    if not (environment_key key) || forbidden_environment_key key then false else rest

unfoldable pub runtime_ok : String → RuntimeSettings → Bool
runtime_ok id r =
    let h = harness_of id in
    if not (contains ids id)
    then false
    else if has_control (texts r)
    then false
    else if r.remote_fs_enabled && not h.supports_remote_fs
    then false
    else if not (r.integration == "") && not (supports_integration h r.integration)
    then false
    else if not (config_ok h r)
    then false
    else if not (supports_effort h r.reasoning_effort)
    then false
    else if not (tier_ok h r)
    then false
    else if not (supports_provider h r.provider)
    then false
    else keys_ok r.environment_allowlist

-- The loop over the map.
unfoldable pub runtimes_ok : Dict RuntimeSettings → Bool
runtimes_ok [] = true
runtimes_ok ((id, r) ∷ rs) = let rest = runtimes_ok rs in if runtime_ok id r then rest else false

unfoldable pub arguments_ok : List String → Bool
arguments_ok [] = true
arguments_ok (argument ∷ arguments) =
    let rest = arguments_ok arguments in if has_control argument then false else rest

abbrev pub themes : List String
themes = "system" ∷ "paper" ∷ "midnight" ∷ "contrast" ∷ []

unfoldable pub terminal_ok : TerminalSettings → Bool
terminal_ok t =
    if has_control t.shell
    then false
    else if not (arguments_ok t.arguments)
    then false
    else contains themes t.theme

-- `n < low || n > high`
abbrev pub outside : ℕ → ℕ → ℤ → Bool
outside low high n = ltb_ℤ n (pos low) || ltb_ℤ (pos high) n

unfoldable pub execution_ok : ExecutionSettings → Bool
execution_ok e =
    if outside 1 50 e.max_rework_rounds
    then false
    else if outside 1 100 e.max_consecutive_failures
    then false
    else if outside 30 86400 e.step_timeout_seconds
    then false
    else if outside 1 16 e.max_concurrency
    then false
    else if outside 1 60 e.interrupt_grace_seconds
    then false
    else not (
        not (e.default_sandbox == "read-only")
        && not (e.default_sandbox == "workspace-write")
        && not (e.default_sandbox == "full"))

abbrev pub eq_ℤ : ℤ → ℤ → Bool
eq_ℤ a b = leb_ℤ a b && leb_ℤ b a

abbrev pub log_levels : List String
log_levels = "error" ∷ "warn" ∷ "info" ∷ "debug" ∷ []

unfoldable pub odd_days : ℤ → Bool
odd_days days =
    not (eq_ℤ days (pos 0))
    && not (eq_ℤ days (pos 30))
    && not (eq_ℤ days (pos 90))
    && not (eq_ℤ days (pos 180))

unfoldable pub storage_ok : StorageSettings → Bool
storage_ok s =
    if odd_days s.completed_run_retention_days
    then false
    else if not (contains log_levels s.log_level)
    then false
    else if outside 1 1024 s.log_max_size_mb
    then false
    else if outside 1 50 s.log_max_backups
    then false
    else not (outside 1 365 s.log_max_age_days)

-- `Validate`: whether it returns no error. Which of several errors it returns may depend on the order in
-- which the map is walked.
unfoldable pub validate : Settings → Bool
validate s =
    if not (eq_ℤ s.schema_version current_schema_version)
    then false
    else if ltb_ℤ s.revision (pos 1)
    then false
    else if not (runtimes_ok s.runtimes)
    then false
    else if not (terminal_ok s.terminal)
    then false
    else if not (execution_ok s.execution)
    then false
    else storage_ok s.storage

unfoldable pub harness_enabled : Settings → String → Bool
harness_enabled s id = elim (Dict.lookup id s.runtimes) [ some r ↦ r.enabled | none ↦ false ]

unfoldable pub harness_remote_fs_enabled : Settings → String → Bool
harness_remote_fs_enabled s id = elim (find_harness id) [
  | none ↦ false
  | some h ↦ if not h.supports_remote_fs then false else elim (Dict.lookup id s.runtimes) [
    | some r ↦ r.enabled && r.remote_fs_enabled
    | none ↦ false
  ]
]

unfoldable pub any_remote_fs : Settings → List Harness → Bool
any_remote_fs s [] = false
any_remote_fs s (h ∷ hs) =
    let rest = any_remote_fs s hs in if harness_remote_fs_enabled s h.id then true else rest

unfoldable pub has_remote_fs_harness : Settings → Bool
has_remote_fs_harness s = any_remote_fs s catalog

-- A harness with a choice of integration shares its own configuration.
unfoldable pub default_runtime : Harness → RuntimeSettings
default_runtime h = record {
  enabled = true;
  remote_fs_enabled = h.supports_remote_fs;
  integration = default_integration h;
  config_source = if several h.integrations then "shared" else "";
  config_path = "";
  binary = "";
  default_model = "";
  reasoning_effort = "";
  service_tier = "";
  provider = elim h.providers [ [] ↦ "" | p ∷ ps ↦ p ];
  environment_allowlist = [];
}

unfoldable pub seed : List Harness → Dict RuntimeSettings → Dict RuntimeSettings
seed [] runtimes = runtimes
seed (h ∷ hs) runtimes = seed hs (Dict.insert h.id (default_runtime h) runtimes)

unfoldable pub default_runtimes : Dict RuntimeSettings
default_runtimes = seed catalog []

unfoldable pub defaults : Settings
defaults = record {
  schema_version = current_schema_version;
  revision = pos 1;
  runtimes = default_runtimes;
  terminal = record { shell = ""; arguments = []; theme = "system" };
  execution = record {
    max_rework_rounds = pos 3;
    max_consecutive_failures = pos 3;
    step_timeout_seconds = pos 1800;
    max_concurrency = pos 4;
    interrupt_grace_seconds = pos 10;
    default_sandbox = "workspace-write";
  };
  storage = record {
    completed_run_retention_days = pos 0;
    log_level = "info";
    log_max_size_mb = pos 20;
    log_max_backups = pos 5;
    log_max_age_days = pos 14;
  };
}
