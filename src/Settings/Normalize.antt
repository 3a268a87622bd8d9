-- ===== src/Settings/Normalize.antt =====
-- internal/domain/settings/model.go: Normalize. A map that is nil and one that is empty come to the same,
-- since both are filled up from the defaults.
use mathlib.Core.Option
use Prim.Native.String.{String}
use Prim.Native.String.{[] as nil_text, ◌∷◌ as ◌:::◌}
use onecatch.Base.{
  true, false, not, ◌&&◌, Option, none, some, List, [], ◌∷◌, contains, ◌==◌, if◌then◌else◌,
  trim_space, to_lower, lower_from,
}
use onecatch.Base.Int.{ℤ, pos, ltb_ℤ, is_zero}
use onecatch.Base.Dict
use onecatch.Base.Dict.{Dict}
use onecatch.Collector.{sort_texts}
use onecatch.Harness.{Harness, catalog, ids, default_integration}
use onecatch.Settings.{
  RuntimeSettings, TerminalSettings, ExecutionSettings, StorageSettings, Settings,
  current_schema_version, harness_of, several, defaults,
}

-- `strings.ToUpper` on ASCII letters and on the two other characters whose upper case is ASCII (U+0131 and
-- U+017F). The other case pairs are left as they are: Validate refuses a key that is not ASCII.
unfoldable pub to_upper : String → String
to_upper nil_text = nil_text
to_upper (c ::: s) =
    lower_from "abcdefghijklmnopqrstuvwxyzıſ" "ABCDEFGHIJKLMNOPQRSTUVWXYZIS" c ::: to_upper s

-- The keys that are neither empty nor `seen`.
unfoldable pub fresh_keys : List String → List String → List String
fresh_keys seen [] = []
fresh_keys seen (raw ∷ keys) =
    let key = to_upper (trim_space raw) in
    let fresh = not (key == "") && not (contains seen key) in
    let rest = fresh_keys (if fresh then key ∷ seen else seen) keys in
    if fresh then key ∷ rest else rest

unfoldable pub normalize_keys : List String → List String
normalize_keys keys = sort_texts (fresh_keys [] keys)

abbrev plain : String → String
plain text = to_lower (trim_space text)

abbrev or_text : String → String → String
or_text text default = if text == "" then default else text

unfoldable pub normalize_runtime : String → RuntimeSettings → RuntimeSettings
normalize_runtime id r = record r {
  integration = or_text (plain r.integration) (default_integration (harness_of id));
  config_source =
      if (plain r.config_source == "") && several (harness_of id).integrations
      then "shared"
      else plain r.config_source;
  config_path = trim_space r.config_path;
  binary = trim_space r.binary;
  default_model = trim_space r.default_model;
  reasoning_effort = plain r.reasoning_effort;
  service_tier = plain r.service_tier;
  provider = plain r.provider;
  environment_allowlist = normalize_keys r.environment_allowlist;
}

unfoldable pub normalize_runtimes : Dict RuntimeSettings → Dict RuntimeSettings
normalize_runtimes [] = []
normalize_runtimes ((id, r) ∷ rs) = (id, normalize_runtime id r) ∷ normalize_runtimes rs

-- The runtime that a missing key stands for.
abbrev no_runtime : RuntimeSettings
no_runtime = record {
  enabled = false;
  remote_fs_enabled = false;
  integration = "";
  config_source = "";
  config_path = "";
  binary = "";
  default_model = "";
  reasoning_effort = "";
  service_tier = "";
  provider = "";
  environment_allowlist = [];
}

-- `runtimes[id]`
abbrev pub runtime_at : Dict RuntimeSettings → String → RuntimeSettings
runtime_at runtimes id = Option.get_or (Dict.lookup id runtimes) no_runtime

-- `if _, ok := runtimes[id]; !ok { runtimes[id] = defaults[id] }`
unfoldable pub fill_one :
    Dict RuntimeSettings → String → Dict RuntimeSettings → Dict RuntimeSettings
fill_one given id runtimes = elim (Dict.lookup id runtimes) [
  | some r ↦ runtimes
  | none ↦ Dict.insert id (runtime_at given id) runtimes
]

unfoldable pub fill :
    Dict RuntimeSettings → List String → Dict RuntimeSettings → Dict RuntimeSettings
fill given [] runtimes = runtimes
fill given (id ∷ rest) runtimes = fill given rest (fill_one given id runtimes)

-- The first version had no switches.
unfoldable pub switch_on : List Harness → Dict RuntimeSettings → Dict RuntimeSettings
switch_on [] runtimes = runtimes
switch_on (h ∷ hs) runtimes =
    let r = runtime_at runtimes h.id in
    switch_on hs (
      Dict.insert h.id (record r { enabled = true; remote_fs_enabled = h.supports_remote_fs })
        runtimes)

abbrev kept_arguments : List String → List String
kept_arguments [] = []
kept_arguments (a ∷ more) =
    let rest = kept_arguments more in if trim_space a == "" then rest else trim_space a ∷ rest

unfoldable pub normalize_terminal : TerminalSettings → TerminalSettings
normalize_terminal t = record {
  shell = trim_space t.shell;
  arguments = kept_arguments t.arguments;
  theme = or_text (plain t.theme) defaults.terminal.theme;
}

abbrev or_number : ℤ → ℤ → ℤ
or_number n default = if is_zero n then default else n

unfoldable pub normalize_execution : ExecutionSettings → ExecutionSettings
normalize_execution e =
    let given = defaults.execution in
    record {
      max_rework_rounds = or_number e.max_rework_rounds given.max_rework_rounds;
      max_consecutive_failures =
          or_number e.max_consecutive_failures given.max_consecutive_failures;
      step_timeout_seconds = or_number e.step_timeout_seconds given.step_timeout_seconds;
      max_concurrency = or_number e.max_concurrency given.max_concurrency;
      interrupt_grace_seconds = or_number e.interrupt_grace_seconds given.interrupt_grace_seconds;
      default_sandbox = or_text e.default_sandbox given.default_sandbox;
    }

unfoldable pub normalize_storage : StorageSettings → StorageSettings
normalize_storage s =
    let given = defaults.storage in
    record s {
      log_level = or_text s.log_level given.log_level;
      log_max_size_mb = or_number s.log_max_size_mb given.log_max_size_mb;
      log_max_backups = or_number s.log_max_backups given.log_max_backups;
      log_max_age_days = or_number s.log_max_age_days given.log_max_age_days;
    }

unfoldable pub source_version : Settings → ℤ
source_version s = if is_zero s.schema_version then pos 1 else s.schema_version

unfoldable pub switched : Settings → Dict RuntimeSettings
switched s =
    let filled = fill defaults.runtimes ids s.runtimes in
    if ltb_ℤ (source_version s) (pos 2) then switch_on catalog filled else filled

abbrev pub normal : Settings → Settings
normal s = record {
  schema_version = current_schema_version;
  revision = if ltb_ℤ s.revision (pos 1) then pos 1 else s.revision;
  runtimes = normalize_runtimes (switched s);
  terminal = normalize_terminal s.terminal;
  execution = normalize_execution s.execution;
  storage = normalize_storage s.storage;
}

unfoldable pub normalize : Settings → Option Settings
normalize s = if ltb_ℤ current_schema_version s.schema_version then none else some (normal s)
