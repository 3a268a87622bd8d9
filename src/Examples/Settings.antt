-- ===== src/Examples/Settings.antt =====
-- The theorems about settings, on the defaults.
use onecatch.Base.{true, false, some, ◌≡◌, ◌↔◌, All, refl, [], ◌∷◌, arith, String_discrete}
use onecatch.Base.Int.{pos, ◌≤ℤ◌}
use onecatch.Base.Dict
use onecatch.Harness.{
  catalog, ids, find_harness, supports_integration, supports_effort, supports_provider,
  default_integration,
}
use onecatch.Settings.{
  Settings, RuntimeSettings, current_schema_version, has_control, texts, config_ok, tier_ok,
  keys_ok, runtime_ok, runtimes_ok, arguments_ok, terminal_ok, execution_ok, odd_days, storage_ok,
  validate, harness_remote_fs_enabled, default_runtime, seed, default_runtimes, defaults,
}
use onecatch.Settings.Normalize.{normalize}
use onecatch.Settings.Switches.{normalize_keeps_switches}
use onecatch.Settings.Rules.{
  Equal, RuntimeOk, TerminalOk, ExecutionOk, StorageOk, validate_settings_iff,
  remote_fs_follows_switch,
}

defaults_accepted : validate defaults ≡ true
unfolding validate defaults default_runtimes seed default_runtime catalog ids find_harness
    Dict.insert default_integration runtimes_ok runtime_ok has_control texts config_ok
    supports_integration supports_effort tier_ok supports_provider keys_ok terminal_ok arguments_ok
    execution_ok storage_ok odd_days String_discrete
defaults_accepted = refl

validate_settings_iff_example : (validate defaults ≡ true) ↔ (
    Equal defaults.schema_version current_schema_version
    × (pos 1 ≤ℤ defaults.revision)
    × All RuntimeOk defaults.runtimes
    × TerminalOk defaults.terminal
    × ExecutionOk defaults.execution
    × StorageOk defaults.storage)
validate_settings_iff_example = validate_settings_iff defaults

abbrev claude : RuntimeSettings
claude = record {
  enabled = true;
  remote_fs_enabled = true;
  integration = "cli";
  config_source = "";
  config_path = "";
  binary = "";
  default_model = "";
  reasoning_effort = "";
  service_tier = "";
  provider = "";
  environment_allowlist = [];
}

claude_there : Dict.lookup "claude" defaults.runtimes ≡ some claude
unfolding Dict.lookup defaults default_runtimes seed default_runtime catalog Dict.insert
    default_integration String_discrete
claude_there = refl

remote_fs_follows_switch_example : harness_remote_fs_enabled defaults "claude" ≡ true
remote_fs_follows_switch_example =
    remote_fs_follows_switch defaults "claude" claude defaults_accepted claude_there

-- The second harness is switched off, and the other ones are not named.
abbrev one_off : Settings
one_off = record defaults { runtimes = ("claude", record claude { enabled = false }) ∷ [] }

off_there : Dict.lookup "claude" one_off.runtimes ≡ some (record claude { enabled = false })
unfolding Dict.lookup String_discrete
off_there = refl

one_off_current : Equal one_off.schema_version current_schema_version
unfolding defaults
one_off_current = (omega arith, omega arith)

normalize_keeps_switches_example :
    (out : Settings) × (q : RuntimeSettings) × (normalize one_off ≡ some out)
    × (Dict.lookup "claude" out.runtimes ≡ some q)
    × (q.enabled ≡ false)
    × (q.remote_fs_enabled ≡ true)
normalize_keeps_switches_example =
    normalize_keeps_switches one_off "claude" (record claude { enabled = false }) one_off_current
      off_there
