-- ===== src/Harness.antt =====
-- internal/domain/harnesses/catalog.go: the coding harnesses that the program can drive, and what
-- each of them accepts.
use onecatch.Base.{
  String, Bool, true, false, ◌||◌, List, [], ◌∷◌, map, Option, none, some, contains, find, ◌==◌,
}

pub record Harness : Type 0 where
  pub id : String
  pub name : String
  pub command : String
  pub efforts : List String
  pub providers : List String
  pub service_tiers : Bool
  pub integrations : List String
  pub environment_hint : String
  pub can_resume : Bool
  pub supports_remote_fs : Bool

abbrev pub integration_cli : String
integration_cli = "cli"

abbrev pub integration_sdk : String
integration_sdk = "sdk"

unfoldable pub default_integration : Harness → String
default_integration h = elim h.integrations [ [] ↦ integration_cli | i ∷ is ↦ i ]

unfoldable pub supports_integration : Harness → String → Bool
supports_integration h integration = contains h.integrations integration

unfoldable pub supports_effort : Harness → String → Bool
supports_effort h effort = (effort == "") || contains h.efforts effort

unfoldable pub supports_provider : Harness → String → Bool
supports_provider h provider = (provider == "") || contains h.providers provider

-- In the order in which the desktop lists them.
unfoldable pub catalog : List Harness
catalog =
    record {
      id = "codex";
      name = "Codex";
      command = "codex";
      efforts = "minimal" ∷ "low" ∷ "medium" ∷ "high" ∷ "xhigh" ∷ "max" ∷ "ultra" ∷ [];
      providers = [];
      service_tiers = true;
      integrations = integration_cli ∷ [];
      environment_hint = "OPENAI_API_KEY, HTTPS_PROXY";
      can_resume = true;
      supports_remote_fs = true;
    }
    ∷ record {
      id = "claude";
      name = "Claude Code";
      command = "claude";
      efforts = "low" ∷ "medium" ∷ "high" ∷ "xhigh" ∷ "max" ∷ [];
      providers = [];
      service_tiers = false;
      integrations = integration_cli ∷ [];
      environment_hint = "ANTHROPIC_API_KEY, HTTPS_PROXY";
      can_resume = true;
      supports_remote_fs = true;
    }
    ∷ record {
      id = "modu";
      name = "Modu Code";
      command = "modu_code";
      efforts = [];
      providers = "auto" ∷ "openai" ∷ "anthropic" ∷ "gemini" ∷ [];
      service_tiers = false;
      integrations = integration_sdk ∷ integration_cli ∷ [];
      environment_hint = "";
      can_resume = true;
      supports_remote_fs = true;
    }
    ∷ record {
      id = "pi";
      name = "Pi";
      command = "pi";
      efforts = "off" ∷ "minimal" ∷ "low" ∷ "medium" ∷ "high" ∷ "xhigh" ∷ [];
      providers = [];
      service_tiers = false;
      integrations = integration_cli ∷ [];
      environment_hint = "ANTHROPIC_API_KEY, OPENAI_API_KEY, GEMINI_API_KEY";
      can_resume = true;
      supports_remote_fs = false;
    }
    ∷ record {
      id = "grok";
      name = "Grok Build";
      command = "grok";
      efforts = "low" ∷ "medium" ∷ "high" ∷ "xhigh" ∷ [];
      providers = [];
      service_tiers = false;
      integrations = integration_cli ∷ [];
      environment_hint = "XAI_API_KEY, HTTPS_PROXY";
      can_resume = true;
      supports_remote_fs = false;
    }
    ∷ record {
      id = "trae";
      name = "TRAE CLI";
      command = "traecli";
      efforts = "minimal" ∷ "low" ∷ "medium" ∷ "high" ∷ "xhigh" ∷ "max" ∷ "ultra" ∷ [];
      providers = [];
      service_tiers = false;
      integrations = integration_cli ∷ [];
      environment_hint = "TRAE_HOME, HTTPS_PROXY";
      can_resume = true;
      supports_remote_fs = false;
    }
    ∷ record {
      id = "dsh";
      name = "DeepSeek Harness";
      command = "dsh";
      efforts = [];
      providers = "deepseek-official" ∷ "pi-ai" ∷ [];
      service_tiers = false;
      integrations = integration_cli ∷ [];
      environment_hint = "DEEPSEEK_API_KEY, HTTPS_PROXY";
      can_resume = false;
      supports_remote_fs = false;
    }
    ∷ []

-- `Find`; the source's `slices.Contains` on the fields is `contains`.
unfoldable pub find_harness : String → Option Harness
find_harness id = find (λ h. h.id == id) catalog

unfoldable pub ids : List String
ids = map (λ h. h.id) catalog

unfoldable pub is_known : String → Bool
unfolding find_harness
is_known id = elim (find_harness id) [ some h ↦ true | none ↦ false ]
