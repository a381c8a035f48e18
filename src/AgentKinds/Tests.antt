-- ===== src/AgentKinds/Tests.antt =====
-- Runs on the kinds of agents.
use devhatch.AgentKinds.{
  trae_cli, as_str, try_from, try_from_iff, find_definition-agents, AgentDefinition,
  find_definition, agents, supported,
}
use devhatch.Prelude.{◌≡◌, refl, ◌↔◌, true, none, some, nat_eq, string_eq, option_eq}

try_from_iff_example : try_from "traecli" ≡ some trae_cli ↔ as_str trae_cli ≡ "traecli"
try_from_iff_example = try_from_iff "traecli" trae_cli

find_definition-agents_example :
    (d : AgentDefinition) × (find_definition trae_cli agents ≡ some d)
    × (d.kind ≡ trae_cli)
    × (supported (as_str trae_cli) ≡ true)
find_definition-agents_example = find_definition-agents trae_cli

unsupported : try_from "claude" ≡ none
unfolding try_from
unsupported = refl
