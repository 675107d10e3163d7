-- ===== src/Tests/Phases.antt =====
-- A registry of a reading tool, the shell and the control tool.
use generic_coding_agent.Prelude.{◌≡◌, refl, true, List, [], ◌∷◌, inl}
use generic_coding_agent.ToolPolicy.{
  Tool, ToolPolicyConfig, get, is_within, tool_names_for_phase, validate_tool_policy, item,
  default_names, phases_of, adjusted, limited, capability_limit, is_forbidden,
}
use generic_coding_agent.ToolPolicy.Capabilities.{tool_names_for_phase-is_within}

abbrev read_file : Tool
read_file = record { name = "read_file"; capabilities = "read_fs" ∷ [] }

abbrev registry : List Tool
registry =
    read_file
    ∷ record { name = "run_command"; capabilities = "execute" ∷ [] }
    ∷ record { name = "finish"; capabilities = "control" ∷ [] }
    ∷ []

abbrev config : ToolPolicyConfig
config = record {
  deny = [];
  phases = [];
  fixed_commands = [];
  secret_access = [];
  profile = "hosted";
}

tool_names_for_phase-is_within_example :
    is_within ("control" ∷ "knowledge" ∷ "read_external" ∷ "read_fs" ∷ []) read_file.capabilities
    ≡ true
unfolding tool_names_for_phase validate_tool_policy item default_names phases_of adjusted limited
    capability_limit is_forbidden is_within get
tool_names_for_phase-is_within_example =
    tool_names_for_phase-is_within registry config "planning" "feature"
      ("read_file" ∷ "finish" ∷ "finish" ∷ [])
      ("control" ∷ "knowledge" ∷ "read_external" ∷ "read_fs" ∷ []) "read_file" read_file refl refl
      (inl refl) refl
