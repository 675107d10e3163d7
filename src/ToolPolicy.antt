-- ===== src/ToolPolicy.antt =====
-- gca/tool_policy.py: which tools a phase of a workflow may use; with the registry of
-- gca/tools/base.py and the phases of gca/workflows.py. A set of names is a list of names.
pub mod Capabilities
use generic_coding_agent.Prelude.{
  String, Bool, true, false, not, ◌&&◌, ◌||◌, Option, none, some, List, [], ◌∷◌, ◌++◌, map, any,
  all, keep_if, if◌then◌else◌,
}
use generic_coding_agent.Prelude.Text.{str_eq}
use generic_coding_agent.Agent.{hosted_control_tool_names}

-- The part of a tool that the policy reads.
pub record Tool : Type 0 where
  pub name : String
  pub capabilities : List String

abbrev pub holds : List String → String → Bool
holds names name = any (str_eq name) names

-- `ToolRegistry.get`
unfoldable pub get : String → List Tool → Option Tool
get name [] = none
get name (tool ∷ tools) = if str_eq tool.name name then some tool else get name tools

abbrev pub is_registered : List Tool → String → Bool
is_registered registry name = elim (get name registry) [ none ↦ false | some tool ↦ true ]

-- The assignment of `ToolRegistry.register`, for a tool that has a name.
unfoldable pub register : Tool → List Tool → List Tool
register tool [] = tool ∷ []
register tool (other ∷ tools) =
    if str_eq other.name tool.name then tool ∷ tools else other ∷ register tool tools

-- `ToolRegistry.subset`
unfoldable pub subset : List String → List Tool → List Tool
subset names registry = keep_if (λ (tool : Tool). holds names tool.name) registry

pub record FixedCommand : Type 0 where
  pub name : String
  pub phases : List String

pub record ToolPolicyConfig : Type 0 where
  pub deny : List String
  pub phases : List (String × List String)
  pub fixed_commands : List FixedCommand
  pub secret_access : List String
  pub profile : String

pub data PolicyError : Type 0 where
  conflicting_command : PolicyError
  denied_control : PolicyError
  unavailable_tools : PolicyError
  elevated_capabilities : PolicyError
  unknown_workflow : PolicyError
  unknown_phase : PolicyError

pub data Resolved (A : Type 0) : Type 0 where
  ok : A → Resolved A
  err : PolicyError → Resolved A

-- The tool that stands for a fixed command.
abbrev pub command_tool : FixedCommand → Tool
command_tool command = record { name = command.name; capabilities = "execute" ∷ [] }

unfoldable pub register_fixed_commands : List FixedCommand → List Tool → Resolved (List Tool)
register_fixed_commands [] registry = ok registry
register_fixed_commands (command ∷ commands) registry =
    let rest = register_fixed_commands commands (register (command_tool command) registry) in
    if is_registered registry command.name then err PolicyError.conflicting_command else rest

abbrev pub all_phase_names : List (String × List String) → List String
all_phase_names [] = []
all_phase_names ((phase, names) ∷ phases) = names ++ all_phase_names phases

unfoldable pub validate_tool_policy : List Tool → ToolPolicyConfig → Option PolicyError
validate_tool_policy registry config =
    if any (holds hosted_control_tool_names) config.deny
    then some PolicyError.denied_control
    else if all (is_registered registry)
        (config.deny ++ all_phase_names config.phases ++ config.secret_access)
    then none
    else some PolicyError.unavailable_tools

abbrev pub read_tools : List String
read_tools = "explore" ∷ "load_skill" ∷ "read_file" ∷ "search" ∷ []

abbrev pub review_tools : List String
review_tools = "run_command" ∷ read_tools

-- The phases of a workflow by name, each with its tools; `none` is every tool.
unfoldable pub phases_of : String → Option (List (String × Option (List String)))
phases_of workflow =
    if str_eq workflow "fast"
    then some (("execute", none) ∷ [])
    else if str_eq workflow "feature"
    then some (
        ("planning", some read_tools)
        ∷ ("implementation", none)
        ∷ ("review", some review_tools)
        ∷ [])
    else none

unfoldable pub item {ℓ} : {A : Type ℓ} → String → List (String × A) → Option A
item key [] = none
item key ((k, a) ∷ items) = if str_eq k key then some a else item key items

-- The names without an override: the phase's, or every registered one, and the phase's commands.
unfoldable pub default_names :
    List Tool → ToolPolicyConfig → String → String → Resolved (List String)
default_names registry config phase workflow = elim (phases_of workflow) [
  | none ↦ err PolicyError.unknown_workflow
  | some phases ↦ elim (item phase phases) [
    | none ↦ err PolicyError.unknown_phase
    | some allowed ↦ ok (
        (elim allowed [ none ↦ map (λ (tool : Tool). tool.name) registry | some names ↦ names ])
        ++ map (λ (c : FixedCommand). c.name)
            (keep_if (λ (c : FixedCommand). holds c.phases phase) config.fixed_commands))
  ]
]

abbrev pub read_only_capabilities : List String
read_only_capabilities = "control" ∷ "knowledge" ∷ "read_external" ∷ "read_fs" ∷ []

abbrev pub review_capabilities : List String
review_capabilities = "execute" ∷ read_only_capabilities

unfoldable pub capability_limit : String → Option (List String)
capability_limit phase =
    if str_eq phase "planning"
    then some read_only_capabilities
    else if str_eq phase "review"
    then some review_capabilities
    else none

-- The capabilities are some, and within the limit.
unfoldable pub is_within : List String → List String → Bool
is_within limit [] = false
is_within limit (c ∷ capabilities) = all (holds limit) (c ∷ capabilities)

unfoldable pub is_forbidden : List String → List Tool → String → Bool
is_forbidden limit registry name = elim (get name registry) [
  | none ↦ false
  | some tool ↦ not (is_within limit tool.capabilities)
]

-- Denied names go, and the shell in a hosted run unless the override lists it; the control tools stay.
unfoldable pub adjusted : List Tool → ToolPolicyConfig → Bool → List String → List String
adjusted registry config shell names =
    keep_if
      (λ n.
        not (holds config.deny n)
        && not (str_eq config.profile "hosted" && not shell && str_eq n "run_command"))
      names
    ++ "finish" ∷ keep_if (is_registered registry) hosted_control_tool_names

-- The capability limit, and the names that are registered.
unfoldable pub limited : List Tool → String → List String → Resolved (List String)
limited registry phase names = elim (capability_limit phase) [
  | none ↦ ok (keep_if (is_registered registry) names)
  | some limit ↦
      if any (is_forbidden limit registry) names
      then err PolicyError.elevated_capabilities
      else ok (keep_if (is_registered registry) names)
]

unfoldable pub tool_names_for_phase :
    List Tool → ToolPolicyConfig → String → String → Resolved (List String)
tool_names_for_phase registry config phase workflow = elim (validate_tool_policy registry config) [
  | some e ↦ err e
  | none ↦ elim (item phase config.phases) [
    | some override ↦
        limited registry phase (adjusted registry config (holds override "run_command") override)
    | none ↦ elim (default_names registry config phase workflow) [
      | err e ↦ err e
      | ok names ↦ limited registry phase (adjusted registry config false names)
    ]
  ]
]
