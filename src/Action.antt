-- ===== src/Action.antt =====
-- internal/action/action.go: the registry of actions, whose keys ignore ASCII case.
pub mod Registry
use outlook_agent.Prelude.{Bool, Option, String, [], false, if◌then◌else◌, none, some, true, ◌++ˢ◌}
use outlook_agent.Prelude.Text.{to_lower}
use outlook_agent.Policy.{SafetyClass, unknown}
use outlook_agent.Table
use outlook_agent.Table.{Table, insert}

pub data CoverageLevel : Type 0 where
  discovered raw_guarded_execution dry_run_summary typed_schema : CoverageLevel
  high_level_mcp_tool workflow_skill_guidance : CoverageLevel

pub record Definition : Type 0 where
  pub name : String
  pub transport : String
  pub description : String
  pub class : SafetyClass
  pub level : CoverageLevel

abbrev pub Actions : Type 0
Actions = Table Definition

-- NewRegistry
abbrev pub new_registry : Actions
new_registry = []

unfoldable pub registry_key : String → String → String
unfolding to_lower
registry_key transport name = to_lower transport ++ˢ "\0" ++ˢ to_lower name

abbrev pub has {ℓ} : {A : Type ℓ} → Option A → Bool
has none = false
has (some a) = true

-- `false` is the error "action already registered"
unfoldable pub register : Definition → Actions → Actions × Bool
register d actions =
    let key = registry_key d.transport d.name in
    if has (Table.lookup key actions) then (actions, false) else (Table.insert key d actions, true)

abbrev found_or_unknown : String → String → Option Definition → Definition × Bool
found_or_unknown transport name (some d) = (d, true)
found_or_unknown transport name none = (
  record {
    name = name;
    transport = transport;
    description = "";
    class = unknown;
    level = discovered;
  },
  false,
)

unfoldable pub lookup : String → String → Actions → Definition × Bool
lookup transport name actions =
    found_or_unknown transport name (Table.lookup (registry_key transport name) actions)
