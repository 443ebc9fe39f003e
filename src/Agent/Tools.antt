-- ===== src/Agent/Tools.antt =====
-- app/agent/tool_registry.py: the enumerations and ToolDefinition. A payload is a dictionary of named
-- values; a schema is its pydantic validation, a function that the tool is given.
use vendorops_ai.Base.{
  ℕ, String, Bool, true, false, not, ◌&&◌, Option, none, some, List, str_eq, str_append, is_blank,
  if◌then◌else◌,
}
use vendorops_ai.Db.{Details}

pub data SideEffectClass : Type 0 where
  read write : SideEffectClass

pub data RiskClass : Type 0 where
  low medium high critical : RiskClass

pub data ScopeLevel : Type 0 where
  tenant workspace resource : ScopeLevel

-- What `model_validate` gives: the dumped model, or the text of its ValidationError.
pub data Validated : Type 0 where
  valid : Details → Validated
  invalid : String → Validated

pub record ToolDefinition : Type 0 where
  pub name : String
  pub version : String
  pub description : String
  pub input_schema : Details → Validated
  pub output_schema : Details → Validated
  pub side_effect : SideEffectClass
  pub risk : RiskClass
  pub required_capabilities : List String
  pub scope_level : ScopeLevel
  pub resource_type : Option String

pub data DefinitionError : Type 0 where
  empty_name empty_version missing_resource_type unexpected_resource_type : DefinitionError

abbrev pub is_resource : ScopeLevel → Bool
is_resource tenant = false
is_resource workspace = false
is_resource resource = true

-- `not text` for a text that may be None.
abbrev pub is_missing : Option String → Bool
is_missing none = true
is_missing (some s) = str_eq s ""

abbrev is_none : Option String → Bool
is_none none = true
is_none (some s) = false

-- __post_init__: the first check that fails, if any.
unfoldable pub post_init : ToolDefinition → Option DefinitionError
unfolding is_blank
post_init t =
    if is_blank t.name
    then some empty_name
    else if is_blank t.version
    then some empty_version
    else if is_resource t.scope_level && is_missing t.resource_type
    then some missing_resource_type
    else if not (is_resource t.scope_level) && not (is_none t.resource_type)
    then some unexpected_resource_type
    else none

-- f"{name}@{version}"
abbrev pub identity_of : String → String → String
identity_of name version = str_append name (str_append "@" version)

abbrev pub identity : ToolDefinition → String
identity t = identity_of t.name t.version

unfoldable pub validate_input : ToolDefinition → Details → Validated
validate_input t payload = t.input_schema payload

unfoldable pub validate_output : ToolDefinition → Details → Validated
validate_output t payload = t.output_schema payload

-- The table of ranks, which the registry and the gate both hold.
abbrev pub risk_rank : RiskClass → ℕ
risk_rank low = 0
risk_rank medium = 1
risk_rank high = 2
risk_rank critical = 3
