-- ===== src/Agent/Registry.antt =====
-- app/agent/tool_registry.py: ToolRegistry. The dictionary is the list of tools in the order of their
-- registration; a tool's key is its identity.
pub mod Discovery
use vendorops_ai.Base.{
  String, ◌≡◌, Bool, true, false, ◌&&◌, ◌||◌, Option, none, some, List, [], ◌∷◌, ◌++◌, str_eq,
  str_leb, elem, leb, keep_if, find_if, if◌then◌else◌, Has,
}
use vendorops_ai.Agent.Tools.{
  SideEffectClass, read, write, RiskClass, critical, ToolDefinition, identity, identity_of,
  risk_rank,
}

pub record ToolRegistry : Type 0 where
  pub tools : List ToolDefinition

abbrev pub empty_registry : ToolRegistry
empty_registry = record { tools = [] }

abbrev pub has_identity : String → ToolDefinition → Bool
has_identity key t = str_eq (identity t) key

-- self._tools[identity]; `none` is the KeyError.
unfoldable pub get_identity : ToolRegistry → String → Option ToolDefinition
get_identity r key = find_if (has_identity key) r.tools

unfoldable pub get : ToolRegistry → String → String → Option ToolDefinition
unfolding get_identity
get r name version = get_identity r (identity_of name version)

-- `none` is the ValueError of a second registration.
unfoldable pub register : ToolRegistry → ToolDefinition → Option ToolRegistry
unfolding get_identity
register r t = elim (get_identity r (identity t)) [
  | none ↦ some (record { tools = r.tools ++ t ∷ [] })
  | some u ↦ none
]

-- `required.issubset(capabilities)`
abbrev pub subset : List String → List String → Bool
subset [] held = true
subset (c ∷ cs) held = elem c held && subset cs held

abbrev same_effect : SideEffectClass → SideEffectClass → Bool
same_effect read read = true
same_effect write write = true
same_effect _ _ = false

abbrev effect_in : SideEffectClass → List SideEffectClass → Bool
effect_in e [] = false
effect_in e (f ∷ fs) = same_effect e f || effect_in e fs

-- `include_side_effects or frozenset(SideEffectClass)`: None and the empty set alike.
unfoldable pub allowed_side_effects : Option (List SideEffectClass) → List SideEffectClass
allowed_side_effects none = read ∷ write ∷ []
allowed_side_effects (some []) = read ∷ write ∷ []
allowed_side_effects (some (e ∷ es)) = e ∷ es

abbrev pub risk_limit : Option RiskClass → RiskClass
risk_limit none = critical
risk_limit (some r) = r

-- The condition of the comprehension in discover.
unfoldable pub visible :
    List String → Option (List SideEffectClass) → Option RiskClass → ToolDefinition → Bool
unfolding allowed_side_effects
visible capabilities include_side_effects max_risk t =
    subset t.required_capabilities capabilities
    && effect_in t.side_effect (allowed_side_effects include_side_effects)
    && leb (risk_rank t.risk) (risk_rank (risk_limit max_risk))

insert_tool : ToolDefinition → List ToolDefinition → List ToolDefinition
insert_tool t [] = t ∷ []
insert_tool t (u ∷ us) =
    let rest = insert_tool t us in
    if str_leb (identity t) (identity u) then t ∷ u ∷ us else u ∷ rest

-- sorted(..., key=lambda tool: tool.identity), which is stable.
unfoldable pub sort_tools : List ToolDefinition → List ToolDefinition
unfolding insert_tool
sort_tools [] = []
sort_tools (t ∷ ts) = insert_tool t (sort_tools ts)

unfoldable pub discover :
    ToolRegistry
    → List String
    → Option (List SideEffectClass)
    → Option RiskClass
    → List ToolDefinition
unfolding visible sort_tools
discover r capabilities include_side_effects max_risk =
    sort_tools (keep_if (visible capabilities include_side_effects max_risk) r.tools)

unfoldable pub all_tools : ToolRegistry → List ToolDefinition
unfolding sort_tools
all_tools r = sort_tools r.tools
