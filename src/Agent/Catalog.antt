-- ===== src/Agent/Catalog.antt =====
-- app/agent/tool_catalog.py: the default registry. The four pydantic models of the file are the
-- validations that the library makes of them, and are arguments.
use vendorops_ai.Base.{◌≡◌, refl, Option, none, some, [], ◌∷◌}
use vendorops_ai.Db.{Details}
use vendorops_ai.Agent.Tools.{
  read, write, low, high, workspace, resource, Validated, ToolDefinition, post_init,
}
use vendorops_ai.Agent.Registry.{ToolRegistry, empty_registry, register, discover, all_tools}

-- The models of the file.
pub record CatalogSchemas : Type 0 where
  pub vendor_lookup_input : Details → Validated
  pub vendor_lookup_output : Details → Validated
  pub vendor_update_input : Details → Validated
  pub vendor_update_output : Details → Validated

unfoldable pub vendor_lookup : CatalogSchemas → ToolDefinition
vendor_lookup s = record {
  name = "vendor.lookup";
  version = "1.0";
  description = "Read vendor status from an approved vendor system adapter";
  input_schema = s.vendor_lookup_input;
  output_schema = s.vendor_lookup_output;
  side_effect = read;
  risk = low;
  required_capabilities = "vendor.read" ∷ [];
  scope_level = workspace;
  resource_type = none;
}

unfoldable pub vendor_update : CatalogSchemas → ToolDefinition
vendor_update s = record {
  name = "vendor.update";
  version = "1.0";
  description = "Update vendor status through an approved vendor system adapter";
  input_schema = s.vendor_update_input;
  output_schema = s.vendor_update_output;
  side_effect = write;
  risk = high;
  required_capabilities = "vendor.write" ∷ [];
  scope_level = resource;
  resource_type = some "vendor";
}

-- A definition that its checks refuse, or a second registration, would raise.
define : ToolDefinition → Option ToolDefinition
define t = elim (post_init t) [ none ↦ some t | some e ↦ none ]

register_defined : Option ToolDefinition → Option ToolRegistry → Option ToolRegistry
register_defined none r = none
register_defined (some t) none = none
register_defined (some t) (some r) = register r t

unfoldable pub build_default_tool_registry : CatalogSchemas → Option ToolRegistry
unfolding define register_defined vendor_lookup vendor_update register post_init
build_default_tool_registry s =
    register_defined (define (vendor_update s))
      (register_defined (define (vendor_lookup s)) (some empty_registry))

-- The default registry is built without an error from any schemas, holds the two tools in the order
-- of their identities, and shows a caller who may only read vendors the lookup tool alone.
default_registry_lists :
    (s : CatalogSchemas)
    → (r : ToolRegistry) × (build_default_tool_registry s ≡ some r)
      × (all_tools r ≡ vendor_lookup s ∷ vendor_update s ∷ [])
      × (discover r ("vendor.read" ∷ []) none none ≡ vendor_lookup s ∷ [])
unfolding build_default_tool_registry all_tools discover
default_registry_lists s =
    (record { tools = vendor_lookup s ∷ vendor_update s ∷ [] }, refl, refl, refl)
