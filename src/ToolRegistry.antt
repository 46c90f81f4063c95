-- ===== src/ToolRegistry.antt =====
-- src/deepkeel/tool_registry.py: the tools that a runtime offers, by their names.
pub mod Laws
mod Examples
use deepkeel.Base.{
  String, Bool, true, false, not, ◌&&◌, Option, none, some, Result, ok, err, List, [], ◌∷◌, map,
  if◌then◌else◌, string_eq,
}
use deepkeel.Base.Dict.{Dict, empty, get, put, remove}

pub data RegistryError : Type 0 where
  key_error : String → RegistryError
  already_registered : String → RegistryError

-- ToolSpec.exposure_mode
pub data ExposureMode : Type 0 where
  baseline : ExposureMode
  discoverable : ExposureMode
  skill_entry : ExposureMode
  skill_only : ExposureMode
  internal : ExposureMode

-- ToolSpec. The schemas, examples and contracts, which no operation here reads, are `details`.
pub record ToolSpec (Any Details : Type 0) : Type 0 where
  pub name : String
  pub description : String
  pub requires_user_action : Bool
  pub read_only : Bool
  pub async_tool : Bool
  pub parallel_safe : Bool
  pub runtime_policy : Dict String Any
  pub exposure_mode : ExposureMode
  pub discovery_tags : List String
  pub details : Details

abbrev pub Tools : Type 0 → Type 0 → Type 0
Tools Any Details = Dict String (ToolSpec Any Details)

module _ {Any Details : Type 0} where
  -- {tool.name: tool for tool in tools}
  unfoldable pub registry_from : Tools Any Details → List (ToolSpec Any Details) → Tools Any Details
  registry_from tools [] = tools
  registry_from tools (tool ∷ rest) = registry_from (put tools tool.name tool) rest

  -- ToolRegistry(tools)
  unfoldable pub new_registry : List (ToolSpec Any Details) → Tools Any Details
  unfolding registry_from
  new_registry tools = registry_from empty tools

  unfoldable pub list_tools : Tools Any Details → List (ToolSpec Any Details)
  list_tools self = map (λ entry. entry.1) self.entries

  abbrev pub or_key_error :
      String → Option (ToolSpec Any Details) → Result RegistryError (ToolSpec Any Details)
  or_key_error name none = err (key_error name)
  or_key_error name (some tool) = ok tool

  unfoldable pub get_tool : Tools Any Details → String → Result RegistryError (ToolSpec Any Details)
  get_tool self name = or_key_error name (get self name)

  abbrev pub is_taken : Option (ToolSpec Any Details) → Bool
  is_taken none = false
  is_taken (some tool) = true

  unfoldable pub register :
      ToolSpec Any Details → Bool → Tools Any Details → Result RegistryError (Tools Any Details)
  register tool replace self =
      if is_taken (get self tool.name) && not replace
      then err (already_registered tool.name)
      else ok (put self tool.name tool)

  unfoldable pub unregister : String → Tools Any Details → Tools Any Details
  unregister name self = remove self name
