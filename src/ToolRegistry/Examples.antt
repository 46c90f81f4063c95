-- ===== src/ToolRegistry/Examples.antt =====
-- The theorems on the registry at a concrete input.
use deepkeel.Base.{
  String, ◌≡◌, ◌⊎◌, refl, ne_of_beq, true, false, none, Result, ok, err, [], ◌∷◌, string_eq,
}
use deepkeel.Base.Dict.{get, put, empty}
use deepkeel.ToolRegistry.{
  ToolSpec, Tools, baseline, register, get_tool, unregister, already_registered, key_error,
  RegistryError, new_registry, registry_from,
}
use deepkeel.ToolRegistry.Laws.{register_lem}

abbrev clock_tool : ToolSpec String String
clock_tool = record {
  name = "clock";
  description = "";
  requires_user_action = false;
  read_only = true;
  async_tool = false;
  parallel_safe = true;
  runtime_policy = empty;
  exposure_mode = baseline;
  discovery_tags = [];
  details = "";
}

abbrev no_tools : Tools String String
no_tools = empty

abbrev clock_registry : Tools String String
clock_registry = new_registry (clock_tool ∷ [])

abbrev other_name : String
other_name = "search"

-- the call, with what it calls open
registers : Tools String String → Result RegistryError (Tools String String)
unfolding register new_registry registry_from get put empty
registers = register clock_tool false

-- a name that is taken is refused
refused : registers clock_registry ≡ err (already_registered "clock")
unfolding registers
refused = refl

register_lem_example :
    ((false ≡ true) ⊎ (get no_tools "clock" ≡ none))
    × (get_tool clock_registry "clock" ≡ ok clock_tool)
    × (get_tool clock_registry other_name ≡ get_tool no_tools other_name)
    × (get_tool (unregister "clock" clock_registry) "clock" ≡ err (key_error "clock"))
    × (get_tool (unregister "clock" clock_registry) other_name ≡ get_tool no_tools other_name)
unfolding registers
register_lem_example =
    register_lem clock_tool false no_tools clock_registry other_name (ne_of_beq refl) refl
