-- ===== src/ToolRegistry/Laws.antt =====
-- Registering and unregistering tools.
use deepkeel.Base.{
  String, ◌≡◌, ◌≢◌, ◌⊎◌, refl, sym, Bool, true, false, inl, inr, none, Option-cases, ok, err, ◌==◌,
  string_eq, arith, beq_refl, beq_ne,
}
use deepkeel.Base.Dict.{get, put, get-put, get-remove}
use deepkeel.ToolRegistry.{ToolSpec, Tools, key_error, get_tool, register, unregister}

module _ {Any Details : Type 0} where
  -- Registering a tool that is not refused needs that its name is free or that it is to replace; then
  -- its name finds it, every other name finds what it did, and unregistering it leaves its name free
  -- and every other name as before.
  pub register_lem :
      (tool : ToolSpec Any Details) (replace : Bool) (self self' : Tools Any Details)
      (name : String)
      → name ≢ tool.name
      → register tool replace self ≡ ok self'
      → ((replace ≡ true) ⊎ (get self tool.name ≡ none))
        × (get_tool self' tool.name ≡ ok tool)
        × (get_tool self' name ≡ get_tool self name)
        × (get_tool (unregister tool.name self') tool.name ≡ err (key_error tool.name))
        × (get_tool (unregister tool.name self') name ≡ get_tool self name)
  unfolding register get_tool unregister
  register_lem tool replace self self' name differs h =
      let written : self' ≡ put self tool.name tool = ground (arith, h) in
      let here : (tool.name == tool.name) ≡ true = beq_refl tool.name in
      let other : (tool.name == name) ≡ false =
        beq_ne (λ (e : tool.name ≡ name). differs (sym e)) in
      (
        elim (Option-cases (get self tool.name)) [
          | inl e ↦ inr e
          | inr (found, e) ↦ inl (ground (arith, h, e))
        ],
        rw (written, get-put, here) refl,
        rw (written, get-put, other) refl,
        rw (written, get-remove, here) refl,
        rw (written, get-remove, other) (rw (get-put, other) refl),
      )
