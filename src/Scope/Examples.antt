-- ===== src/Scope/Examples.antt =====
-- Each theorem of `Scope.Laws` at a concrete input.
use deepkeel.Base.{ℕ, ◌≡◌, ◌⊎◌, refl, none, some, err, string_eq}
use deepkeel.Scope.{
  RuntimeScope, Adapter, is_legacy_compatible, default_scope, scoped_adapter_operation,
  scope_unsupported,
}
use deepkeel.Scope.Laws.{scoped_only}

abbrev tenant_scope : RuntimeScope
tenant_scope = record default_scope { tenant_id = "acme" }

-- an adapter from before there were scopes
abbrev older : Adapter ℕ
older = record { scoped = none; legacy = some 2 }

-- it serves no tenant
tenant_test : scoped_adapter_operation older tenant_scope ≡ err scope_unsupported
unfolding scoped_adapter_operation is_legacy_compatible
tenant_test = refl

scoped_only_example :
    (older.scoped ≡ some 2)
    ⊎ ((older.scoped ≡ none)
        × (older.legacy ≡ some 2)
        × (default_scope.tenant_id ≡ "")
        × ((default_scope.namespace ≡ "") ⊎ (default_scope.namespace ≡ "default")))
unfolding scoped_adapter_operation is_legacy_compatible
scoped_only_example = scoped_only older default_scope 2 refl
