-- ===== src/Scope.antt =====
-- src/deepkeel/scope.py: who owns a run, and how an adapter that knows no scopes is used.
pub mod Laws
mod Examples
use deepkeel.Base.{
  String, Bool, not, ◌&&◌, ◌||◌, Option, none, some, Result, ok, err, if◌then◌else◌, ◌==◌,
  string_eq, List, [], ◌∷◌, ◌++◌,
}
use deepkeel.Base.Dict.{Dict, empty}
use deepkeel.Base.Text.{or_else}

pub record RuntimeScope : Type 0 where
  pub tenant_id : String
  pub user_id : String
  pub namespace : String
  pub attributes : Dict String String

-- `RuntimeScope()`, and one with a user only
abbrev pub scope_of_user : String → RuntimeScope
scope_of_user user = record {
  tenant_id = "";
  user_id = user;
  namespace = "default";
  attributes = empty;
}

abbrev pub default_scope : RuntimeScope
default_scope = scope_of_user "local-device"

unfoldable pub is_legacy_compatible : RuntimeScope → Bool
is_legacy_compatible s = s.tenant_id == "" && (s.namespace == "" || s.namespace == "default")

-- (tenant, namespace, user)
abbrev pub StorageKey : Type 0
StorageKey = String × (String × String)

-- (*scope.storage_key, run_id)
abbrev pub RunKey : Type 0
RunKey = StorageKey × String

unfoldable pub storage_key : RuntimeScope → StorageKey
storage_key s = (s.tenant_id, (or_else s.namespace "default", or_else s.user_id "local-device"))

pub data ScopeError : Type 0 where
  identity_conflict : List String → ScopeError
  scope_unsupported : ScopeError
  not_implemented : ScopeError

-- the fields that the caller gave and that differ from the scope's
conflict : String → String → String → List String
conflict field value expected =
    if not (value == "") && not (value == expected) then field ∷ [] else []

conflicts : RuntimeScope → String → String → String → List String
unfolding conflict
conflicts s tenant user namespace =
    conflict "tenant_id" tenant s.tenant_id
    ++ conflict "user_id" user s.user_id
    ++ conflict "namespace" namespace s.namespace

abbrev or_conflict : RuntimeScope → List String → Result ScopeError RuntimeScope
or_conflict s [] = ok s
or_conflict s (field ∷ fields) = err (identity_conflict (field ∷ fields))

unfoldable pub resolve_runtime_scope :
    Option RuntimeScope → String → String → String → Result ScopeError RuntimeScope
unfolding conflicts
resolve_runtime_scope (some s) tenant user namespace =
    or_conflict s (conflicts s tenant user namespace)
resolve_runtime_scope none tenant user namespace = ok (record {
  tenant_id = tenant;
  user_id = or_else user "local-device";
  namespace = or_else namespace "default";
  attributes = empty;
})

unfoldable pub require_legacy_compatible_scope : RuntimeScope → Result ScopeError String
require_legacy_compatible_scope s =
    if is_legacy_compatible s then ok s.user_id else err scope_unsupported

-- What `getattr` finds on an adapter for one operation: the scoped one, and the older one.
pub record Adapter (Operation : Type 0) : Type 0 where
  pub scoped : Option Operation
  pub legacy : Option Operation

abbrev or_legacy :
    {Operation : Type 0} → Result ScopeError String → Option Operation → Result ScopeError Operation
or_legacy (err e) _ = err e
or_legacy (ok _) none = err not_implemented
or_legacy (ok _) (some operation) = ok operation

unfoldable pub scoped_adapter_operation :
    {Operation : Type 0} → Adapter Operation → RuntimeScope → Result ScopeError Operation
unfolding require_legacy_compatible_scope
scoped_adapter_operation a s = elim a.scoped [
  | some operation ↦ ok operation
  | none ↦ or_legacy (require_legacy_compatible_scope s) a.legacy
]
