-- ===== src/Scope/Laws.antt =====
-- What scope.py promises: ownership is never widened silently.
use deepkeel.Base.{
  String, ◌≡◌, refl, Bool-cases, Option-cases, ◌⊎◌, none, some, ok, arith, inl, inr, eq_iff,
  string_eq, List, [], ◌∷◌, ◌++◌, ◌==◌,
}
use deepkeel.Base.Text.{or_else}
use deepkeel.Scope.{
  RuntimeScope, is_legacy_compatible, resolve_runtime_scope, Adapter, scoped_adapter_operation,
  conflict, conflicts, or_conflict,
}

-- Whatever operation of an adapter is returned for a scope, it is the adapter's scoped one; or the adapter
-- has none, it is the unscoped one, and the scope names no tenant and no namespace but the default.
pub scoped_only :
    {Operation : Type 0} (a : Adapter Operation) (s : RuntimeScope) (operation : Operation)
    → scoped_adapter_operation a s ≡ ok operation
    → (a.scoped ≡ some operation)
      ⊎ ((a.scoped ≡ none)
          × (a.legacy ≡ some operation)
          × (s.tenant_id ≡ "")
          × ((s.namespace ≡ "") ⊎ (s.namespace ≡ "default")))
unfolding scoped_adapter_operation is_legacy_compatible
scoped_only a s operation e = elim (Option-cases a.scoped) [
  | inr (own, f) ↦ inl (ground (arith, e, f))
  | inl f ↦ inr (
    f,
    ground (arith, e, f),
    ground (arith, e, f, eq_iff s.tenant_id ""),
    elim (Bool-cases (s.namespace == "")) [
      | inl b ↦ inl ((eq_iff s.namespace "").0 b)
      | inr b ↦ inr (ground (arith, e, f, b, eq_iff s.namespace "default"))
    ],
  )
]

or_else_self : (e : String) → or_else e e ≡ e
or_else_self String.[] = refl
or_else_self (String.◌∷◌ c s) = refl

conflict-nil : (field v e : String) → conflict field v e ≡ [] → or_else v e ≡ e
unfolding conflict
conflict-nil field v e h = elim (Bool-cases (v == "")) [
  | inl blank ↦ rw ((eq_iff v "").0 blank)
  | inr given ↦ elim (Bool-cases (v == e)) [
    | inl same ↦ rw ((eq_iff v e).0 same) (or_else_self e)
    | inr other ↦ ground arith
  ]
]

no_conflict :
    (s : RuntimeScope) (xs ys zs : List String) {r : RuntimeScope}
    → or_conflict s (xs ++ ys ++ zs) ≡ ok r
    → (r ≡ s) × (xs ≡ []) × (ys ≡ []) × (zs ≡ [])
no_conflict s [] [] [] h = ground arith
no_conflict s [] [] (z ∷ zs) h = cc
no_conflict s [] (y ∷ ys) zs h = cc
no_conflict s (x ∷ xs) ys zs h = cc

-- A given scope is returned as it is, and only where each identity field that the caller also
-- gave, if it is not blank, is the scope's own.
pub resolve_given_scope :
    (s : RuntimeScope) (tenant user namespace : String) {r : RuntimeScope}
    → resolve_runtime_scope (some s) tenant user namespace ≡ ok r
    → (r ≡ s)
      × (or_else tenant s.tenant_id ≡ s.tenant_id)
      × (or_else user s.user_id ≡ s.user_id)
      × (or_else namespace s.namespace ≡ s.namespace)
unfolding resolve_runtime_scope conflicts
resolve_given_scope s tenant user namespace h =
    let (same, t, u, n) = no_conflict s _ _ _ h in
    (
      same,
      conflict-nil "tenant_id" tenant s.tenant_id t,
      conflict-nil "user_id" user s.user_id u,
      conflict-nil "namespace" namespace s.namespace n,
    )
