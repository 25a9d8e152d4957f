-- ===== src/ControlPlane/Required.antt =====
-- Which secret kinds a binding lacks: _resolve_latest_valid_secret_for_anchor and
-- _required_secret_validation_detail of backend/src/postbase/control_plane/service.py.
use Prim.Native.String.{compare}
use Prim.Native.Nat.{Ordering}
use Prim.Native.String.{◌++◌ as concat}
use post_base.Base.{
  Bool, List, Option, String, [], contains, false, get_row, if◌then◌else◌, keep_if, ltb, nat_eq,
  none, not, option_eq, or_default, some, string_eq, true, ℕ, ◌&&◌, ◌==◌, ◌||◌, ◌∷◌,
}
use post_base.Domain.Enums.{
  SecretStatus, binding_status_eq, capability_key_eq, certification_approval_state_eq,
  certification_test_status_eq, environment_stage_eq, environment_status_eq, migration_status_eq,
  policy_mode_eq, readiness_state_eq, secret_status_eq, switchover_status_eq, tenant_role_eq,
}
use post_base.Domain.Models.{
  BindingSecretRef, ProviderCatalogEntry, SecretRef, audit_log_row, binding_row, binding_secret_row,
  capability_type_row, catalog_row, environment_row, project_row, secret_ref_row, tenant_member_row,
}
use post_base.Platform.Session.{Db}

-- `sorted(set(xs))`
insert_sorted : String → List String → List String
insert_sorted x [] = x ∷ []
insert_sorted x (y ∷ ys) = elim (compare x y) [
  | Ordering.lt ↦ x ∷ y ∷ ys
  | Ordering.eq ↦ y ∷ ys
  | Ordering.gt ↦ y ∷ insert_sorted x ys
]

unfoldable pub sorted_set : List String → List String
unfolding insert_sorted
sorted_set [] = []
sorted_set (x ∷ xs) = insert_sorted x (sorted_set xs)

-- `sorted(set(xs) - set(ys))`
unfoldable pub sorted_difference : List String → List String → List String
unfolding sorted_set keep_if
sorted_difference xs ys = sorted_set (keep_if (λ x. not (contains x ys)) xs)

-- `", ".join(xs)`
unfoldable pub join : List String → String
join [] = ""
join (x ∷ []) = x
join (x ∷ y ∷ ys) = concat x (concat ", " (join (y ∷ ys)))

unfoldable pub is_unexpired : ℕ → SecretRef → Bool
is_unexpired now x = elim x.expires_at [ none ↦ true | some t ↦ ltb now t ]

-- The `where` clause of the query.
unfoldable pub is_valid_for : ℕ → SecretRef → SecretRef → Bool
unfolding is_unexpired
is_valid_for now anchor x =
    x.environment_id == anchor.environment_id
    && (x.name == anchor.name
        && (x.provider_key == anchor.provider_key
            && (x.secret_kind == anchor.secret_kind
                && (x.status == SecretStatus.active && is_unexpired now x))))

-- The `order_by` clause: does `x` stand strictly before `y`?
unfoldable pub precedes : SecretRef → SecretRef → Bool
precedes x y =
    if x.is_active_version
    then (if y.is_active_version then newer x y else true)
    else (if y.is_active_version then false else newer x y)
  where
    newer : SecretRef → SecretRef → Bool
    newer a b = ltb b.version a.version || (a.version == b.version && ltb b.updated_at a.updated_at)

-- `.order_by(...).first()` over the rows that pass the test.
unfoldable pub first_in_order : List SecretRef → Option SecretRef
unfolding precedes
first_in_order [] = none
first_in_order (x ∷ xs) = elim (first_in_order xs) [
  | none ↦ some x
  | some y ↦ if precedes y x then some y else some x
]

unfoldable pub resolve_latest_valid_secret_for_anchor :
    ℕ → List SecretRef → SecretRef → Option SecretRef
unfolding first_in_order is_valid_for keep_if
resolve_latest_valid_secret_for_anchor now secrets anchor =
    first_in_order (keep_if (is_valid_for now anchor) secrets)

-- The secrets that are linked to a binding.
unfoldable pub anchor_secrets : ℕ → List SecretRef → List BindingSecretRef → List SecretRef
unfolding get_row
anchor_secrets binding_id secrets [] = []
anchor_secrets binding_id secrets (l ∷ ls) =
    let rest = anchor_secrets binding_id secrets ls in
    if l.binding_id == binding_id
    then elim (get_row l.secret_ref_id secrets) [ none ↦ rest | some x ↦ x ∷ rest ]
    else rest

-- The keys of `resolved_by_kind`.
unfoldable pub resolved_kinds : ℕ → List SecretRef → List SecretRef → List String
unfolding resolve_latest_valid_secret_for_anchor
resolved_kinds now secrets [] = []
resolved_kinds now secrets (anchor ∷ anchors) =
    let rest = resolved_kinds now secrets anchors in
    elim (resolve_latest_valid_secret_for_anchor now secrets anchor) [
      | none ↦ rest
      | some x ↦ x.secret_kind ∷ rest
    ]

unfoldable pub required_secret_validation_detail :
    ℕ → ProviderCatalogEntry → ℕ → Db → List String × String
unfolding sorted_difference resolved_kinds anchor_secrets join
required_secret_validation_detail binding_id provider now d =
    let anchors = anchor_secrets binding_id d.secrets d.binding_secrets in
    let missing =
      sorted_difference (or_default provider.required_secret_kinds [])
        (resolved_kinds now d.secrets anchors) in
    (missing, join missing)
