-- ===== src/Platform/Registry.antt =====
-- backend/src/postbase/platform/registry.py and contracts.py: the in-process table of provider
-- factories. What a factory builds is seen through the two calls that the protocol ProviderAdapter
-- names; `health` asks a remote service, so its answer is part of the adapter's value.
use post_base.Base.{
  Bool, List, Option, String, [], if◌then◌else◌, nat_eq, none, option_eq, some, string_eq, ℕ, ◌&&◌,
  ◌==◌, ◌∷◌,
}
use post_base.Domain.Enums.{
  CapabilityKey, binding_status_eq, capability_key_eq, certification_approval_state_eq,
  certification_test_status_eq, environment_stage_eq, environment_status_eq, migration_status_eq,
  policy_mode_eq, readiness_state_eq, secret_status_eq, switchover_status_eq, tenant_role_eq,
}
use post_base.Platform.Errors.{resolution_error}
use post_base.Platform.Exec.{Exec, require}
use post_base.Platform.Session.{Session}

-- `max_signed_url_ttl_seconds` is the entry of `limits` that the control plane reads.
pub record CapabilityProfile : Type 0 where
  pub provider_key : String
  pub supported_operations : List String
  pub supported_regions : List String
  pub max_signed_url_ttl_seconds : Option ℕ

pub record ProviderHealth : Type 0 where
  pub ready : Bool
  pub detail : String

pub record ProviderAdapter : Type 0 where
  pub profile : CapabilityProfile
  pub health : ProviderHealth

abbrev pub ProviderRegistry : Type 0
ProviderRegistry = List (CapabilityKey × String × ProviderAdapter)

unfoldable pub register :
    CapabilityKey → String → ProviderAdapter → ProviderRegistry → ProviderRegistry
register capability provider_key adapter [] = (capability, provider_key, adapter) ∷ []
register capability provider_key adapter ((c, p, a) ∷ rest) =
    if c == capability && p == provider_key
    then (c, p, adapter) ∷ rest
    else (c, p, a) ∷ register capability provider_key adapter rest

unfoldable pub find_factory : ProviderRegistry → CapabilityKey → String → Option ProviderAdapter
find_factory [] capability provider_key = none
find_factory ((c, p, a) ∷ rest) capability provider_key =
    if c == capability && p == provider_key
    then some a
    else find_factory rest capability provider_key

unfoldable pub resolve : ProviderRegistry → CapabilityKey → String → Exec Session ProviderAdapter
resolve registry capability provider_key =
    require (find_factory registry capability provider_key) (resolution_error provider_key)
