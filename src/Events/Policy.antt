-- ===== src/Events/Policy.antt =====
-- backend/src/postbase/capabilities/events/policy.py: the policy of a channel and what it admits,
-- with PostBaseAccessContext of backend/src/postbase/platform/access.py.
pub mod Grants
mod Examples
use post_base.Base.{
  Bool, List, Option, String, [], contains, false, if◌then◌else◌, is_some, nat_eq, none, not,
  option_eq, some, string_eq, true, ℕ, ◌&&◌, ◌==◌, ◌||◌, ◌∷◌,
}
use post_base.Domain.Enums.{
  binding_status_eq, capability_key_eq, certification_approval_state_eq,
  certification_test_status_eq, environment_stage_eq, environment_status_eq, migration_status_eq,
  policy_mode_eq, readiness_state_eq, secret_status_eq, switchover_status_eq, tenant_role_eq,
}
use post_base.Domain.Models.{Environment, Project}
use post_base.Domain.PlanEnums.{phase_eq, phases_eq}
use post_base.Platform.Audit.{transition_key_eq}
use post_base.Platform.Errors.{Result, err, http_exception, ok, unknown_policy_template}

pub data ApiKeyRole : Type 0 where
  anon service_role : ApiKeyRole

pub record PostBaseAccessContext : Type 0 where
  pub environment : Environment
  pub project : Project
  pub role : Option ApiKeyRole
  pub auth_user_id : Option ℕ
  pub session_id : Option ℕ
  pub token_type : String

-- The property `service_role`, of a role.
abbrev pub is_service_role : Option ApiKeyRole → Bool
is_service_role none = false
is_service_role (some ApiKeyRole.anon) = false
is_service_role (some ApiKeyRole.service_role) = true

-- The property `authenticated`.
abbrev pub is_authenticated : PostBaseAccessContext → Bool
is_authenticated context = is_some context.auth_user_id || is_service_role context.role

-- The entries of `policy_json` that are read, None when the key is missing; a flag is the truth
-- value of its entry, and an `allowed_user_ids` that is not a list counts as missing.
pub record ChannelPolicy : Type 0 where
  pub allowed_operations : Option (List String)
  pub allow_service_role : Option Bool
  pub allow_authenticated : Option Bool
  pub allowed_user_ids : Option (List ℕ)

-- The `reason` of a decision; the first names the operation.
pub data Reason : Type 0 where
  not_permitted_by_channel_policy : String → Reason
  service_role_allowed user_not_in_allow_list authenticated_principal_allowed : Reason
  policy_denies_principal_scope : Reason

pub record PermissionDecision : Type 0 where
  pub allowed : Bool
  pub reason : Reason

abbrev pub or_empty : Option (List String) → List String
or_empty none = []
or_empty (some operations) = operations

abbrev pub or_true : Option Bool → Bool
or_true none = true
or_true (some b) = b

abbrev pub policy_templates : String → Option ChannelPolicy
policy_templates key =
    if key == "open"
    then some (record {
      allowed_operations = some ("manage" ∷ "subscribe" ∷ "publish" ∷ "consume" ∷ []);
      allow_service_role = none;
      allow_authenticated = some true;
      allowed_user_ids = none;
    })
    else if key == "publish_only"
    then some (record {
      allowed_operations = some ("publish" ∷ "consume" ∷ []);
      allow_service_role = none;
      allow_authenticated = some true;
      allowed_user_ids = none;
    })
    else if key == "admin_only"
    then some (record {
      allowed_operations = some ("manage" ∷ "subscribe" ∷ "publish" ∷ "consume" ∷ []);
      allow_service_role = some true;
      allow_authenticated = some false;
      allowed_user_ids = none;
    })
    else if key == "read_only"
    then some (record {
      allowed_operations = some ("consume" ∷ []);
      allow_service_role = none;
      allow_authenticated = some true;
      allowed_user_ids = none;
    })
    else none

abbrev pub resolved : String → Option ChannelPolicy → Result ChannelPolicy
resolved template_key none = err (http_exception 400 (unknown_policy_template template_key))
resolved template_key (some policy) = ok policy

unfoldable pub resolve_policy_template : String → Result ChannelPolicy
resolve_policy_template template_key = resolved template_key (policy_templates template_key)

-- A user is not in a list of users that is not empty.
abbrev pub is_excluded : Option (List ℕ) → Option ℕ → Bool
is_excluded (some (user ∷ users)) (some auth_user_id) = not (contains auth_user_id (user ∷ users))
is_excluded _ _ = false

unfoldable pub authorize_channel_operation :
    PostBaseAccessContext → ChannelPolicy → String → PermissionDecision
authorize_channel_operation context policy operation =
    if not (contains operation (or_empty policy.allowed_operations))
    then record { allowed = false; reason = not_permitted_by_channel_policy operation }
    else if is_service_role context.role && or_true policy.allow_service_role
    then record { allowed = true; reason = service_role_allowed }
    else if is_authenticated context && or_true policy.allow_authenticated
    then if is_excluded policy.allowed_user_ids context.auth_user_id
      then record { allowed = false; reason = user_not_in_allow_list }
      else record { allowed = true; reason = authenticated_principal_allowed }
    else record { allowed = false; reason = policy_denies_principal_scope }
