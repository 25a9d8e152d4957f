-- ===== src/Events/Policy/Grants.antt =====
-- What a channel's policy admits.
use post_base.Base.{
  String, ap, arith, beq-other, contains, false, is_some, nat_eq, none, not, option_eq, refl,
  string_eq, true, ◌&&◌, ◌==◌, ◌||◌, ◌≡◌,
}
use post_base.Domain.Enums.{
  binding_status_eq, capability_key_eq, certification_approval_state_eq,
  certification_test_status_eq, environment_stage_eq, environment_status_eq, migration_status_eq,
  policy_mode_eq, readiness_state_eq, secret_status_eq, switchover_status_eq, tenant_role_eq,
}
use post_base.Domain.PlanEnums.{phase_eq, phases_eq}
use post_base.Events.Policy.{
  ChannelPolicy, PostBaseAccessContext, authorize_channel_operation, is_authenticated, is_excluded,
  is_service_role, or_empty, or_true, resolve_policy_template,
}
use post_base.Platform.Audit.{transition_key_eq}
use post_base.Platform.Errors.{ok}

-- A decision by clauses, as one formula.
authorize_channel_operation-allowed :
    (context : PostBaseAccessContext) (policy : ChannelPolicy) (operation : String)
    → (authorize_channel_operation context policy operation).allowed ≡ (
        contains operation (or_empty policy.allowed_operations)
        && (is_service_role context.role && or_true policy.allow_service_role
            || is_authenticated context
              && or_true policy.allow_authenticated
              && not (is_excluded policy.allowed_user_ids context.auth_user_id)))
unfolding authorize_channel_operation
authorize_channel_operation-allowed context policy operation = ground arith

-- The flags of a template's policy.
record HasFlags (template_key : String) (policy : ChannelPolicy) : Type 0 where
  pub service : or_true policy.allow_service_role ≡ true
  pub users : or_true policy.allow_authenticated ≡ not (template_key == "admin_only")
  pub listed : policy.allowed_user_ids ≡ none

resolve_policy_template-HasFlags :
    (template_key : String) (policy : ChannelPolicy)
    → resolve_policy_template template_key ≡ ok policy
    → HasFlags template_key policy
unfolding resolve_policy_template
resolve_policy_template-HasFlags template_key policy h = record {
  service = ground (arith, h);
  users = ground (
    arith,
    h,
    beq-other template_key "open" "admin_only" refl,
    beq-other template_key "publish_only" "admin_only" refl,
  );
  listed = ground (arith, h);
}

-- A template resolves to a policy that admits the service role to each of its operations, and any
-- other principal to the same operations when it has a user and the template is not admin_only; so
-- it admits a key of the role anon without a user to nothing.
pub resolve_policy_template-allowed :
    (template_key : String) (policy : ChannelPolicy)
    → resolve_policy_template template_key ≡ ok policy
    → (context : PostBaseAccessContext) (operation : String)
    → (authorize_channel_operation context policy operation).allowed ≡ (
        contains operation (or_empty policy.allowed_operations)
        && (is_service_role context.role
            || is_some context.auth_user_id && not (template_key == "admin_only")))
resolve_policy_template-allowed template_key policy h context operation =
    let flags = resolve_policy_template-HasFlags template_key policy h in
    let s = flags.service in
    let u = flags.users in
    let l : is_excluded policy.allowed_user_ids context.auth_user_id ≡ false =
      ap (λ ids. is_excluded ids context.auth_user_id) flags.listed in
    ground (arith, authorize_channel_operation-allowed context policy operation, s, u, l)
