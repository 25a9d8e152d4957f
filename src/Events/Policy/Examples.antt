-- ===== src/Events/Policy/Examples.antt =====
-- The theorems on channel policies for one signed-in user.
use post_base.Base.{Bool, List, [], false, none, refl, some, true, ℕ, ◌∷◌, ◌≡◌}
use post_base.Domain.Enums.{EnvironmentStage, EnvironmentStatus, ReadinessState}
use post_base.Domain.Models.{Environment, Project}
use post_base.Events.Policy.{
  ChannelPolicy, PostBaseAccessContext, authorize_channel_operation, resolve_policy_template,
}
use post_base.Events.Policy.Grants.{resolve_policy_template-allowed}
use post_base.Platform.Errors.{ok}

abbrev project : Project
project = record {
  id = 1;
  tenant_id = 1;
  name = "shop";
  slug = "shop";
  description = "";
  is_active = true;
  updated_at = 0;
}

abbrev environment : Environment
environment = record {
  id = 1;
  project_id = 1;
  name = "dev";
  slug = "dev";
  stage = EnvironmentStage.development;
  region_preference = none;
  status = EnvironmentStatus.active;
  readiness_state = ReadinessState.ready;
  readiness_detail = "";
  env_policy_json = [];
  last_validated_at = none;
  is_active = true;
  updated_at = 0;
}

abbrev signed_in : PostBaseAccessContext
signed_in = record {
  environment = environment;
  project = project;
  role = none;
  auth_user_id = some 7;
  session_id = some 3;
  token_type = "jwt";
}

abbrev admin_only : ChannelPolicy
admin_only = record {
  allowed_operations = some ("manage" ∷ "subscribe" ∷ "publish" ∷ "consume" ∷ []);
  allow_service_role = some true;
  allow_authenticated = some false;
  allowed_user_ids = none;
}

admin_only-resolved : resolve_policy_template "admin_only" ≡ ok admin_only
unfolding resolve_policy_template
admin_only-resolved = refl

resolve_policy_template-allowed_example :
    (authorize_channel_operation signed_in admin_only "publish").allowed ≡ false
resolve_policy_template-allowed_example =
    resolve_policy_template-allowed "admin_only" admin_only admin_only-resolved signed_in "publish"

-- Outside the templates: the allow-list.
listed : List ℕ → Bool
unfolding authorize_channel_operation
listed users =
    (authorize_channel_operation signed_in
      (record {
        allowed_operations = some ("publish" ∷ []);
        allow_service_role = none;
        allow_authenticated = none;
        allowed_user_ids = some users;
      })
      "publish").allowed

listed_users : (listed (8 ∷ []) ≡ false) × (listed (8 ∷ 7 ∷ []) ≡ true) × (listed [] ≡ true)
unfolding listed
listed_users = (refl, refl, refl)
