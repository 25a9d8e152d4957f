-- ===== src/ControlPlane/Secrets/Examples.antt =====
-- Secrets at one small database.
use post_base.Base.{
  Bool, List, String, [], any_of, ap, arith, false, nat_eq, next_key, none, not, option_eq, refl,
  string_eq, true, ◌==◌, ◌∷◌, ◌≡◌,
}
use post_base.ControlPlane.Secrets.{
  SealedSecret, create_secret_ref, list_bindings_using_secret_family, new_secret, rotate_secret_ref,
}
use post_base.ControlPlane.Secrets.Rotation.{rotate_secret_ref-err, rotate_secret_ref-unlinked}
use post_base.ControlPlane.Secrets.Writes.{IsUnused, create_secret_ref-err, create_secret_ref-ok}
use post_base.Domain.Enums.{
  EnvironmentStage, EnvironmentStatus, ReadinessState, binding_status_eq, capability_key_eq,
  certification_approval_state_eq, certification_test_status_eq, environment_stage_eq,
  environment_status_eq, migration_status_eq, policy_mode_eq, readiness_state_eq, secret_status_eq,
  switchover_status_eq, tenant_role_eq,
}
use post_base.Domain.Models.{
  Environment, Project, SecretRef, audit_log_row, binding_row, binding_secret_row,
  capability_type_row, catalog_row, environment_row, project_row, secret_ref_row, tenant_member_row,
}
use post_base.Events.Store.{channel_row, dead_letter_row, job_row}
use post_base.Platform.Audit.{Request, transition_key_eq}
use post_base.Platform.Errors.{Error, err, http_exception, message, ok, value_error}
use post_base.Platform.Exec.{unless, ◌>>=◌}
use post_base.Platform.Session.{
  Db, Session, active_bindings_unique, active_versions_unique, binding_secrets_unique,
  is_active_version_of, is_link_of, is_version_of, secret_versions_unique,
}
use post_base.Platform.Session.Consistent.{Consistent}
use post_base.Domain.PlanEnums.{phase_eq, phases_eq}
use post_base.Domain.Plans.{
  namespace_row, schema_migration_row, switchover_row, table_definition_row,
}

abbrev project : Project
project = record {
  id = 1;
  tenant_id = 1;
  name = "shop";
  slug = "shop";
  description = "";
  is_active = true;
  updated_at = 0;
}

abbrev environment : Environment
environment = record {
  id = 1;
  project_id = 1;
  name = "dev";
  slug = "dev";
  stage = EnvironmentStage.development;
  region_preference = none;
  status = EnvironmentStatus.active;
  readiness_state = ReadinessState.ready;
  readiness_detail = "";
  env_policy_json = [];
  last_validated_at = none;
  is_active = true;
  updated_at = 0;
}

abbrev request : Request
request = record { actor = 7; project = project; environment = environment; now = 100 }

abbrev sealed_secret : SealedSecret
sealed_secret = record { encrypted_value = "c"; value_hash = "h"; last_four = "1234" }

abbrev api_key : SecretRef
api_key = new_secret 1 1 "api_key" "local" "key" 1 sealed_secret 5

abbrev session : List SecretRef → Session
session secrets = record { db = tables; committed = tables; raced = []; expired = false }
  where
    tables : Db
    tables = record {
      tenant_members = [];
      projects = project ∷ [];
      environments = environment ∷ [];
      capability_types = [];
      catalog = [];
      bindings = [];
      secrets = secrets;
      binding_secrets = [];
      audit_logs = [];
      switchovers = [];
      migrations = [];
      namespaces = [];
      table_definitions = [];
    }

-- Names that are not empty.
abbrev is_named : String → Bool
is_named name = not (name == "")

abbrev described : Error → String
described e = "failed"

session-Consistent : Consistent (session (api_key ∷ []))
unfolding active_bindings_unique active_versions_unique secret_versions_unique
    binding_secrets_unique is_version_of is_link_of any_of
session-Consistent = record { bindings = refl; secrets = refl; versions = refl; links = refl }

-- Another environment has an active version of the name, and this one an old version 2.
abbrev other_token : SecretRef
other_token = new_secret 2 9 "token" "local" "key" 1 sealed_secret 5

abbrev old_token : SecretRef
old_token = record (new_secret 3 1 "token" "local" "key" 2 sealed_secret 5) {
  is_active_version = false;
}

abbrev with_tokens : Session
with_tokens = session (other_token ∷ old_token ∷ [])

with_tokens-Consistent : Consistent with_tokens
unfolding active_bindings_unique active_versions_unique secret_versions_unique
    binding_secrets_unique is_active_version_of is_version_of any_of
with_tokens-Consistent = record { bindings = refl; secrets = refl; versions = refl; links = refl }

with_tokens-IsUnused : IsUnused 1 "token" (other_token ∷ old_token ∷ [])
with_tokens-IsUnused =
    ((λ e _. absurd (omega (arith, e))), ((λ _ _. (refl, λ e. omega (arith, e))), tt))

create_secret_ref-ok_example :
    let xs = other_token ∷ old_token ∷ [] in
    let x = new_secret (next_key xs) 1 "token" "local" "key" 1 sealed_secret 100 in
    let (result, s') =
      create_secret_ref is_named "token" "local" "key" sealed_secret request with_tokens in
    (result ≡ ok x)
    × (s'.committed.secrets ≡ other_token ∷ old_token ∷ x ∷ [])
    × (active_versions_unique s'.committed.secrets ≡ true)
    × (secret_versions_unique s'.committed.secrets ≡ true)
create_secret_ref-ok_example =
    create_secret_ref-ok is_named "token" "local" "key" sealed_secret request with_tokens
      with_tokens-Consistent refl with_tokens-IsUnused

empty_name-raises :
    (create_secret_ref is_named "" "local" "key" sealed_secret request (session (api_key ∷ []))).0
    ≡ err (value_error "Secret name")
unfolding create_secret_ref unless ◌>>=◌
empty_name-raises = refl

create_secret_ref-err_example :
    (create_secret_ref is_named "" "local" "key" sealed_secret request
      (session (api_key ∷ []))).1.committed
    ≡ (session (api_key ∷ [])).committed
create_secret_ref-err_example =
    create_secret_ref-err is_named "" "local" "key" sealed_secret request (session (api_key ∷ []))
      (value_error "Secret name") empty_name-raises

unlinked : list_bindings_using_secret_family api_key (api_key ∷ []) [] ≡ []
unfolding list_bindings_using_secret_family
unlinked = refl

abbrev unlinked_error : Error
unlinked_error =
    http_exception 400
      (message "Secret is not linked to any binding; link before rotation to avoid blind rotation")

unlinked-raises :
    (rotate_secret_ref described api_key sealed_secret request (session (api_key ∷ []))).0
    ≡ err unlinked_error
unlinked-raises =
    ap (λ p. p.0)
      (rotate_secret_ref-unlinked described api_key sealed_secret request (session (api_key ∷ []))
        unlinked)

rotate_secret_ref-err_example :
    (rotate_secret_ref described api_key sealed_secret request
      (session (api_key ∷ []))).1.committed.secrets
    ≡ api_key ∷ []
rotate_secret_ref-err_example =
    rotate_secret_ref-err described api_key sealed_secret request (session (api_key ∷ []))
      unlinked_error unlinked-raises
