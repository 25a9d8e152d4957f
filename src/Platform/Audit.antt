-- ===== src/Platform/Audit.antt =====
-- record_audit_event and record_transition_audit_event_once of
-- backend/src/postbase/platform/audit.py.
pub mod Rules
use post_base.Base.{
  Bool, Eq, Option, String, [], arith, false, first_where, get_row, nat_beq, nat_eq, next_key, none,
  option_eq, some, string_eq, true, ℕ, ◌&&◌, ◌++◌, ◌==◌, ◌↔◌, ◌∷◌, ◌≡◌,
}
use post_base.Domain.Enums.{
  binding_status_beq_iff, binding_status_eq, capability_key_eq, certification_approval_state_eq,
  certification_test_status_eq, environment_stage_eq, environment_status_eq, migration_status_eq,
  policy_mode_eq, readiness_state_eq, secret_status_eq, switchover_status_eq, tenant_role_eq,
}
use post_base.Domain.Models.{
  AuditLog, Environment, JsonObject, Project, TransitionKey, audit_log_row, binding_row,
  binding_secret_row, binding_status, capability_type_row, catalog_row, environment_row,
  migration_applied, project_row, secret_ref_row, switchover_completed, switchover_failed,
  tenant_member_row,
}
use post_base.Platform.Exec.{Exec, on_option, pure, ◌>>=◌, ◌>>◌}
use post_base.Platform.Session.{Session, flush, gets, update}

abbrev transition_key_beq : TransitionKey → TransitionKey → Bool
transition_key_beq (migration_applied a b) (migration_applied c d) = nat_beq a c && nat_beq b d
transition_key_beq (switchover_failed a b) (switchover_failed c d) = nat_beq a c && nat_beq b d
transition_key_beq (switchover_completed a b) (switchover_completed c d) =
    nat_beq a c && nat_beq b d
transition_key_beq (binding_status a x b) (binding_status c y d) =
    nat_beq a c && (x == y && nat_beq b d)
transition_key_beq _ _ = false

-- The keyword arguments of the two functions.
pub record AuditEvent : Type 0 where
  pub action : String
  pub entity_type : String
  pub entity_id : ℕ
  pub actor_user_id : Option ℕ
  pub tenant_id : Option ℕ
  pub project_id : Option ℕ
  pub environment_id : Option ℕ
  pub payload : JsonObject

abbrev pub audit_row : AuditEvent → Option TransitionKey → ℕ → ℕ → AuditLog
audit_row e transition_key id now = record {
  id = id;
  tenant_id = e.tenant_id;
  project_id = e.project_id;
  environment_id = e.environment_id;
  actor_user_id = e.actor_user_id;
  action = e.action;
  entity_type = e.entity_type;
  entity_id = e.entity_id;
  payload_json = e.payload;
  transition_key = transition_key;
  created_at = now;
}

unfoldable pub add_audit_row : AuditEvent → Option TransitionKey → ℕ → Exec Session AuditLog
unfolding flush gets update next_key
add_audit_row e transition_key now = do
  id ← gets λ d. next_key d.audit_logs
  let log = audit_row e transition_key id now
  update λ d. record d { audit_logs = d.audit_logs ++ log ∷ [] }
  flush
  pure log

unfoldable pub record_audit_event : AuditEvent → ℕ → Exec Session AuditLog
unfolding add_audit_row
record_audit_event e now = add_audit_row e none now

pub transition_key_beq_iff : (a b : TransitionKey) → (transition_key_beq a b ≡ true) ↔ (a ≡ b)
transition_key_beq_iff (binding_status a x b) (binding_status c y d) =
    ground (arith, binding_status_beq_iff x y)
transition_key_beq_iff (migration_applied a b) t = ground arith
transition_key_beq_iff (switchover_failed a b) t = ground arith
transition_key_beq_iff (switchover_completed a b) t = ground arith
transition_key_beq_iff (binding_status a x b) t = ground arith

instance abbrev pub transition_key_eq : Eq TransitionKey
transition_key_eq = record { beq = transition_key_beq; beq_iff = transition_key_beq_iff }

abbrev is_recorded : AuditEvent → TransitionKey → AuditLog → Bool
is_recorded e transition_key log =
    log.action == e.action
    && (log.entity_type == e.entity_type
        && (log.entity_id == e.entity_id && log.transition_key == some transition_key))

unfoldable pub record_transition_audit_event_once :
    TransitionKey → AuditEvent → ℕ → Exec Session AuditLog
unfolding add_audit_row gets first_where
record_transition_audit_event_once transition_key e now = do
  existing ← gets λ d. first_where (is_recorded e transition_key) d.audit_logs
  on_option existing (add_audit_row e (some transition_key) now) λ log. pure log

-- Who asks, for which project and environment, and when. The readings of the clock in one call are
-- one number.
pub record Request : Type 0 where
  pub actor : ℕ
  pub project : Project
  pub environment : Environment
  pub now : ℕ

-- The keyword arguments that every call in the control plane's service fills in alike.
abbrev pub audit_event : Request → String → String → ℕ → JsonObject → AuditEvent
audit_event r action entity_type entity_id payload = record {
  action = action;
  entity_type = entity_type;
  entity_id = entity_id;
  actor_user_id = some r.actor;
  tenant_id = some r.project.tenant_id;
  project_id = some r.project.id;
  environment_id = some r.environment.id;
  payload = payload;
}
