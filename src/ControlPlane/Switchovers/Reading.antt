-- ===== src/ControlPlane/Switchovers/Reading.antt =====
-- What the phases of a switchover keep: one condition for the rows, one for each kind of write.
use post_base.Base.{List, Option, String, [], arith, next_key, none, ℕ, ◌++◌, ◌∷◌, ◌≡◌}
use post_base.ControlPlane.Switchovers.{
  build_switchover_preflight_report, load_provider_profiles, require_ready,
}
use post_base.Domain.Enums.{CapabilityKey}
use post_base.Domain.Models.{
  AuditLog, CapabilityBinding, Environment, ProviderCatalogEntry, TransitionKey, audit_log_row,
  binding_row, binding_secret_row, capability_type_row, catalog_row, environment_row, project_row,
  secret_ref_row, tenant_member_row,
}
use post_base.Domain.Plans.{PreflightReport, schema_migration_row, switchover_row}
use post_base.Events.Store.{channel_row, dead_letter_row, job_row}
use post_base.Platform.Audit.{
  AuditEvent, add_audit_row, audit_row, record_audit_event, record_transition_audit_event_once,
}
use post_base.Platform.Exec.Rules.{Keeps, Keeps-bind, Keeps-pure}
use post_base.Platform.Registry.{ProviderRegistry, resolve}
use post_base.Platform.Session.{Session, commit, flush, gets, save, update}
use post_base.Platform.Session.Rules.{gets-Keeps, reading_rules}
use post_base.ControlPlane.Bindings.Status.{validate-Keeps}

-- The bindings that the session sees are these.
pub record BindingsAre (bs : List CapabilityBinding) (s : Session) : Type 0 where
  pub eq : s.db.bindings ≡ bs

module _ (bs : List CapabilityBinding) where
  pub flush-BindingsAre : Keeps (BindingsAre bs) flush
  unfolding flush
  flush-BindingsAre = record { holds = λ s h. record { eq = ground (arith, h.eq) } }

  save-BindingsAre : Keeps (BindingsAre bs) save
  unfolding save
  save-BindingsAre = record { holds = λ s h. record { eq = h.eq } }

  pub commit-BindingsAre : Keeps (BindingsAre bs) commit
  unfolding commit
  commit-BindingsAre = Keeps-bind flush _ flush-BindingsAre λ _. save-BindingsAre

  add_log-BindingsAre :
      (logs : List AuditLog → List AuditLog)
      → Keeps (BindingsAre bs) (update λ d. record d { audit_logs = logs d.audit_logs })
  unfolding update
  add_log-BindingsAre logs = record { holds = λ s h. record { eq = h.eq } }

  add_audit_row-BindingsAre :
      (e : AuditEvent) (k : Option TransitionKey) (now : ℕ)
      → Keeps (BindingsAre bs) (add_audit_row e k now)
  unfolding add_audit_row
  add_audit_row-BindingsAre e k now =
      Keeps-bind (gets λ d. next_key d.audit_logs) _ (gets-Keeps (BindingsAre bs) _) λ id.
        Keeps-bind _ _ (add_log-BindingsAre λ logs. logs ++ audit_row e k id now ∷ [])
          λ _. Keeps-bind flush _ flush-BindingsAre λ _. Keeps-pure _

  pub record_audit_event-BindingsAre :
      (e : AuditEvent) (now : ℕ) → Keeps (BindingsAre bs) (record_audit_event e now)
  unfolding record_audit_event
  record_audit_event-BindingsAre e now = add_audit_row-BindingsAre e none now

  pub record_transition-BindingsAre :
      (k : TransitionKey) (e : AuditEvent) (now : ℕ)
      → Keeps (BindingsAre bs) (record_transition_audit_event_once k e now)
  unfolding record_transition_audit_event_once
  record_transition-BindingsAre k e now = search (reading_rules, add_audit_row-BindingsAre) depth 9

module _ (P : Session → Type 0) where
  pub resolve-Keeps :
      (registry : ProviderRegistry) (key : CapabilityKey) (provider_key : String)
      → Keeps P (resolve registry key provider_key)
  unfolding resolve
  resolve-Keeps registry key provider_key = search reading_rules depth 5

  load_profiles-Keeps :
      (registry : ProviderRegistry) (key : CapabilityKey) (current target : String)
      → Keeps P (load_provider_profiles registry key current target)
  unfolding load_provider_profiles
  load_profiles-Keeps registry key current target = search (reading_rules, resolve-Keeps) depth 9

  pub build_report-Keeps :
      (registry : ProviderRegistry) (b : CapabilityBinding) (p : ProviderCatalogEntry)
      (e : Environment) (now : ℕ)
      → Keeps P (build_switchover_preflight_report registry b p e now)
  unfolding build_switchover_preflight_report
  build_report-Keeps registry b p e now =
      search (reading_rules, load_profiles-Keeps, resolve-Keeps) depth 16

  pub require_ready-Keeps : (report : PreflightReport) → Keeps P (require_ready report)
  unfolding require_ready
  require_ready-Keeps report = search reading_rules depth 3

pub ruleset session_rules = (
  reading_rules, flush-BindingsAre, commit-BindingsAre, record_audit_event-BindingsAre,
  record_transition-BindingsAre, resolve-Keeps, build_report-Keeps, require_ready-Keeps,
  validate-Keeps,
)
