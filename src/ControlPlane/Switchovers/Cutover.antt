-- ===== src/ControlPlane/Switchovers/Cutover.antt =====
-- The state of execute_switchover_plan in backend/src/postbase/control_plane/service.py: the session,
-- and the two row objects that the function changes, `switchover` and `binding`. Where the function
-- can raise, its local `execution_state` equals the one of the row, so the row's stands for both.
use post_base.Base.{modify}
use post_base.Domain.Models.{
  CapabilityBinding, audit_log_row, binding_row, binding_secret_row, capability_type_row,
  catalog_row, environment_row, project_row, secret_ref_row, tenant_member_row,
}
use post_base.Domain.Plans.{SwitchoverPlan, schema_migration_row, switchover_row}
use post_base.Events.Store.{channel_row, dead_letter_row, job_row}
use post_base.Platform.Errors.{ok}
use post_base.Platform.Exec.{Exec}
use post_base.Platform.Session.{Session}

pub record Cutover : Type 0 where
  pub session : Session
  pub plan : SwitchoverPlan
  pub binding : CapabilityBinding

abbrev pub row_of_plan : SwitchoverPlan → Session → Session
row_of_plan p s = record s {
  db = record s.db { switchovers = modify p.id (λ _. p) s.db.switchovers };
}

abbrev pub row_of_binding : CapabilityBinding → Session → Session
row_of_binding b s = record s { db = record s.db { bindings = modify b.id (λ _. b) s.db.bindings } }

-- A statement that concerns the session.
unfoldable pub in_session : {A : Type 0} → Exec Session A → Exec Cutover A
in_session m c = ((m c.session).0, record c { session = (m c.session).1 })

-- An expression over the row objects.
unfoldable pub reads : {A : Type 0} → (Cutover → A) → Exec Cutover A
reads f c = (ok (f c), c)

-- Assignments to attributes of `switchover`.
unfoldable pub write_plan : (SwitchoverPlan → SwitchoverPlan) → Exec Cutover Unit
unfolding modify
write_plan f c = (ok tt, record c { plan = f c.plan; session = row_of_plan (f c.plan) c.session })

-- Assignments to attributes of `binding`.
unfoldable pub write_binding : (CapabilityBinding → CapabilityBinding) → Exec Cutover Unit
unfolding modify
write_binding f c =
    (ok tt, record c { binding = f c.binding; session = row_of_binding (f c.binding) c.session })

unfoldable pub run_cutover :
    {A : Type 0} → SwitchoverPlan → CapabilityBinding → Exec Cutover A → Exec Session A
run_cutover plan binding m s =
    let r = m (record { session = s; plan = plan; binding = binding }) in (r.0, r.1.session)
