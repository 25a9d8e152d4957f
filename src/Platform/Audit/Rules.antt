-- ===== src/Platform/Audit/Rules.antt =====
-- Writing an audit row commits nothing.
use post_base.Base.{
  List, Option, Option-cases, [], first_where, inl, inr, next_key, none, some, ℕ, ◌++◌, ◌∙◌, ◌∷◌,
  ◌≡◌,
}
use post_base.Domain.Models.{
  AuditLog, TransitionKey, audit_log_row, binding_row, binding_secret_row, capability_type_row,
  catalog_row, environment_row, project_row, secret_ref_row, tenant_member_row,
}
use post_base.Platform.Exec.Rules.{Keeps, bind-eq}
use post_base.Platform.Session.{Db, Session, flush}
use post_base.Platform.Session.Rules.{Committed, bind-gets, bind-update, committed_rules}
use post_base.Platform.Audit.{
  AuditEvent, add_audit_row, audit_row, is_recorded, record_audit_event,
  record_transition_audit_event_once,
}
use post_base.Platform.Errors.{ok}
use post_base.Platform.Exec.{on_option, pure}
use post_base.Platform.Session.Consistent.{
  Consistent, flush-Consistent, with_logs, with_logs-Consistent,
}

module _ (d : Db) where
  add_audit_row-Committed :
      (e : AuditEvent) (k : Option TransitionKey) (now : ℕ)
      → Keeps (Committed d) (add_audit_row e k now)
  unfolding add_audit_row
  add_audit_row-Committed e k now = search committed_rules depth 9

  pub record_audit_event-Committed :
      (e : AuditEvent) (now : ℕ) → Keeps (Committed d) (record_audit_event e now)
  unfolding record_audit_event
  record_audit_event-Committed e now = add_audit_row-Committed e none now

  pub record_transition-Committed :
      (k : TransitionKey) (e : AuditEvent) (now : ℕ)
      → Keeps (Committed d) (record_transition_audit_event_once k e now)
  unfolding record_transition_audit_event_once
  record_transition-Committed k e now = search (committed_rules, add_audit_row-Committed) depth 9

pub ruleset audited_rules =
    (committed_rules, record_audit_event-Committed, record_transition-Committed)

-- In a consistent session an audit event is written: the row stands last, and nothing else changes.
pub add_audit_row-Consistent :
    (e : AuditEvent) (k : Option TransitionKey) (now : ℕ) (s : Session)
    → Consistent s
    → let log = audit_row e k (next_key s.db.audit_logs) now in
      add_audit_row e k now s ≡ (ok log, with_logs s (s.db.audit_logs ++ log ∷ []))
unfolding add_audit_row pure
add_audit_row-Consistent e k now s c =
    bind-gets (λ d. next_key d.audit_logs) _ s
    ∙ bind-update (λ d. record d { audit_logs = d.audit_logs ++ log ∷ [] }) _ s
    ∙ bind-eq flush _ (flush-Consistent _ (with_logs-Consistent s _ c))
  where
    log : AuditLog
    log = audit_row e k (next_key s.db.audit_logs) now

pub record_transition-Consistent :
    (k : TransitionKey) (e : AuditEvent) (now : ℕ) (s : Session)
    → Consistent s
    → (log : AuditLog) × (logs : List AuditLog) × (record_transition_audit_event_once k e now s
        ≡ (ok log, with_logs s logs))
unfolding record_transition_audit_event_once on_option pure
record_transition-Consistent k e now s c =
    elim (Option-cases (first_where (is_recorded e k) s.db.audit_logs)) [
      | inl fresh ↦ (
        audit_row e (some k) (next_key s.db.audit_logs) now,
        s.db.audit_logs ++ audit_row e (some k) (next_key s.db.audit_logs) now ∷ [],
        bind-gets (λ d. first_where (is_recorded e k) d.audit_logs) _ s
            ∙ rw fresh (add_audit_row-Consistent e (some k) now s c),
      )
      | inr (log, old) ↦ (
        log,
        s.db.audit_logs,
        bind-gets (λ d. first_where (is_recorded e k) d.audit_logs) _ s ∙ rw old,
      )
    ]
