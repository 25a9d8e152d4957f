-- ===== src/Platform/Session/Consistent.antt =====
-- Sessions whose rows satisfy the partial unique indexes and the unique constraints: there a flush and a commit return.
use post_base.Base.{List, true, ◌++◌, ◌≡◌}
use post_base.Domain.Models.{AuditLog}
use post_base.Platform.Errors.{Constraint, ok}
use post_base.Platform.Exec.{Exec}
use post_base.Platform.Exec.Rules.{bind-eq}
use post_base.Platform.Session.{
  Session, active_bindings_unique, active_versions_unique, binding_secrets_unique, commit, flush,
  save, secret_versions_unique, try_flush,
}

-- Every row that a flush meets satisfies the indexes.
pub record Consistent (s : Session) : Type 0 where
  pub bindings : active_bindings_unique (s.raced ++ s.db.bindings) ≡ true
  pub secrets : active_versions_unique s.db.secrets ≡ true
  pub versions : secret_versions_unique s.db.secrets ≡ true
  pub links : binding_secrets_unique s.db.binding_secrets ≡ true

module _ (s : Session) (c : Consistent s) where
  pub flush-Consistent : flush s ≡ (ok tt, s)
  unfolding flush
  flush-Consistent = rw (c.bindings, c.secrets, c.versions, c.links)

  pub try_flush-Consistent : (h : Constraint → Exec Session Unit) → try_flush h s ≡ (ok tt, s)
  unfolding try_flush
  try_flush-Consistent h = rw flush-Consistent

  pub commit-Consistent : commit s ≡ (ok tt, record s { committed = s.db })
  unfolding commit save
  commit-Consistent = bind-eq flush _ flush-Consistent

abbrev pub with_logs : Session → List AuditLog → Session
with_logs s logs = record s { db = record s.db { audit_logs = logs } }

pub with_logs-Consistent :
    (s : Session) (logs : List AuditLog) → Consistent s → Consistent (with_logs s logs)
with_logs-Consistent s logs c = record {
  bindings = c.bindings;
  secrets = c.secrets;
  versions = c.versions;
  links = c.links;
}
