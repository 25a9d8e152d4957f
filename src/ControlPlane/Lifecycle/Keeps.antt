-- ===== src/ControlPlane/Lifecycle/Keeps.antt =====
-- The life cycle handlers commit nothing when they raise.
use post_base.Base.{Bool, Option, String, refl, ℕ, ◌≡◌}
use post_base.ControlPlane.Lifecycle.{
  require_project_access, require_tenant_role, set_environment_lifecycle_state,
  set_project_lifecycle_state,
}
use post_base.Domain.Enums.{EnvironmentStatus, TenantRole}
use post_base.Domain.Models.{Project}
use post_base.Platform.Audit.{Request}
use post_base.Platform.Audit.Rules.{audited_rules}
use post_base.Platform.Errors.{Error, err}
use post_base.Platform.Exec.Rules.{
  Keeps, KeepsOnError, KeepsOnError-bind, KeepsOnError-last, Returns-pure,
}
use post_base.Platform.Session.{Db, Session}
use post_base.Platform.Session.Rules.{Committed, commit-KeepsOnError, reading_rules}

module _ (P : Session → Type 0) where
  pub require_access-Keeps :
      (project : Project) (user_id : ℕ) (min_role : TenantRole)
      → Keeps P (require_project_access project user_id min_role)
  unfolding require_project_access require_tenant_role
  require_access-Keeps project user_id min_role = search reading_rules depth 9

set_environment-KeepsOnError :
    (d : Db) (status_value : Option EnvironmentStatus) (is_active : Option Bool)
    (reason : Option String) (r : Request)
    → KeepsOnError (Committed d) (set_environment_lifecycle_state status_value is_active reason r)
unfolding set_environment_lifecycle_state
set_environment-KeepsOnError d status_value is_active reason r =
    search
      (
        audited_rules, require_access-Keeps, KeepsOnError-bind, KeepsOnError-last,
        commit-KeepsOnError, Returns-pure,
      )
      depth 14

set_project-KeepsOnError :
    (d : Db) (project : Project) (actor : ℕ) (is_active : Bool) (now : ℕ)
    → KeepsOnError (Committed d) (set_project_lifecycle_state project actor is_active now)
unfolding set_project_lifecycle_state
set_project-KeepsOnError d project actor is_active now =
    search
      (
        audited_rules, require_access-Keeps, KeepsOnError-bind, KeepsOnError-last,
        commit-KeepsOnError, Returns-pure,
      )
      depth 14

-- A call of set_environment_lifecycle_state that raises leaves the committed tables as they were.
pub set_environment_lifecycle_state-err :
    (status_value : Option EnvironmentStatus) (is_active : Option Bool) (reason : Option String)
    (r : Request) (s : Session) (e : Error)
    → (set_environment_lifecycle_state status_value is_active reason r s).0 ≡ err e
    → (set_environment_lifecycle_state status_value is_active reason r s).1.committed ≡ s.committed
set_environment_lifecycle_state-err status_value is_active reason r s e raised =
    ((set_environment-KeepsOnError s.committed status_value is_active reason r).on_error s e
      (record { eq = refl }) raised).eq

-- A call of set_project_lifecycle_state that raises leaves the committed tables as they were.
pub set_project_lifecycle_state-err :
    (project : Project) (actor : ℕ) (is_active : Bool) (now : ℕ) (s : Session) (e : Error)
    → (set_project_lifecycle_state project actor is_active now s).0 ≡ err e
    → (set_project_lifecycle_state project actor is_active now s).1.committed ≡ s.committed
set_project_lifecycle_state-err project actor is_active now s e raised =
    ((set_project-KeepsOnError s.committed project actor is_active now).on_error s e
      (record { eq = refl }) raised).eq
