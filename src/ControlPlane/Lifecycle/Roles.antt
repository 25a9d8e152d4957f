-- ===== src/ControlPlane/Lifecycle/Roles.antt =====
-- Who has the role of an admin, and what require_project_access answers.
-- Has the user a role in the tenant that is at least `min_role`?
use post_base.Base.{
  All, Any, Bool, Bool-cases, List, Option-cases, [], arith, false, first_where, inl, inr, leb,
  nat_eq, none, option_eq, refl, some, string_eq, subst, true, ℕ, ◌&&◌, ◌==◌, ◌∷◌, ◌≡◌, ◌≢◌,
}
use post_base.ControlPlane.Lifecycle.{
  membership, require_project_access, require_tenant_role, role_order,
}
use post_base.Domain.Enums.{
  TenantRole, binding_status_eq, capability_key_eq, certification_approval_state_eq,
  certification_test_status_eq, environment_stage_eq, environment_status_eq, migration_status_eq,
  policy_mode_eq, readiness_state_eq, secret_status_eq, switchover_status_eq, tenant_role_eq,
}
use post_base.Domain.Models.{Project, TenantMember}
use post_base.Domain.PlanEnums.{phase_eq, phases_eq}
use post_base.Platform.Audit.{transition_key_eq}
use post_base.Platform.Errors.{control_plane_forbidden, err, http_exception, ok}
use post_base.Platform.Exec.{pure, require, unless, ◌>>=◌}
use post_base.Platform.Session.{Session, gets}

unfoldable pub has_role : ℕ → ℕ → TenantRole → List TenantMember → Bool
has_role tenant_id user_id min_role members = elim (membership tenant_id user_id members) [
  | none ↦ false
  | some m ↦ leb (role_order min_role) (role_order m.role)
]

module _ (project : Project) (user_id : ℕ) (min_role : TenantRole) (s : Session) where
  pub access-refused :
      has_role project.tenant_id user_id min_role s.db.tenant_members ≡ false
      → require_project_access project user_id min_role s
        ≡ (err (http_exception 403 (control_plane_forbidden min_role)), s)
  unfolding require_project_access require_tenant_role require unless gets pure ◌>>=◌ has_role
  access-refused h =
      elim (Option-cases (membership project.tenant_id user_id s.db.tenant_members)) [
        | inl e ↦ rw e refl
        | inr (m, e) ↦
            (let low : leb (role_order min_role) (role_order m.role) ≡ false =
                rw (has_role, e) at h in
              rw (e, low) refl)
      ]

  pub access-granted :
      has_role project.tenant_id user_id min_role s.db.tenant_members ≡ true
      → (m : TenantMember) × (require_project_access project user_id min_role s ≡ (ok m, s))
  unfolding require_project_access require_tenant_role require unless gets pure ◌>>=◌ has_role
  access-granted h =
      elim (Option-cases (membership project.tenant_id user_id s.db.tenant_members)) [
        | inl e ↦ absurd (let no : false ≡ true = rw (has_role, e) at h in cc)
        | inr (m, e) ↦
            (let high : leb (role_order min_role) (role_order m.role) ≡ true =
                rw (has_role, e) at h in
              (m, rw (e, high) refl))
      ]

-- An active membership of the user in the tenant.
abbrev pub IsActiveMember : ℕ → ℕ → TenantMember → Type 0
IsActiveMember tenant_id user_id m =
    (m.tenant_id ≡ tenant_id) × (m.user_id ≡ user_id) × (m.is_active ≡ true)

-- Every active membership of the user in the tenant has the role `member`.
abbrev pub IsNoAdmin : ℕ → ℕ → List TenantMember → Type 0
IsNoAdmin tenant_id user_id =
    All λ m. IsActiveMember tenant_id user_id m → m.role ≡ TenantRole.member

-- The user has an active membership in the tenant, and none with the role `member`.
abbrev pub IsAdmin : ℕ → ℕ → List TenantMember → Type 0
IsAdmin tenant_id user_id members =
    Any (IsActiveMember tenant_id user_id) members
    × All (λ m. IsActiveMember tenant_id user_id m → m.role ≢ TenantRole.member) members

module _ (tenant_id user_id : ℕ) where
  membership-All :
      (P : TenantMember → Type 0) (m : TenantMember) (ms : List TenantMember)
      → All (λ x. IsActiveMember tenant_id user_id x → P x) ms
      → membership tenant_id user_id ms ≡ some m
      → P m
  unfolding membership first_where
  membership-All P m [] h e = absurd (cc)
  membership-All P m (x ∷ xs) h e =
      elim (Bool-cases (x.tenant_id == tenant_id && (x.user_id == user_id && x.is_active))) [
        | inl t ↦
            (let same : x ≡ m = (let f : some x ≡ some m = rw t at e in cc) in
              subst P same (h.0 (ground (arith, t), ground (arith, t), ground (arith, t))))
        | inr t ↦ membership-All P m xs h.1 (rw t at e)
      ]

  membership-Any :
      (ms : List TenantMember)
      → Any (IsActiveMember tenant_id user_id) ms
      → membership tenant_id user_id ms ≢ none
  unfolding membership first_where
  membership-Any [] active e = active
  membership-Any (x ∷ xs) (inl active) e = ground (arith, active, e)
  membership-Any (x ∷ xs) (inr later) e = membership-Any xs later (ground (arith, e))

  admin_order :
      (role : TenantRole)
      → role ≢ TenantRole.member
      → leb (role_order TenantRole.admin) (role_order role) ≡ true
  unfolding role_order
  admin_order TenantRole.member other = absurd (other refl)
  admin_order TenantRole.admin other = refl
  admin_order TenantRole.owner other = refl

  pub no_admin-has_role :
      (ms : List TenantMember)
      → IsNoAdmin tenant_id user_id ms
      → has_role tenant_id user_id TenantRole.admin ms ≡ false
  unfolding has_role role_order
  no_admin-has_role ms h = elim (Option-cases (membership tenant_id user_id ms)) [
    | inl e ↦ rw (has_role, e) refl
    | inr (m, e) ↦
        (let low : m.role ≡ TenantRole.member =
            membership-All (λ x. x.role ≡ TenantRole.member) m ms h e in
          rw (has_role, e, low) refl)
  ]

  pub admin-has_role :
      (ms : List TenantMember)
      → IsAdmin tenant_id user_id ms
      → has_role tenant_id user_id TenantRole.admin ms ≡ true
  unfolding has_role
  admin-has_role ms h = elim (Option-cases (membership tenant_id user_id ms)) [
    | inl e ↦ absurd (membership-Any ms h.0 e)
    | inr (m, e) ↦
        rw (has_role, e)
          (admin_order m.role (membership-All (λ x. x.role ≢ TenantRole.member) m ms h.1 e))
  ]
