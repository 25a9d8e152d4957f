-- ===== src/Domain.antt =====
-- The data model of the control plane: backend/src/postbase/domain.
pub mod Enums
pub mod Models
pub mod PlanEnums
pub mod Plans
