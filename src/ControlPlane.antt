-- ===== src/ControlPlane.antt =====
-- backend/src/postbase/control_plane/service.py, one child for each group of its functions.
pub mod Required
pub mod Bindings
pub mod Secrets
pub mod Lifecycle
pub mod Quota
pub mod Switchovers
pub mod Migrations
