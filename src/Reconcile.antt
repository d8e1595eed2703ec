-- ===== src/Reconcile.antt =====
-- controllers/minio_controller.go: `Reconcile` of the MinIO controller. Its parts are in the modules
-- below: the pools that are new or changed (Plan), the services (Services), the claims (Volumes) and
-- the whole (Main).
pub mod Plan
pub mod Steps
pub mod Services
pub mod Volumes
pub mod Main
