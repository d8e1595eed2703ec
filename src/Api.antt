-- ===== src/Api.antt =====
-- api/v1alpha1: the MinIO resource, its constants and its methods. The types of Kubernetes that the
-- operator only passes on or compares are parameters (Values); those whose fields it writes or
-- reads are records (Objects).
pub mod Constants
pub mod Values
pub mod Objects
pub mod Types
pub mod Helper
pub mod Admin
pub mod DeepCopy
