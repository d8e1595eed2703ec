-- ===== src/Tests/Copies.antt =====
-- A resource in memory, and its deep copy.
use minio_operator.Base.{ℕ, String, none, some, List, [], ◌∷◌, ◌≡◌, refl}
use minio_operator.Api.Objects.{EnvVar}
use minio_operator.Api.Types.{ClaimTemplate, zero_status}
use minio_operator.Api.DeepCopy.{DeepCopies, minio_deep_copy}
use minio_operator.Api.DeepCopy.Kinds
use minio_operator.Api.DeepCopy.Memory.{pure}
use minio_operator.Api.DeepCopy.Fresh.{Fresh, Points, flat-Deep}
use minio_operator.Api.DeepCopy.Layout.{Library, PoolAt, MinioStatusAt, MinioSpecAt, MinioAt, Cell}
use minio_operator.Api.DeepCopy.Shown.{
  Meta, Meanings, AreDeep, PoolShows, MinioSpecShows, MinioStatusShows, MinioValue, MinioShows,
}
use minio_operator.Api.DeepCopy.Whole.{minio_deep_copy_lem}
use minio_operator.Tests.Data.{plain, resource, pool, template}

-- The libraries' objects without pointers.
abbrev library : Library
library = record {
  ObjectMeta = Meta;
  ListMeta = String;
  EnvVar = EnvVar plain;
  Toleration = ℕ;
  Resources = ℕ;
  Affinity = ℕ;
  Probe = ℕ;
  Lifecycle = ℕ;
  PersistentVolumeClaim = ClaimTemplate plain;
  PodSecurityContext = ℕ;
  SecurityContext = ℕ;
  Other = Unit;
}

abbrev copies : DeepCopies library
copies = record {
  object_meta = pure;
  list_meta = pure;
  env_var = pure;
  toleration = pure;
  resources = pure;
  affinity = pure;
  probe = pure;
  lifecycle = pure;
  persistent_volume_claim = pure;
  pod_security_context = pure;
  security_context = pure;
}

abbrev meanings : Meanings plain library
meanings = record {
  object_meta = λ h a b. a ≡ b;
  ListMeta = String;
  list_meta = λ h a b. a ≡ b;
  env_var = λ h a b. a ≡ b;
  toleration = λ h a b. a ≡ b;
  resources = λ h a b. a ≡ b;
  affinity = λ h a b. a ≡ b;
  probe = λ h a b. a ≡ b;
  lifecycle = λ h a b. a ≡ b;
  persistent_volume_claim = λ h a b. a ≡ b;
  pod_security_context = λ h a b. a ≡ b;
  security_context = λ h a b. a ≡ b;
  node_selector = λ o. elim o [ none ↦ 0 | some entries ↦ 7 ];
}

copies-AreDeep : AreDeep copies meanings
copies-AreDeep = record {
  object_meta = flat-Deep;
  list_meta = flat-Deep;
  env_var = flat-Deep;
  toleration = flat-Deep;
  resources = flat-Deep;
  affinity = flat-Deep;
  probe = flat-Deep;
  lifecycle = flat-Deep;
  persistent_volume_claim = flat-Deep;
  pod_security_context = flat-Deep;
  security_context = flat-Deep;
}

abbrev metadata : Meta
metadata = record {
  name = resource.name;
  namespace = resource.namespace;
  uid = resource.uid;
  resource_version = resource.resource_version;
  deleting = resource.deleting;
}

-- A pool whose node selector and template are at the addresses 0 and 1.
abbrev pool_at : PoolAt
pool_at = record {
  name = pool.name;
  servers = pool.servers;
  volumes_per_server = pool.volumes_per_server;
  volume_claim_template = some 1;
  node_selector = some 0;
  security_context = none;
  container_security_context = none;
}

-- A specification whose pools are at the address 2.
abbrev spec_at : MinioSpecAt library
spec_at = record {
  pools = some 2;
  image = resource.spec.image;
  image_pull_policy = resource.spec.image_pull_policy;
  image_pull_secret = resource.spec.image_pull_secret;
  env = none;
  mountpath = resource.spec.mountpath;
  configuration = none;
  expose_services = resource.spec.expose_services;
  enable_cert = resource.spec.enable_cert;
  reclaim_storage = resource.spec.reclaim_storage;
  service_account_name = resource.spec.service_account_name;
  tolerations = none;
  resources = 0;
  affinity = none;
  liveness = none;
  readiness = none;
  startup = none;
  lifecycle = none;
}

abbrev status_at : MinioStatusAt
status_at = record {
  status = zero_status.status;
  message = "";
  pool_status = none;
  health_status = zero_status.health_status;
  service = zero_status.service;
  pvc_status = none;
}

abbrev minio_at : MinioAt library
minio_at = record {
  type_meta = record { kind = "MinIO"; api_version = "bob.com/v1alpha1" };
  object_meta = metadata;
  spec = spec_at;
  status = status_at;
}

abbrev memory : List (Cell library)
memory =
    Cell.string_map (("disk", "ssd") ∷ [])
    ∷ Cell.persistent_volume_claim template
    ∷ Cell.pools (pool_at ∷ [])
    ∷ Cell.minio minio_at
    ∷ []

abbrev minio_value : MinioValue meanings
minio_value = record {
  type_meta = minio_at.type_meta;
  object_meta = metadata;
  spec = resource.spec;
  status = resource.status;
}

pool_shown : PoolShows meanings memory pool_at pool
pool_shown = record {
  name = refl;
  servers = refl;
  volumes_per_server = refl;
  volume_claim_template = (template, refl, refl);
  node_selector = (some (("disk", "ssd") ∷ []), (("disk", "ssd") ∷ [], refl, (refl, tt)), refl);
  security_context = tt;
  container_security_context = tt;
}

spec_shown : MinioSpecShows meanings memory spec_at resource.spec
spec_shown = record {
  pools = (pool_at ∷ [], refl, (pool_shown, tt));
  image = refl;
  image_pull_policy = refl;
  image_pull_secret = refl;
  env = tt;
  mountpath = refl;
  configuration = tt;
  expose_services = refl;
  enable_cert = refl;
  reclaim_storage = refl;
  service_account_name = refl;
  tolerations = tt;
  resources = refl;
  affinity = tt;
  liveness = tt;
  readiness = tt;
  startup = tt;
  lifecycle = tt;
}

status_shown : MinioStatusShows memory status_at resource.status
status_shown = record {
  status = refl;
  message = refl;
  pool_status = tt;
  health_status = refl;
  service = refl;
  pvc_status = tt;
}

minio_shown : MinioShows meanings memory minio_at minio_value
minio_shown = record {
  type_meta = refl;
  object_meta = refl;
  spec = spec_shown;
  status = status_shown;
}

minio_deep_copy_lem_example :
    Fresh memory
      (minio_deep_copy copies (some 3) memory)
      (λ g q. Points (MinioShows meanings) (Kinds.minio_cell library) g q (some minio_value))
minio_deep_copy_lem_example =
    minio_deep_copy_lem copies meanings copies-AreDeep memory (some 3) (some minio_value)
      (minio_at, refl, minio_shown)
