-- ===== src/Api/DeepCopy.antt =====
-- api/v1alpha1/zz_generated.deepcopy.go: the deep copies of the API types, in a memory. `DeepCopyInto`
-- starts with `*out = *in` and then sets the fields of `out` that hold pointers; here it returns `out`.
-- `DeepCopyInto` of the libraries' types are parameters.
pub mod Memory
pub mod Fresh
pub mod Layout
pub mod Kinds
pub mod Shown
pub mod Statuses
pub mod Specs
pub mod Whole
use minio_operator.Base.{String, Option}
use minio_operator.Api.Types.{ExposeServices, MinioServer, MinioServiceAddr, PvcStatus}
use minio_operator.Api.DeepCopy.Kinds
use minio_operator.Api.DeepCopy.Memory.{
  Copy, pure, ◌>>=◌, copy_all, copy_pointer, copy_slice, deep_copy,
}
use minio_operator.Api.DeepCopy.Layout.{
  Address, Library, PoolStatusAt, MinioStatusAt, PoolAt, MinioSpecAt, MinioAt, MinioListAt, Cell,
}

-- `DeepCopyInto` of the libraries' types.
pub record DeepCopies (L : Library) : Type 0 where
  pub object_meta : L.ObjectMeta → Copy (Cell L) L.ObjectMeta
  pub list_meta : L.ListMeta → Copy (Cell L) L.ListMeta
  pub env_var : L.EnvVar → Copy (Cell L) L.EnvVar
  pub toleration : L.Toleration → Copy (Cell L) L.Toleration
  pub resources : L.Resources → Copy (Cell L) L.Resources
  pub affinity : L.Affinity → Copy (Cell L) L.Affinity
  pub probe : L.Probe → Copy (Cell L) L.Probe
  pub lifecycle : L.Lifecycle → Copy (Cell L) L.Lifecycle
  pub persistent_volume_claim : L.PersistentVolumeClaim → Copy (Cell L) L.PersistentVolumeClaim
  pub pod_security_context : L.PodSecurityContext → Copy (Cell L) L.PodSecurityContext
  pub security_context : L.SecurityContext → Copy (Cell L) L.SecurityContext

module _ {L : Library} where
  -- `ExposeServices.DeepCopyInto`
  abbrev pub expose_services_deep_copy_into : ExposeServices → Copy (Cell L) ExposeServices
  expose_services_deep_copy_into x = pure x

  -- `MinIOServer.DeepCopyInto`
  abbrev pub minio_server_deep_copy_into : MinioServer → Copy (Cell L) MinioServer
  minio_server_deep_copy_into x = pure x

  -- `MinIOServiceAddr.DeepCopyInto`
  abbrev pub minio_service_addr_deep_copy_into : MinioServiceAddr → Copy (Cell L) MinioServiceAddr
  minio_service_addr_deep_copy_into x = pure x

  -- `PVCStatus.DeepCopyInto`
  abbrev pub pvc_status_deep_copy_into : PvcStatus → Copy (Cell L) PvcStatus
  pvc_status_deep_copy_into x = pure x

  -- `PoolStatus.DeepCopyInto`; the builtin `copy` of a slice without pointers copies its array.
  abbrev pub pool_status_deep_copy_into : PoolStatusAt → Copy (Cell L) PoolStatusAt
  pool_status_deep_copy_into x = do
    servers ← copy_pointer (Kinds.minio_servers_cell L) pure x.servers
    pure (record x { servers = servers })

  -- `MinIOStatus.DeepCopyInto`
  unfoldable pub minio_status_deep_copy_into : MinioStatusAt → Copy (Cell L) MinioStatusAt
  unfolding copy_all
  minio_status_deep_copy_into x = do
    pool_status ← copy_slice (Kinds.pool_statuses_cell L) pool_status_deep_copy_into x.pool_status
    pvc_status ← copy_pointer (Kinds.pvc_statuses_cell L) pure x.pvc_status
    pure (record x { pool_status = pool_status; pvc_status = pvc_status })

module _ {L : Library} (D : DeepCopies L) where
  -- `Pool.DeepCopyInto`. The entries of a map are put into the new one each at its key.
  unfoldable pub pool_deep_copy_into : PoolAt → Copy (Cell L) PoolAt
  unfolding copy_all
  pool_deep_copy_into x = do
    volume_claim_template ←
        copy_pointer (Kinds.persistent_volume_claim_cell L) D.persistent_volume_claim
          x.volume_claim_template
    node_selector ← copy_pointer (Kinds.string_map_cell L) (copy_all pure) x.node_selector
    security_context ←
        copy_pointer (Kinds.pod_security_context_cell L) D.pod_security_context x.security_context
    container_security_context ←
        copy_pointer (Kinds.security_context_cell L) D.security_context x.container_security_context
    pure (record x {
      volume_claim_template = volume_claim_template;
      node_selector = node_selector;
      security_context = security_context;
      container_security_context = container_security_context;
    })

  -- `MinIOSpec.DeepCopyInto`, from the slices on to `Resources`
  unfoldable pub minio_spec_deep_copy_into : MinioSpecAt L → Copy (Cell L) (MinioSpecAt L)
  unfolding pool_deep_copy_into copy_all
  minio_spec_deep_copy_into x = do
    pools ← copy_slice (Kinds.pools_cell L) pool_deep_copy_into x.pools
    env ← copy_slice (Kinds.env_vars_cell L) D.env_var x.env
    configuration ← copy_pointer (Kinds.local_object_reference_cell L) pure x.configuration
    tolerations ← copy_slice (Kinds.tolerations_cell L) D.toleration x.tolerations
    resources ← D.resources x.resources
    affinity ← copy_pointer (Kinds.affinity_cell L) D.affinity x.affinity
    liveness ← copy_pointer (Kinds.probe_cell L) D.probe x.liveness
    readiness ← copy_pointer (Kinds.probe_cell L) D.probe x.readiness
    startup ← copy_pointer (Kinds.probe_cell L) D.probe x.startup
    lifecycle ← copy_pointer (Kinds.lifecycle_cell L) D.lifecycle x.lifecycle
    pure (record x {
      pools = pools;
      env = env;
      configuration = configuration;
      tolerations = tolerations;
      resources = resources;
      affinity = affinity;
      liveness = liveness;
      readiness = readiness;
      startup = startup;
      lifecycle = lifecycle;
    })

  -- `MinIO.DeepCopyInto`
  unfoldable pub minio_deep_copy_into : MinioAt L → Copy (Cell L) (MinioAt L)
  unfolding minio_spec_deep_copy_into minio_status_deep_copy_into
  minio_deep_copy_into x = do
    object_meta ← D.object_meta x.object_meta
    spec ← minio_spec_deep_copy_into x.spec
    status ← minio_status_deep_copy_into x.status
    pure (record x { object_meta = object_meta; spec = spec; status = status })

  -- `MinIOList.DeepCopyInto`
  unfoldable pub minio_list_deep_copy_into : MinioListAt L → Copy (Cell L) (MinioListAt L)
  unfolding minio_deep_copy_into copy_all
  minio_list_deep_copy_into x = do
    list_meta ← D.list_meta x.list_meta
    items ← copy_slice (Kinds.minios_cell L) minio_deep_copy_into x.items
    pure (record x { list_meta = list_meta; items = items })

  -- The methods `DeepCopy`; those of `MinIO` and `MinIOList` are also `DeepCopyObject`, with a nil
  -- pointer as the nil interface.
  abbrev pub expose_services_deep_copy : Address → Copy (Cell L) Address
  expose_services_deep_copy =
      deep_copy (Kinds.expose_services_cell L) expose_services_deep_copy_into

  abbrev pub minio_server_deep_copy : Address → Copy (Cell L) Address
  minio_server_deep_copy = deep_copy (Kinds.minio_server_cell L) minio_server_deep_copy_into

  abbrev pub minio_service_addr_deep_copy : Address → Copy (Cell L) Address
  minio_service_addr_deep_copy =
      deep_copy (Kinds.minio_service_addr_cell L) minio_service_addr_deep_copy_into

  abbrev pub pvc_status_deep_copy : Address → Copy (Cell L) Address
  pvc_status_deep_copy = deep_copy (Kinds.pvc_status_cell L) pvc_status_deep_copy_into

  abbrev pub pool_status_deep_copy : Address → Copy (Cell L) Address
  pool_status_deep_copy = deep_copy (Kinds.pool_status_cell L) pool_status_deep_copy_into

  abbrev pub minio_status_deep_copy : Address → Copy (Cell L) Address
  minio_status_deep_copy = deep_copy (Kinds.minio_status_cell L) minio_status_deep_copy_into

  abbrev pub pool_deep_copy : Address → Copy (Cell L) Address
  pool_deep_copy = deep_copy (Kinds.pool_cell L) pool_deep_copy_into

  abbrev pub minio_spec_deep_copy : Address → Copy (Cell L) Address
  minio_spec_deep_copy = deep_copy (Kinds.minio_spec_cell L) minio_spec_deep_copy_into

  unfoldable pub minio_deep_copy : Address → Copy (Cell L) Address
  unfolding minio_deep_copy_into
  minio_deep_copy = deep_copy (Kinds.minio_cell L) minio_deep_copy_into

  unfoldable pub minio_list_deep_copy : Address → Copy (Cell L) Address
  unfolding minio_list_deep_copy_into
  minio_list_deep_copy = deep_copy (Kinds.minio_list_cell L) minio_list_deep_copy_into
