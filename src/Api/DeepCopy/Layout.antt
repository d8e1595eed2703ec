-- ===== src/Api/DeepCopy/Layout.antt =====
-- The API types as they lie in memory: a pointer, a slice and a map are an address or nil.
use minio_operator.Base.{ℕ, String, Bool, Option, List}
use minio_operator.Api.Types.{
  ℤ, DeployStatus, PoolDeployStatus, HealthStatus, ExposeServices, MinioServer, MinioServiceAddr,
  PvcStatus,
}

abbrev pub Address : Type 0
Address = Option ℕ

-- The objects of the libraries, and whatever else lies in memory.
pub record Library : Type 1 where
  pub ObjectMeta : Type 0
  pub ListMeta : Type 0
  pub EnvVar : Type 0
  pub Toleration : Type 0
  pub Resources : Type 0
  pub Affinity : Type 0
  pub Probe : Type 0
  pub Lifecycle : Type 0
  pub PersistentVolumeClaim : Type 0
  pub PodSecurityContext : Type 0
  pub SecurityContext : Type 0
  pub Other : Type 0

-- `metav1.TypeMeta`
pub record TypeMeta : Type 0 where
  pub kind : String
  pub api_version : String

-- `MinIOServer` and `PVCStatus` hold no pointers, and lie in memory as they are.
pub record PoolStatusAt : Type 0 where
  pub name : String
  pub status : PoolDeployStatus
  pub available_replicas : ℕ
  pub replicas : ℤ
  pub servers : Address

pub record MinioStatusAt : Type 0 where
  pub status : DeployStatus
  pub message : String
  pub pool_status : Address
  pub health_status : HealthStatus
  pub service : MinioServiceAddr
  pub pvc_status : Address

pub record PoolAt : Type 0 where
  pub name : String
  pub servers : ℤ
  pub volumes_per_server : ℤ
  pub volume_claim_template : Address
  pub node_selector : Address
  pub security_context : Address
  pub container_security_context : Address

module _ (L : Library) where
  pub record MinioSpecAt : Type 0 where
    pub pools : Address
    pub image : String
    pub image_pull_policy : String
    pub image_pull_secret : String
    pub env : Address
    pub mountpath : String
    pub configuration : Address
    pub expose_services : ExposeServices
    pub enable_cert : Bool
    pub reclaim_storage : Bool
    pub service_account_name : String
    pub tolerations : Address
    pub resources : L.Resources
    pub affinity : Address
    pub liveness : Address
    pub readiness : Address
    pub startup : Address
    pub lifecycle : Address

  pub record MinioAt : Type 0 where
    pub type_meta : TypeMeta
    pub object_meta : L.ObjectMeta
    pub spec : MinioSpecAt
    pub status : MinioStatusAt

  pub record MinioListAt : Type 0 where
    pub type_meta : TypeMeta
    pub list_meta : L.ListMeta
    pub items : Address

  -- What lies at an address: a slice's array, a map, or what a pointer points to.
  pub data Cell : Type 0 where
    expose_services : ExposeServices → Cell
    minio : MinioAt → Cell
    minios : List MinioAt → Cell
    minio_list : MinioListAt → Cell
    minio_server : MinioServer → Cell
    minio_servers : List MinioServer → Cell
    minio_service_addr : MinioServiceAddr → Cell
    minio_spec : MinioSpecAt → Cell
    minio_status : MinioStatusAt → Cell
    pvc_status : PvcStatus → Cell
    pvc_statuses : List PvcStatus → Cell
    pool : PoolAt → Cell
    pools : List PoolAt → Cell
    pool_status : PoolStatusAt → Cell
    pool_statuses : List PoolStatusAt → Cell
    -- of the libraries
    env_vars : List L.EnvVar → Cell
    local_object_reference : String → Cell
    tolerations : List L.Toleration → Cell
    affinity : L.Affinity → Cell
    probe : L.Probe → Cell
    lifecycle : L.Lifecycle → Cell
    persistent_volume_claim : L.PersistentVolumeClaim → Cell
    string_map : List (String × String) → Cell
    pod_security_context : L.PodSecurityContext → Cell
    security_context : L.SecurityContext → Cell
    other : L.Other → Cell
