-- ===== src/Api/Types.antt =====
-- api/v1alpha1/minio_types.go. A slice is an `Option`: nil and empty slices differ for
-- `reflect.DeepEqual` and in JSON.
pub mod Equal
use minio_operator.Base.{ℕ, String, Bool, false, Option, none, List}
use minio_operator.Api.Values.{Values}
use minio_operator.Api.Objects.{EnvVar}

-- Go's `int`, of which the operator only compares small values. `negsuc n` is -(n + 1).
pub data ℤ : Type 0 where
  pos : ℕ → ℤ
  negsuc : ℕ → ℤ

-- The rounds of `for i := 0; i < n; i++`.
abbrev pub pos_part : ℤ → ℕ
pos_part (pos n) = n
pos_part (negsuc n) = 0

-- `DeployStatus`; `unset` is the empty string of a status that was never written.
pub data DeployStatus : Type 0 where
  unset nothing completed running failed : DeployStatus

-- `PoolDeployStatus`; `unset` is its zero value.
pub data PoolDeployStatus : Type 0 where
  unset completed running failed : PoolDeployStatus

pub data HealthStatus : Type 0 where
  unset health un_health unknown : HealthStatus

pub record ExposeServices : Type 0 where
  pub minio : Bool
  pub console : Bool

pub record MinioServer : Type 0 where
  pub name : String
  pub host_ip : String
  pub pod_ip : String
  pub status : String

pub record PoolStatus : Type 0 where
  pub name : String
  pub status : PoolDeployStatus
  pub available_replicas : ℕ
  pub replicas : ℤ
  pub servers : Option (List MinioServer)

pub record MinioServiceAddr : Type 0 where
  pub minio : String
  pub console : String

pub record PvcStatus : Type 0 where
  pub name : String
  pub status : String
  pub volume : String
  pub capacity : String
  pub storage_class : String

pub record MinioStatus : Type 0 where
  pub status : DeployStatus
  pub message : String
  pub pool_status : Option (List PoolStatus)
  pub health_status : HealthStatus
  pub service : MinioServiceAddr
  pub pvc_status : Option (List PvcStatus)

module _ (V : Values) where
  -- `*corev1.PersistentVolumeClaim`, as a template
  pub record ClaimTemplate : Type 0 where
    pub name : String
    pub storage_class_name : Option String
    pub rest : V.ClaimRest

  pub record Pool : Type 0 where
    pub name : String
    pub servers : ℤ
    pub volumes_per_server : ℤ
    pub volume_claim_template : Option ClaimTemplate
    pub node_selector : V.NodeSelector
    pub security_context : Option V.PodSecurityContext
    pub container_security_context : Option V.SecurityContext

  -- `image_pull_secret` and `configuration` are the `Name` of a `LocalObjectReference`.
  pub record MinioSpec : Type 0 where
    pub pools : Option (List Pool)
    pub image : String
    pub image_pull_policy : String
    pub image_pull_secret : String
    pub env : Option (List (EnvVar V))
    pub mountpath : String
    pub configuration : Option String
    pub expose_services : ExposeServices
    pub enable_cert : Bool
    pub reclaim_storage : Bool
    pub service_account_name : String
    pub tolerations : Option (List V.Toleration)
    pub resources : V.Resources
    pub affinity : Option V.Affinity
    pub liveness : Option V.Probe
    pub readiness : Option V.Probe
    pub startup : Option V.Probe
    pub lifecycle : Option V.Lifecycle

  -- `deleting` says that `DeletionTimestamp` is set.
  pub record Minio : Type 0 where
    pub name : String
    pub namespace : String
    pub uid : String
    pub resource_version : String
    pub deleting : Bool
    pub spec : MinioSpec
    pub status : MinioStatus

-- The zero values.
abbrev pub zero_status : MinioStatus
zero_status = record {
  status = DeployStatus.unset;
  message = "";
  pool_status = none;
  health_status = HealthStatus.unset;
  service = record { minio = ""; console = "" };
  pvc_status = none;
}

module _ (V : Values) where
  abbrev pub zero_spec : MinioSpec V
  zero_spec = record {
    pools = none;
    image = "";
    image_pull_policy = "";
    image_pull_secret = "";
    env = none;
    mountpath = "";
    configuration = none;
    expose_services = record { minio = false; console = false };
    enable_cert = false;
    reclaim_storage = false;
    service_account_name = "";
    tolerations = none;
    resources = V.resources_zero;
    affinity = none;
    liveness = none;
    readiness = none;
    startup = none;
    lifecycle = none;
  }

  abbrev pub zero_minio : Minio V
  zero_minio = record {
    name = "";
    namespace = "";
    uid = "";
    resource_version = "";
    deleting = false;
    spec = zero_spec;
    status = zero_status;
  }
