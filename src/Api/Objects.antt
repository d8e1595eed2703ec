-- ===== src/Api/Objects.antt =====
-- The Kubernetes objects that the operator builds: the fields of them that its code writes or reads.
-- A map is an association list, and `[]` where it is nil.
use minio_operator.Base.{ℕ, String, Bool, Option, List}
use minio_operator.Api.Values.{Values}

-- `map[string]string`
abbrev pub Labels : Type 0
Labels = List (String × String)

-- `corev1.ServiceType`
pub data ServiceType : Type 0 where
  cluster_ip node_port other : ServiceType

module _ (V : Values) where
  pub record EnvVar : Type 0 where
    pub name : String
    pub value : String
    pub value_from : Option V.EnvVarSource

  pub record ServicePort : Type 0 where
    pub name : String
    pub port : ℕ
    pub target_port : V.IntOrString
    -- set by the cluster
    pub node_port : ℕ

  -- `cluster_ip_field` is `ClusterIP`, "" where the cluster is to choose.
  pub record ServiceSpec : Type 0 where
    pub ports : List ServicePort
    pub selector : Labels
    pub type : ServiceType
    pub cluster_ip_field : String
    pub publish_not_ready_addresses : Bool

  pub record Service : Type 0 where
    pub name : String
    pub namespace : String
    pub labels : Labels
    pub annotations : Labels
    pub owner_references : List V.OwnerReference
    pub spec : ServiceSpec

  -- A volume that is a claim.
  pub record Volume : Type 0 where
    pub name : String
    pub claim_name : String

  pub record VolumeMount : Type 0 where
    pub name : String
    pub mount_path : String

  pub record Container : Type 0 where
    pub name : String
    pub image : String
    pub ports : List ℕ
    pub image_pull_policy : String
    pub volume_mounts : List VolumeMount
    pub args : List String
    pub env : List EnvVar
    pub resources : V.Resources
    pub liveness_probe : Option V.Probe
    pub readiness_probe : Option V.Probe
    pub startup_probe : Option V.Probe
    pub lifecycle : Option V.Lifecycle
    pub security_context : Option V.SecurityContext

  pub record Pod : Type 0 where
    pub name : String
    pub namespace : String
    pub labels : Labels
    pub owner_references : List V.OwnerReference
    pub volumes : List Volume
    pub containers : List Container
    pub node_selector : V.NodeSelector
    pub service_account_name : String
    pub hostname : String
    pub subdomain : String
    pub affinity : Option V.Affinity
    pub tolerations : Option (List V.Toleration)

  -- A claim that the operator creates; its one access mode is ReadWriteOnce.
  pub record Claim : Type 0 where
    pub name : String
    pub namespace : String
    pub labels : Labels
    pub resources : V.Resources
    pub storage_class_name : Option String
