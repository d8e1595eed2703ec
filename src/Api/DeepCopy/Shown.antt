-- ===== src/Api/DeepCopy/Shown.antt =====
-- What the objects in memory stand for: the values of `Api.Types`.
use minio_operator.Base.{String, Bool, Option, List, ◌≡◌}
use minio_operator.Api.Values.{Values}
use minio_operator.Api.Objects.{EnvVar}
use minio_operator.Api.Types.{
  ClaimTemplate, Pool, MinioSpec, MinioStatus, PoolStatus, MinioServer, PvcStatus,
}
use minio_operator.Api.DeepCopy.{DeepCopies}
use minio_operator.Api.DeepCopy.Kinds
use minio_operator.Api.DeepCopy.Fresh.{Deep, AllShow, Points}
use minio_operator.Api.DeepCopy.Layout.{
  Address, Library, TypeMeta, PoolStatusAt, MinioStatusAt, PoolAt, MinioSpecAt, MinioAt,
  MinioListAt, Cell,
}

-- What the operator reads of `metav1.ObjectMeta`.
pub record Meta : Type 0 where
  pub name : String
  pub namespace : String
  pub uid : String
  pub resource_version : String
  pub deleting : Bool

-- What the libraries' objects stand for.
pub record Meanings (V : Values) (L : Library) : Type 1 where
  pub object_meta : List (Cell L) → L.ObjectMeta → Meta → Type 0
  pub ListMeta : Type 0
  pub list_meta : List (Cell L) → L.ListMeta → ListMeta → Type 0
  pub env_var : List (Cell L) → L.EnvVar → EnvVar V → Type 0
  pub toleration : List (Cell L) → L.Toleration → V.Toleration → Type 0
  pub resources : List (Cell L) → L.Resources → V.Resources → Type 0
  pub affinity : List (Cell L) → L.Affinity → V.Affinity → Type 0
  pub probe : List (Cell L) → L.Probe → V.Probe → Type 0
  pub lifecycle : List (Cell L) → L.Lifecycle → V.Lifecycle → Type 0
  pub persistent_volume_claim : List (Cell L) → L.PersistentVolumeClaim → ClaimTemplate V → Type 0
  pub pod_security_context : List (Cell L) → L.PodSecurityContext → V.PodSecurityContext → Type 0
  pub security_context : List (Cell L) → L.SecurityContext → V.SecurityContext → Type 0
  -- a map, or nil
  pub node_selector : Option (List (String × String)) → V.NodeSelector

-- The libraries document that their `DeepCopyInto` is deep.
pub record AreDeep {V : Values} {L : Library} (D : DeepCopies L) (M : Meanings V L) : Type 0 where
  pub object_meta : Deep M.object_meta D.object_meta
  pub list_meta : Deep M.list_meta D.list_meta
  pub env_var : Deep M.env_var D.env_var
  pub toleration : Deep M.toleration D.toleration
  pub resources : Deep M.resources D.resources
  pub affinity : Deep M.affinity D.affinity
  pub probe : Deep M.probe D.probe
  pub lifecycle : Deep M.lifecycle D.lifecycle
  pub persistent_volume_claim : Deep M.persistent_volume_claim D.persistent_volume_claim
  pub pod_security_context : Deep M.pod_security_context D.pod_security_context
  pub security_context : Deep M.security_context D.security_context

module _ {L : Library} where
  abbrev pub Flat : {A : Type 0} → List (Cell L) → A → A → Type 0
  Flat h a b = a ≡ b

  -- The slice `Servers`
  abbrev pub ServersShow : List (Cell L) → Address → Option (List MinioServer) → Type 0
  ServersShow h = Points Flat (Kinds.minio_servers_cell L) h

  pub record PoolStatusShows (h : List (Cell L)) (x : PoolStatusAt) (v : PoolStatus) : Type 0 where
    pub name : x.name ≡ v.name
    pub status : x.status ≡ v.status
    pub available_replicas : x.available_replicas ≡ v.available_replicas
    pub replicas : x.replicas ≡ v.replicas
    pub servers : ServersShow h x.servers v.servers

  abbrev pub PoolStatusesShow : List (Cell L) → Address → Option (List PoolStatus) → Type 0
  PoolStatusesShow h = Points (AllShow PoolStatusShows) (Kinds.pool_statuses_cell L) h

  abbrev pub PvcStatusesShow : List (Cell L) → Address → Option (List PvcStatus) → Type 0
  PvcStatusesShow h = Points Flat (Kinds.pvc_statuses_cell L) h

  pub record MinioStatusShows (h : List (Cell L)) (x : MinioStatusAt) (v : MinioStatus)
      : Type 0 where
    pub status : x.status ≡ v.status
    pub message : x.message ≡ v.message
    pub pool_status : PoolStatusesShow h x.pool_status v.pool_status
    pub health_status : x.health_status ≡ v.health_status
    pub service : x.service ≡ v.service
    pub pvc_status : PvcStatusesShow h x.pvc_status v.pvc_status

module _ {V : Values} {L : Library} (M : Meanings V L) where
  abbrev pub NodeSelectorShows : List (Cell L) → Address → V.NodeSelector → Type 0
  NodeSelectorShows h p v =
      (o : Option (List (String × String))) × Points (AllShow Flat) (Kinds.string_map_cell L) h p o
      × (v ≡ M.node_selector o)

  pub record PoolShows (h : List (Cell L)) (x : PoolAt) (v : Pool V) : Type 0 where
    pub name : x.name ≡ v.name
    pub servers : x.servers ≡ v.servers
    pub volumes_per_server : x.volumes_per_server ≡ v.volumes_per_server
    pub volume_claim_template :
        Points M.persistent_volume_claim
          (Kinds.persistent_volume_claim_cell L)
          h
          x.volume_claim_template
          v.volume_claim_template
    pub node_selector : NodeSelectorShows h x.node_selector v.node_selector
    pub security_context :
        Points M.pod_security_context
          (Kinds.pod_security_context_cell L)
          h
          x.security_context
          v.security_context
    pub container_security_context :
        Points M.security_context
          (Kinds.security_context_cell L)
          h
          x.container_security_context
          v.container_security_context

  abbrev pub PoolsShow : List (Cell L) → Address → Option (List (Pool V)) → Type 0
  PoolsShow h = Points (AllShow PoolShows) (Kinds.pools_cell L) h

  pub record MinioSpecShows (h : List (Cell L)) (x : MinioSpecAt L) (v : MinioSpec V) : Type 0 where
    pub pools : PoolsShow h x.pools v.pools
    pub image : x.image ≡ v.image
    pub image_pull_policy : x.image_pull_policy ≡ v.image_pull_policy
    pub image_pull_secret : x.image_pull_secret ≡ v.image_pull_secret
    pub env : Points (AllShow M.env_var) (Kinds.env_vars_cell L) h x.env v.env
    pub mountpath : x.mountpath ≡ v.mountpath
    pub configuration :
        Points Flat (Kinds.local_object_reference_cell L) h x.configuration v.configuration
    pub expose_services : x.expose_services ≡ v.expose_services
    pub enable_cert : x.enable_cert ≡ v.enable_cert
    pub reclaim_storage : x.reclaim_storage ≡ v.reclaim_storage
    pub service_account_name : x.service_account_name ≡ v.service_account_name
    pub tolerations :
        Points (AllShow M.toleration) (Kinds.tolerations_cell L) h x.tolerations v.tolerations
    pub resources : M.resources h x.resources v.resources
    pub affinity : Points M.affinity (Kinds.affinity_cell L) h x.affinity v.affinity
    pub liveness : Points M.probe (Kinds.probe_cell L) h x.liveness v.liveness
    pub readiness : Points M.probe (Kinds.probe_cell L) h x.readiness v.readiness
    pub startup : Points M.probe (Kinds.probe_cell L) h x.startup v.startup
    pub lifecycle : Points M.lifecycle (Kinds.lifecycle_cell L) h x.lifecycle v.lifecycle

  -- A resource: its two type fields, what is read of its metadata, its specification and its status.
  pub record MinioValue : Type 0 where
    pub type_meta : TypeMeta
    pub object_meta : Meta
    pub spec : MinioSpec V
    pub status : MinioStatus

  pub record MinioShows (h : List (Cell L)) (x : MinioAt L) (v : MinioValue) : Type 0 where
    pub type_meta : x.type_meta ≡ v.type_meta
    pub object_meta : M.object_meta h x.object_meta v.object_meta
    pub spec : MinioSpecShows h x.spec v.spec
    pub status : MinioStatusShows h x.status v.status

  pub record MinioListValue : Type 0 where
    pub type_meta : TypeMeta
    pub list_meta : M.ListMeta
    pub items : Option (List MinioValue)

  pub record MinioListShows (h : List (Cell L)) (x : MinioListAt L) (v : MinioListValue)
      : Type 0 where
    pub type_meta : x.type_meta ≡ v.type_meta
    pub list_meta : M.list_meta h x.list_meta v.list_meta
    pub items : Points (AllShow MinioShows) (Kinds.minios_cell L) h x.items v.items
