-- ===== src/Operator/Laws.antt =====
-- What the operator as a whole relies on of the server.
use minio_operator.Base.{String, some, ◌≡◌, ◌≢◌}
use minio_operator.Api.Values.{Values}
use minio_operator.Api.Objects.{Service, Pod, Claim}
use minio_operator.Api.Types.{Minio, MinioStatus}
use minio_operator.Cluster.{Cluster, Revision}
use minio_operator.StatusUpdate.Server.{IsOptimistic}
use minio_operator.Reconcile.Steps.Keeps.{HasVersion}

-- An update of the status changes at most the status and the version of a stored resource, which keeps
-- a version; no other call changes a resource.
pub record KeepsResources {V : Values} (K : Cluster V) (L : IsOptimistic K) : Type 0 where
  pub update_minio_status :
      (m : Minio V) (s : K.State) (ns name : String) (c : Minio V)
      → L.stored s ns name ≡ some c
      → HasVersion c
      → (st : MinioStatus) × (v : String) × (v ≢ "")
        × (L.stored (K.update_minio_status m s).1 ns name
            ≡ some (record c { resource_version = v; status = st }))
  pub get_minio : (ns name : String) (s : K.State) → L.stored (K.get_minio ns name s).1 ≡ L.stored s
  pub get_revision :
      (ns name : String) (s : K.State) → L.stored (K.get_revision ns name s).1 ≡ L.stored s
  pub create_revision :
      (cr : Revision V K.Raw) (s : K.State) → L.stored (K.create_revision cr s).1 ≡ L.stored s
  pub delete_revision :
      (cr : Revision V K.Raw) (s : K.State) → L.stored (K.delete_revision cr s).1 ≡ L.stored s
  pub list_claims :
      (ns : String) (l : String × String) (s : K.State)
      → L.stored (K.list_claims ns l s).1 ≡ L.stored s
  pub create_claim :
      (claim : Claim V) (s : K.State) → L.stored (K.create_claim claim s).1 ≡ L.stored s
  pub get_service :
      (ns name : String) (s : K.State) → L.stored (K.get_service ns name s).1 ≡ L.stored s
  pub create_service :
      (ns : String) (svc : Service V) (s : K.State)
      → L.stored (K.create_service ns svc s).1 ≡ L.stored s
  pub update_service :
      (ns : String) (svc : Service V) (s : K.State)
      → L.stored (K.update_service ns svc s).1 ≡ L.stored s
  pub create_pod :
      (ns : String) (pod : Pod V) (s : K.State) → L.stored (K.create_pod ns pod s).1 ≡ L.stored s
  pub update_pod :
      (ns : String) (pod : Pod V) (s : K.State) → L.stored (K.update_pod ns pod s).1 ≡ L.stored s
  pub event :
      (m : Minio V) (kind reason message : String) (s : K.State)
      → L.stored (K.event m kind reason message s) ≡ L.stored s
