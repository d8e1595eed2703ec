-- ===== src/Reconcile/Services/Laws.antt =====
-- What the checks of services rely on of the server.
use minio_operator.Base.{String, Option, some, All, ◌≡◌, ◌≢◌}
use minio_operator.Base.Exec.{value}
use minio_operator.Api.Values.{Values}
use minio_operator.Api.Objects.{Service, Pod, Claim}
use minio_operator.Api.Types.{Minio}
use minio_operator.Service.Matching.{Matches}
use minio_operator.Cluster.{Cluster, Revision}

-- A service that the server stores as it is: each port has its target, and the service matches itself,
-- which it does where its maps give each key one value.
abbrev pub IsComplete : {V : Values} → Service V → Type 0
IsComplete {V} svc =
    All (λ p. p.target_port ≢ V.int_or_string_zero) svc.spec.ports × Matches V svc svc

-- What the server documents of services, where no other client changes them: a read gives what is
-- stored, a create and an update store the service that they return, an update with a complete
-- service keeps its labels, annotations and specification, and an event changes no service.
pub record KeepsServices {V : Values} (K : Cluster V) : Type 0 where
  pub service : K.State → String → String → Option (Service V)
  pub get_value :
      (s s' : K.State) (ns name : String) (svc : Service V)
      → K.get_service ns name s ≡ (value svc, s')
      → (s' ≡ s) × (service s ns name ≡ some svc) × (svc.name ≡ name)
  pub get_some :
      (s : K.State) (ns name : String) (svc : Service V)
      → service s ns name ≡ some svc
      → K.get_service ns name s ≡ (value svc, s)
  pub create_value :
      (s s' : K.State) (ns : String) (svc stored : Service V)
      → K.create_service ns svc s ≡ (value stored, s')
      → (service s' ns svc.name ≡ some stored) × (stored.name ≡ svc.name)
  pub update_value :
      (s s' : K.State) (ns : String) (svc stored : Service V)
      → IsComplete svc
      → K.update_service ns svc s ≡ (value stored, s')
      → (service s' ns svc.name ≡ some stored) × Matches V stored svc
  pub event_services :
      (s : K.State) (m : Minio V) (kind reason message : String)
      → service (K.event m kind reason message s) ≡ service s

module _ {V : Values} (K : Cluster V) (L : KeepsServices K) where
  -- The service is stored, and as it should be.
  abbrev pub Installed : K.State → String → String → Service V → Type 0
  Installed s ns name expected =
      (svc : Service V) × (L.service s ns name ≡ some svc) × Matches V svc expected

-- The same of all that is not written: a call changes no service but the one that it creates or
-- updates.
pub record KeepsOthers {V : Values} (K : Cluster V) (S : KeepsServices K) : Type 0 where
  pub get_minio :
      (ns name : String) (s : K.State) → S.service (K.get_minio ns name s).1 ≡ S.service s
  pub update_minio_status :
      (m : Minio V) (s : K.State) → S.service (K.update_minio_status m s).1 ≡ S.service s
  pub get_revision :
      (ns name : String) (s : K.State) → S.service (K.get_revision ns name s).1 ≡ S.service s
  pub create_revision :
      (cr : Revision V K.Raw) (s : K.State) → S.service (K.create_revision cr s).1 ≡ S.service s
  pub delete_revision :
      (cr : Revision V K.Raw) (s : K.State) → S.service (K.delete_revision cr s).1 ≡ S.service s
  pub list_claims :
      (ns : String) (l : String × String) (s : K.State)
      → S.service (K.list_claims ns l s).1 ≡ S.service s
  pub create_claim :
      (claim : Claim V) (s : K.State) → S.service (K.create_claim claim s).1 ≡ S.service s
  pub get_service :
      (ns name : String) (s : K.State) → S.service (K.get_service ns name s).1 ≡ S.service s
  pub create_pod :
      (ns : String) (pod : Pod V) (s : K.State) → S.service (K.create_pod ns pod s).1 ≡ S.service s
  pub update_pod :
      (ns : String) (pod : Pod V) (s : K.State) → S.service (K.update_pod ns pod s).1 ≡ S.service s
  pub create_service :
      (ns : String) (svc : Service V) (s : K.State) (ns' name : String)
      → name ≢ svc.name
      → S.service (K.create_service ns svc s).1 ns' name ≡ S.service s ns' name
  pub update_service :
      (ns : String) (svc : Service V) (s : K.State) (ns' name : String)
      → name ≢ svc.name
      → S.service (K.update_service ns svc s).1 ns' name ≡ S.service s ns' name
