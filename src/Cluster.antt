-- ===== src/Cluster.antt =====
-- The Kubernetes API as the controllers call it (client.Client, the clientset and the event
-- recorder), over an unknown state, and the library functions that they need. What other clients
-- do between two calls is part of the operations.
use minio_operator.Base.{String, Bool, List}
use minio_operator.Base.Exec.{Op, Reply}
use minio_operator.Api.Values.{Values}
use minio_operator.Api.Objects.{Service, Pod, Claim}
use minio_operator.Api.Types.{MinioSpec, Minio}

-- `appsv1.ControllerRevision`: what the operator sets of it.
pub record Revision (V : Values) (Raw : Type 0) : Type 0 where
  pub name : String
  pub namespace : String
  pub raw : Raw
  pub owner_references : List V.OwnerReference

-- In each operation the namespace comes first, then the name or the object.
pub record Cluster (V : Values) : Type 1 where
  pub State : Type 0
  pub Error : Type 0
  -- `errors.IsNotFound`, `errors.IsConflict`, `err.Error()`
  pub is_not_found : Error → Bool
  pub is_conflict : Error → Bool
  pub error_text : Error → String
  -- client.Client
  pub get_minio : String → String → Op State Error (Minio V)
  pub update_minio_status : Minio V → Op State Error (Unit {0})
  -- JSON, and the text that it is kept as
  pub Raw : Type 0
  pub marshal : MinioSpec V → Raw
  pub unmarshal : Raw → Reply Error (MinioSpec V)
  pub get_revision : String → String → Op State Error (Revision V Raw)
  pub create_revision : Revision V Raw → Op State Error (Unit {0})
  pub delete_revision : Revision V Raw → Op State Error (Unit {0})
  -- `controllerutil.SetControllerReference(owner, cr, scheme)`
  pub set_controller_reference : Minio V → Revision V Raw → Reply Error (Revision V Raw)
  -- the claims of a namespace with one label, and their number
  pub ClaimItem : Type 0
  pub list_claims : String → String × String → Op State Error (List ClaimItem)
  pub create_claim : Claim V → Op State Error (Unit {0})
  -- the clientset
  pub get_service : String → String → Op State Error (Service V)
  pub create_service : String → Service V → Op State Error (Service V)
  pub update_service : String → Service V → Op State Error (Service V)
  pub create_pod : String → Pod V → Op State Error (Pod V)
  pub update_pod : String → Pod V → Op State Error (Pod V)
  -- the recorder's `Event`, from the object, the type, the reason and the message
  pub event : Minio V → String → String → String → State → State
