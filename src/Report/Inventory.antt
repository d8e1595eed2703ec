-- ===== src/Report/Inventory.antt =====
-- What the status controller lists of the cluster, beside the calls of `Cluster`.
use minio_operator.Base.{String, Bool, Option, List}
use minio_operator.Base.Exec.{Op}
use minio_operator.Api.Values.{Values}
use minio_operator.Api.Objects.{Service}
use minio_operator.Cluster.{Cluster}

-- What the controller reads of a pod of the cluster.
pub record PodSeen : Type 0 where
  pub name : String
  pub host_ip : String
  pub pod_ip : String
  pub phase : String

-- What it reads of a claim; `capacity` is the text of the storage capacity.
pub record ClaimSeen : Type 0 where
  pub name : String
  pub capacity : String
  pub phase : String
  pub volume_name : String
  pub storage_class_name : Option String

pub record NodeAddress : Type 0 where
  pub type : String
  pub address : String

-- What it reads of a node.
pub record Node : Type 0 where
  pub addresses : List NodeAddress

-- The clientset's lists, by namespace and labels, and `lctval.IsIpV4`.
pub record Inventory {V : Values} (K : Cluster V) : Type 0 where
  pub list_pvcs : String → List (String × String) → Op K.State K.Error (List ClaimSeen)
  pub list_services : String → List (String × String) → Op K.State K.Error (List (Service V))
  pub list_pods : String → List (String × String) → Op K.State K.Error (List PodSeen)
  pub list_nodes : Op K.State K.Error (List Node)
  pub is_ipv4 : String → Bool
