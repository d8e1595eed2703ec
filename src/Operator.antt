-- ===== src/Operator.antt =====
-- The operator as a whole: its three controllers on one cluster. A step is one run of one of them; runs
-- do not overlap, and `Reconcile` of the MinIO controller runs for one resource. The status controller
-- and the health controller run for any.
pub mod Laws
mod Stays
pub mod Settled
pub mod Reached
pub mod Clash
pub mod Contended
use minio_operator.Base.{ℕ, suc, String, Bool, ◌≡◌}
use minio_operator.Api.Values.{Values}
use minio_operator.Api.Types.{Minio}
use minio_operator.Cluster.{Cluster}
use minio_operator.Reconcile.Steps.{MinioReconciler}
use minio_operator.Reconcile.Main.{reconcile}
use minio_operator.Report.Inventory.{Inventory}
use minio_operator.Report.Run.{reconcile_status}
use minio_operator.Health.{reconcile_health}

module _ {V : Values} (K : Cluster V) (I : Inventory K) (healthy : Minio V → K.State → Bool)
    (namespace name : String) where
  -- One run, however it ends; a `Reconcile` has the fuel that is enough.
  pub data Step (s t : K.State) : Type 0 where
    minio_run :
        (r : MinioReconciler) (fuel : ℕ)
        → (t ≡ (reconcile K (suc (suc fuel)) r namespace name s).1)
        → Step s t
    status_run :
        (kube_client : Bool) (fuel : ℕ) (other_namespace other_name : String)
        → (t ≡ (reconcile_status K I kube_client fuel other_namespace other_name s).1)
        → Step s t
    health_run :
        (fuel : ℕ) (other_namespace other_name : String)
        → (t ≡ (reconcile_health K healthy fuel other_namespace other_name s).1)
        → Step s t

  -- Any number of runs, in any order.
  pub data Reach (s : K.State) : K.State → Type 0 where
    here : Reach s s
    next : {t u : K.State} → Reach s t → Step t u → Reach s u
