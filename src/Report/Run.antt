-- ===== src/Report/Run.antt =====
-- `Reconcile` of controllers/minio_status_controller.go. Of its result only `Requeue` is kept, and the
-- error.
use minio_operator.Base.{
  appended, items, ℕ, String, Bool, not, Option, none, some, List, [], ◌∷◌, map, if◌then◌else◌,
}
use minio_operator.Base.Exec.{Exec, Op, value, failure, call, must, pure, raise, ◌>>=◌}
use minio_operator.Api.Constants.{minio_label, pool_label}
use minio_operator.Api.Values.{Values}
use minio_operator.Api.Types.{
  Pool, Minio, MinioStatus, MinioServiceAddr, PvcStatus, PoolStatus, zero_minio,
}
use minio_operator.Cluster.{Cluster}
use minio_operator.StatusUpdate.{update_minio_status}
use minio_operator.Health.{is_completed}
use minio_operator.Report.{pool_status_of, deploy_status}
use minio_operator.Report.Inventory.{ClaimSeen, Inventory}
use minio_operator.Report.Addresses.{through, service_addresses}

abbrev or_blank : Option String → String
or_blank none = ""
or_blank (some s) = s

-- One round of the loop that sets `pvcStatus`.
abbrev pub pvc_status_of : ClaimSeen → PvcStatus
pvc_status_of pvc = record {
  name = pvc.name;
  status = pvc.phase;
  volume = pvc.volume_name;
  capacity = pvc.capacity;
  storage_class = or_blank pvc.storage_class_name;
}

-- The zero value of `svcStatus`.
abbrev pub no_addresses : MinioServiceAddr
no_addresses = record { minio = ""; console = "" }

abbrev pub minio_selector : {V : Values} → Minio V → List (String × String)
minio_selector m = (minio_label, m.name) ∷ []

abbrev pub pool_selector : {V : Values} → Minio V → Pool V → List (String × String)
pool_selector m pool = (minio_label, m.name) ∷ (pool_label, pool.name) ∷ []

-- The status that is written.
abbrev pub reported :
    MinioStatus → List ClaimSeen → MinioServiceAddr → List PoolStatus → MinioStatus
reported status pvcs addr pools = record status {
  status = deploy_status pools;
  pool_status = appended pools;
  service = addr;
  pvc_status = appended (map pvc_status_of pvcs);
}

module _ {V : Values} (K : Cluster V) (I : Inventory K) (kube_client : Bool) (fuel : ℕ) where
  open K use {State, Error}

  -- A list through `KubeClient`, whose error is returned.
  abbrev pub listed : {A : Type 0} → Op State Error A → Exec State Error A
  listed op = through K I kube_client (must op)

  -- The loop that sets `poolStatus`.
  unfoldable pub pool_statuses : Minio V → List (Pool V) → Exec State Error (List PoolStatus)
  unfolding pool_status_of
  pool_statuses m [] = pure []
  pool_statuses m (pool ∷ pools) =
      listed (I.list_pods m.namespace (pool_selector m pool)) >>= λ pods.
      pool_statuses m pools >>= λ rest. pure (pool_status_of pool.name pool.servers pods ∷ rest)

  -- `updateMinIOStatus`, of the text that the health controller has.
  unfoldable pub report_update_minio_status : Minio V → Exec State Error (Unit {0})
  unfolding update_minio_status
  report_update_minio_status = update_minio_status K fuel

  -- The end of `Reconcile`.
  unfoldable pub write_report : Minio V → MinioStatus → Exec State Error Bool
  unfolding report_update_minio_status
  write_report m status = report_update_minio_status (record m { status = status }) >>= λ _.
      pure (not (is_completed status.status))

  -- `Reconcile`, once the resource has been read.
  unfoldable pub report_status : Minio V → Exec State Error Bool
  unfolding pool_statuses service_addresses write_report
  report_status m = listed (I.list_pvcs m.namespace (minio_selector m)) >>= λ pvcs.
      listed (I.list_services m.namespace (minio_selector m)) >>= λ svcs.
      service_addresses K I kube_client m no_addresses svcs >>= λ addr.
      pool_statuses m (items m.spec.pools) >>= λ pools.
      write_report m (reported m.status pvcs addr pools)

  -- `Reconcile`: NotFound is returned, and after any other error of `Get` the resource is the zero value.
  unfoldable pub reconcile_status : String → String → Exec State Error Bool
  unfolding report_status
  reconcile_status namespace name = call (K.get_minio namespace name) >>= λ reply. elim reply [
    | value m ↦ report_status m
    | failure e ↦ if K.is_not_found e then raise e else report_status (zero_minio V)
  ]
