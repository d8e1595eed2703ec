-- ===== src/Tests/Reports.antt =====
-- The status of concrete pools.
use minio_operator.Base.{some, none, List, [], ◌∷◌, ◌++◌, map, All, ◌≡◌, ◌↔◌, refl}
use minio_operator.Api.Types.{pos, PoolStatus, PoolDeployStatus, DeployStatus}
use minio_operator.Report.Inventory.{PodSeen}
use minio_operator.Report.{server_of, phase_status, pool_status_of, deploy_status}
use minio_operator.Report.Summary.{
  count_running, IsQuiet, pool_status_of_last, deploy_status_completed_iff, deploy_status_hides,
}

abbrev failed_pod : PodSeen
failed_pod = record { name = "pool-0"; host_ip = "10.0.0.1"; pod_ip = "10.1.0.1"; phase = "Failed" }

abbrev running_pod : PodSeen
running_pod = record failed_pod { name = "pool-1"; phase = "Running" }

abbrev pub seen : List PodSeen
seen = (failed_pod ∷ []) ++ running_pod ∷ []

pool_status_of_last_example :
    let ps = pool_status_of "pool" (pos 2) seen in
    (ps.servers ≡ some (map server_of seen))
    × (ps.available_replicas ≡ count_running seen)
    × (ps.status ≡ phase_status "Running")
pool_status_of_last_example = pool_status_of_last "pool" (pos 2) (failed_pod ∷ []) running_pod

abbrev pool_in : PoolDeployStatus → PoolStatus
pool_in status = record {
  name = "pool";
  status = status;
  available_replicas = 0;
  replicas = pos 2;
  servers = none;
}

deploy_status_completed_iff_example :
    (deploy_status (pool_in PoolDeployStatus.unset ∷ []) ≡ DeployStatus.completed)
    ↔ All IsQuiet (pool_in PoolDeployStatus.unset ∷ [])
deploy_status_completed_iff_example =
    deploy_status_completed_iff (pool_in PoolDeployStatus.unset ∷ [])

deploy_status_hides_example :
    deploy_status (pool_in PoolDeployStatus.failed ∷ pool_in PoolDeployStatus.running ∷ [])
    ≡ DeployStatus.running
deploy_status_hides_example =
    deploy_status_hides (pool_in PoolDeployStatus.failed ∷ []) [] (pool_in PoolDeployStatus.running)
      refl tt
