-- ===== src/Report.antt =====
-- The part of controllers/minio_status_controller.go that turns the pods of the pools into the status
-- of the pools and of the deployment.
pub mod Inventory
pub mod Addresses
pub mod Run
pub mod Located
pub mod Described
pub mod Refines
pub mod Summary
pub mod Keeps
use minio_operator.Base.{
  appended, ℕ, suc, String, Bool, true, false, List, [], ◌∷◌, ◌++◌, ◌==◌, if◌then◌else◌,
}
use minio_operator.Report.Inventory.{PodSeen}
use minio_operator.Api.Types.{ℤ, MinioServer, PoolStatus, PoolDeployStatus, DeployStatus}

-- The variable `server`
abbrev pub server_of : PodSeen → MinioServer
server_of pod = record {
  name = pod.name;
  host_ip = pod.host_ip;
  pod_ip = pod.pod_ip;
  status = pod.phase;
}

-- `corev1.PodRunning`, `corev1.PodPending`
abbrev pub pod_running : String
pod_running = "Running"

abbrev pub pod_pending : String
pod_pending = "Pending"

-- The variables of the inner loop.
pub record PoolLoop : Type 0 where
  pub servers : List MinioServer
  pub available_replicas : ℕ
  pub pool_deploy_status : PoolDeployStatus

-- The state of a pool with one pod of that phase.
abbrev pub phase_status : String → PoolDeployStatus
phase_status phase =
    if phase == pod_running
    then PoolDeployStatus.completed
    else if phase == pod_pending
    then PoolDeployStatus.running
    else PoolDeployStatus.failed

-- One round of the loop over the pods of a pool.
abbrev pub see_pod : PoolLoop → PodSeen → PoolLoop
see_pod l pod = record {
  servers = l.servers ++ server_of pod ∷ [];
  available_replicas =
      if pod.phase == pod_running then suc l.available_replicas else l.available_replicas;
  pool_deploy_status = phase_status pod.phase;
}

-- The loop over the pods of a pool.
unfoldable pub see_pods : PoolLoop → List PodSeen → PoolLoop
see_pods l [] = l
see_pods l (pod ∷ pods) = see_pods (see_pod l pod) pods

abbrev pub nothing_seen : PoolLoop
nothing_seen = record {
  servers = [];
  available_replicas = 0;
  pool_deploy_status = PoolDeployStatus.unset;
}

-- The variable `ps`, from the name and the servers of the pool and its pods.
unfoldable pub pool_status_of : String → ℤ → List PodSeen → PoolStatus
unfolding see_pods
pool_status_of name servers pods =
    let l = see_pods nothing_seen pods in
    record {
      name = name;
      status = l.pool_deploy_status;
      available_replicas = l.available_replicas;
      replicas = servers;
      servers = appended l.servers;
    }

-- One round of the loop over the pools.
abbrev pub after_pool : DeployStatus → PoolDeployStatus → DeployStatus
after_pool deploy PoolDeployStatus.failed = DeployStatus.failed
after_pool deploy PoolDeployStatus.running = DeployStatus.running
after_pool deploy PoolDeployStatus.completed = deploy
after_pool deploy PoolDeployStatus.unset = deploy

-- The loop over the pools, from the value of `deployStatus`.
unfoldable pub deploy_status_from : DeployStatus → List PoolStatus → DeployStatus
deploy_status_from deploy [] = deploy
deploy_status_from deploy (ps ∷ pool_status) =
    deploy_status_from (after_pool deploy ps.status) pool_status

-- The variable `deployStatus`.
unfoldable pub deploy_status : List PoolStatus → DeployStatus
unfolding deploy_status_from
deploy_status pool_status = deploy_status_from DeployStatus.completed pool_status
