-- ===== src/Report/Described.antt =====
-- The status that the cluster calls for, described beside the code of
-- controllers/minio_status_controller.go: the labels, the fields and the states are written out.
use minio_operator.Base.{
  arith, String, Option, none, some, List, [], ◌∷◌, map, ◌≡◌, ◌≢◌, refl, ◌∙◌, ◌==◌, if◌then◌else◌,
}
use minio_operator.Api.Types.{
  ℤ, MinioServer, PoolStatus, PvcStatus, MinioStatus, MinioServiceAddr, PoolDeployStatus,
  DeployStatus,
}
use minio_operator.Report.{
  PoolLoop, see_pod, see_pods, nothing_seen, pool_status_of, after_pool, deploy_status_from,
  deploy_status,
}
use minio_operator.Report.Inventory.{PodSeen, ClaimSeen}
use minio_operator.Report.Run.{reported}
use minio_operator.Report.Summary.{count_running, see_pods-servers, see_pods-available_replicas}

-- What is shown of a claim.
abbrev pub claim_shown : ClaimSeen → PvcStatus
claim_shown claim = record {
  name = claim.name;
  status = claim.phase;
  volume = claim.volume_name;
  capacity = claim.capacity;
  storage_class = elim claim.storage_class_name [ none ↦ "" | some class ↦ class ];
}

-- What is shown of a pod.
abbrev pub server_shown : PodSeen → MinioServer
server_shown pod = record {
  name = pod.name;
  host_ip = pod.host_ip;
  pod_ip = pod.pod_ip;
  status = pod.phase;
}

-- The state of a pool: completed, running or failed as its last pod runs, is pending, or neither.
abbrev pub state_of : List PodSeen → PoolDeployStatus
state_of [] = PoolDeployStatus.unset
state_of (pod ∷ []) =
    if pod.phase == "Running"
    then PoolDeployStatus.completed
    else if pod.phase == "Pending"
    then PoolDeployStatus.running
    else PoolDeployStatus.failed
state_of (_ ∷ pod ∷ pods) = state_of (pod ∷ pods)

-- What is shown of a pool of that name and number of servers with these pods.
abbrev pub pool_shown : String → ℤ → List PodSeen → PoolStatus
pool_shown name servers pods = record {
  name = name;
  status = state_of pods;
  available_replicas = count_running pods;
  replicas = servers;
  servers = some (map server_shown pods);
}

-- The state of the deployment that a pool calls for alone.
abbrev called_for : PoolDeployStatus → Option DeployStatus
called_for PoolDeployStatus.failed = some DeployStatus.failed
called_for PoolDeployStatus.running = some DeployStatus.running
called_for PoolDeployStatus.completed = none
called_for PoolDeployStatus.unset = none

abbrev before_it : Option DeployStatus → Option DeployStatus → Option DeployStatus
before_it earlier none = earlier
before_it earlier (some d) = some d

-- The state that the last of the pools that are failed or running calls for.
abbrev pub last_called : List PoolStatus → Option DeployStatus
last_called [] = none
last_called (ps ∷ pools) = before_it (called_for ps.status) (last_called pools)

abbrev or_value : DeployStatus → Option DeployStatus → DeployStatus
or_value d none = d
or_value d (some e) = e

-- The state of the deployment: that one, or completed.
abbrev pub deployment_shown : List PoolStatus → DeployStatus
deployment_shown pools = or_value DeployStatus.completed (last_called pools)

-- The status that is called for by the claims, the addresses and what is shown of the pools; the
-- message and the health stay.
abbrev pub status_shown :
    MinioStatus → List ClaimSeen → MinioServiceAddr → List PoolStatus → MinioStatus
status_shown status claims addr pools = record {
  status = deployment_shown pools;
  message = status.message;
  pool_status = some pools;
  health_status = status.health_status;
  service = addr;
  pvc_status = some (map claim_shown claims);
}

see_pods-state_of :
    (l : PoolLoop) (pod : PodSeen) (pods : List PodSeen)
    → (see_pods l (pod ∷ pods)).pool_deploy_status ≡ state_of (pod ∷ pods)
unfolding see_pods
see_pods-state_of l pod [] = refl
see_pods-state_of l pod (next ∷ pods) = see_pods-state_of (see_pod l pod) next pods

see_pods-count_running :
    (pods : List PodSeen) → (see_pods nothing_seen pods).available_replicas ≡ count_running pods
see_pods-count_running pods = see_pods-available_replicas nothing_seen pods ∙ omega arith

pub pool_status_of-pool_shown :
    (name : String) (servers : ℤ) (pods : List PodSeen)
    → pods ≢ []
    → pool_status_of name servers pods ≡ pool_shown name servers pods
unfolding pool_status_of
pool_status_of-pool_shown name servers [] given = absurd (given refl)
pool_status_of-pool_shown name servers (pod ∷ pods) given =
    rw
      (
        see_pods-servers nothing_seen (pod ∷ pods),
        see_pods-count_running (pod ∷ pods),
        see_pods-state_of nothing_seen pod pods,
      )
      refl

deploy_status_from-last_called :
    (d : DeployStatus) (pools : List PoolStatus)
    → deploy_status_from d pools ≡ or_value d (last_called pools)
unfolding deploy_status_from
deploy_status_from-last_called d [] = refl
deploy_status_from-last_called d (ps ∷ pools) =
    deploy_status_from-last_called _ pools ∙ later d ps.status (last_called pools)
  where
    later :
        (d : DeployStatus) (s : PoolDeployStatus) (o : Option DeployStatus)
        → or_value (after_pool d s) o ≡ or_value d (before_it (called_for s) o)
    later d s (some e) = refl
    later d PoolDeployStatus.failed none = refl
    later d PoolDeployStatus.running none = refl
    later d PoolDeployStatus.completed none = refl
    later d PoolDeployStatus.unset none = refl

-- What the code reports of claims and pools is what is called for, where there are some.
pub reported-status_shown :
    (status : MinioStatus) (claims : List ClaimSeen) (addr : MinioServiceAddr)
    (pools : List PoolStatus)
    → claims ≢ []
    → pools ≢ []
    → reported status claims addr pools ≡ status_shown status claims addr pools
unfolding deploy_status
reported-status_shown status [] addr pools a b = absurd (a refl)
reported-status_shown status (claim ∷ claims) addr [] a b = absurd (b refl)
reported-status_shown status (claim ∷ claims) addr (ps ∷ pools) a b =
    rw (deploy_status_from-last_called DeployStatus.completed (ps ∷ pools)) refl
