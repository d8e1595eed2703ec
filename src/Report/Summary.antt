-- ===== src/Report/Summary.antt =====
-- What the status of a pool and of the deployment says of the pods.
use minio_operator.Base.{
  some, appended, appended-append, ℕ, suc, ◌+◌, String, List, [], ◌∷◌, ◌++◌, map, All, ◌≡◌, ◌≢◌,
  ◌↔◌, ◌==◌, refl, ap, sym, ◌∙◌, arith, if◌then◌else◌,
}
use mathlib.Core.List.{map-append, append_assoc, append-nil}
use minio_operator.Api.Types.{ℤ, PoolStatus, PoolDeployStatus, DeployStatus}
use minio_operator.Report.Inventory.{PodSeen}
use minio_operator.Report.{
  PoolLoop, server_of, pod_running, phase_status, see_pod, see_pods, nothing_seen, pool_status_of,
  after_pool, deploy_status_from, deploy_status,
}

-- The number of running pods.
abbrev pub count_running : List PodSeen → ℕ
count_running [] = 0
count_running (pod ∷ pods) =
    if pod.phase == pod_running then suc (count_running pods) else count_running pods

pub see_pods-available_replicas :
    (l : PoolLoop) (pods : List PodSeen)
    → (see_pods l pods).available_replicas ≡ l.available_replicas + count_running pods
unfolding see_pods
see_pods-available_replicas l [] = omega arith
see_pods-available_replicas l (pod ∷ pods) =
    see_pods-available_replicas (see_pod l pod) pods ∙ ground arith

pub see_pods-servers :
    (l : PoolLoop) (pods : List PodSeen)
    → (see_pods l pods).servers ≡ l.servers ++ map server_of pods
unfolding see_pods
see_pods-servers l [] = sym (append-nil l.servers)
see_pods-servers l (pod ∷ pods) =
    see_pods-servers (see_pod l pod) pods
    ∙ append_assoc l.servers (server_of pod ∷ []) (map server_of pods)

see_pods-append :
    (l : PoolLoop) (pods : List PodSeen) (pod : PodSeen)
    → see_pods l (pods ++ pod ∷ []) ≡ see_pod (see_pods l pods) pod
unfolding see_pods
see_pods-append l [] pod = refl
see_pods-append l (p ∷ pods) pod = see_pods-append (see_pod l p) pods pod

-- The status of a pool lists one server per pod, in order, and counts the pods that run; its state is
-- that of the LAST pod alone, whatever the others do.
pub pool_status_of_last :
    (name : String) (servers : ℤ) (pods : List PodSeen) (last : PodSeen)
    → let ps = pool_status_of name servers (pods ++ last ∷ []) in
      (ps.servers ≡ some (map server_of (pods ++ last ∷ [])))
      × (ps.available_replicas ≡ count_running (pods ++ last ∷ []))
      × (ps.status ≡ phase_status last.phase)
unfolding pool_status_of
pool_status_of_last name servers pods last = (
  ap appended
        (see_pods-servers nothing_seen (pods ++ last ∷ []) ∙ map-append server_of pods (last ∷ []))
      ∙ appended-append (map server_of pods) (server_of last)
      ∙ ap some (sym (map-append server_of pods (last ∷ []))),
  see_pods-available_replicas nothing_seen (pods ++ last ∷ []) ∙ omega arith,
  ap (λ (l : PoolLoop). l.pool_deploy_status) (see_pods-append nothing_seen pods last),
)

-- A pool that does not hold the deployment back.
abbrev pub IsQuiet : PoolStatus → Type 0
IsQuiet ps = (ps.status ≢ PoolDeployStatus.failed) × (ps.status ≢ PoolDeployStatus.running)

after_pool-eq-completed :
    (d : DeployStatus) (s : PoolDeployStatus)
    → (after_pool d s ≡ DeployStatus.completed) ↔ (
        (d ≡ DeployStatus.completed)
        × (s ≢ PoolDeployStatus.failed)
        × (s ≢ PoolDeployStatus.running))
after_pool-eq-completed d PoolDeployStatus.unset = ground arith
after_pool-eq-completed d PoolDeployStatus.completed = ground arith
after_pool-eq-completed d PoolDeployStatus.running = ground arith
after_pool-eq-completed d PoolDeployStatus.failed = ground arith

deploy_status_from_iff :
    (d : DeployStatus) (pools : List PoolStatus)
    → (deploy_status_from d pools ≡ DeployStatus.completed)
      ↔ ((d ≡ DeployStatus.completed) × All IsQuiet pools)
unfolding deploy_status_from
deploy_status_from_iff d [] = (λ h. (h, tt), λ (h, _). h)
deploy_status_from_iff d (ps ∷ pools) = ground (
  arith,
  deploy_status_from_iff (after_pool d ps.status) pools,
  after_pool-eq-completed d ps.status,
)

-- The deployment is reported as completed exactly when no pool is failed or running. A pool without
-- any pod is neither.
pub deploy_status_completed_iff :
    (pools : List PoolStatus) → (deploy_status pools ≡ DeployStatus.completed) ↔ All IsQuiet pools
unfolding deploy_status
deploy_status_completed_iff pools =
    let (to, from) = deploy_status_from_iff DeployStatus.completed pools in
    (λ h. (to h).1, λ h. from (refl, h))

after_quiet :
    (d : DeployStatus) (s : PoolDeployStatus)
    → s ≢ PoolDeployStatus.failed
    → s ≢ PoolDeployStatus.running
    → after_pool d s ≡ d
after_quiet d PoolDeployStatus.unset f r = refl
after_quiet d PoolDeployStatus.completed f r = refl
after_quiet d PoolDeployStatus.running f r = absurd (r refl)
after_quiet d PoolDeployStatus.failed f r = absurd (f refl)

deploy_status_quiet :
    (d : DeployStatus) (pools : List PoolStatus)
    → All IsQuiet pools
    → deploy_status_from d pools ≡ d
unfolding deploy_status_from
deploy_status_quiet d [] h = refl
deploy_status_quiet d (ps ∷ pools) ((f, r), h) =
    ap (λ e. deploy_status_from e pools) (after_quiet d ps.status f r)
    ∙ deploy_status_quiet d pools h

deploy_status_from-append :
    (d : DeployStatus) (before : List PoolStatus) (rest : List PoolStatus)
    → deploy_status_from d (before ++ rest) ≡ deploy_status_from (deploy_status_from d before) rest
unfolding deploy_status_from
deploy_status_from-append d [] rest = refl
deploy_status_from-append d (ps ∷ before) rest =
    deploy_status_from-append (after_pool d ps.status) before rest

-- Where a pool is running and no later one is failed or running, the deployment is reported as
-- running, whatever the earlier pools are: a failed pool in front of it does not show.
pub deploy_status_hides :
    (before after : List PoolStatus) (ps : PoolStatus)
    → ps.status ≡ PoolDeployStatus.running
    → All IsQuiet after
    → deploy_status (before ++ ps ∷ after) ≡ DeployStatus.running
unfolding deploy_status deploy_status_from
deploy_status_hides before after ps r h =
    deploy_status_from-append DeployStatus.completed before (ps ∷ after)
    ∙ ap
        (λ s.
          deploy_status_from (after_pool (deploy_status_from DeployStatus.completed before) s)
            after)
        r
    ∙ deploy_status_quiet DeployStatus.running after h
