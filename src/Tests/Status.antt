-- ===== src/Tests/Status.antt =====
-- Status updates on the server in memory.
use mathlib.Core.Option
use minio_operator.Health.{with_health, reconcile_health}
use minio_operator.Health.Reported.{reconcile_health_unknown}
use minio_operator.Api.Types.{HealthStatus}
use minio_operator.Base.{Bool, false, true, some, ◌≡◌, ◌≢◌, refl, ap, arith, eq_iff}
use minio_operator.Base.Exec.{Outcome, ok}
use minio_operator.Api.Types.{DeployStatus, MinioStatus, Minio, zero_status}
use minio_operator.StatusUpdate.{update_minio_status_with_retry}
use minio_operator.StatusUpdate.Retry.{second_update_dropped}
use minio_operator.Tests.Data.{plain, resource, running_status}
use minio_operator.Tests.Server.{Refusal, Kept, server, server-IsOptimistic, stored_state}

abbrev begun : Minio plain
begun = record resource { status = running_status }

abbrev completed_status : MinioStatus
completed_status = record zero_status { status = DeployStatus.completed }

abbrev outdated : Minio plain
outdated = record begun { resource_version = "4" }

differ_by_status : running_status ≢ zero_status
differ_by_status e =
    let e' : DeployStatus.running ≡ DeployStatus.unset = ap (λ (x : MinioStatus). x.status) e in cc

five_given : resource.resource_version ≢ ""
five_given e = ground (arith, eq_iff "5" "")

four_given : outdated.resource_version ≢ ""
four_given e = ground (arith, eq_iff "4" "")

four_is_old : outdated.resource_version ≢ resource.resource_version
four_is_old e = ground (arith, eq_iff "4" "5")

abbrev first_update : Outcome Refusal (Unit {0}) × Kept
first_update = update_minio_status_with_retry server 2 begun true stored_state

abbrev second_update : Outcome Refusal (Unit {0}) × Kept
second_update =
    update_minio_status_with_retry server 2 (record begun { status = completed_status }) true
      first_update.1

second_update_dropped_example :
    (first_update.0 ≡ ok tt)
    × (second_update.0 ≡ ok tt)
    × (Option.map
          (λ (x : Minio plain). x.status)
          (server-IsOptimistic.stored second_update.1 "apps" "store")
        ≡ some running_status)
second_update_dropped_example =
    second_update_dropped server server-IsOptimistic 0 stored_state begun resource completed_status
      five_given refl refl differ_by_status

-- A resource that is completed, on a cluster whose servers are healthy.
abbrev deployed : Minio plain
deployed = record resource { status = completed_status }

abbrev deployed_state : Kept
deployed_state = record stored_state { minio = some deployed }

abbrev health_run : Outcome Refusal Bool × Kept
health_run = reconcile_health server (λ _ _. true) 2 "apps" "store" deployed_state

unset_is_not_unknown : ◌≢◌ {A = HealthStatus} HealthStatus.unset HealthStatus.unknown
unset_is_not_unknown e = cc

reconcile_health_unknown_example :
    (health_run.0 ≡ ok false)
    × (Option.map
          (λ (x : Minio plain). x.status)
          (server-IsOptimistic.stored health_run.1 "apps" "store")
        ≡ some (with_health deployed HealthStatus.unknown).status)
reconcile_health_unknown_example =
    reconcile_health_unknown server server-IsOptimistic (λ _ _. true) 0 deployed_state deployed refl
      five_given refl unset_is_not_unknown
