-- ===== src/Tests/Succeeding.antt =====
-- Whole runs of `Reconcile` on the server in memory that create pods.
use minio_operator.Base.{some, ◌≡◌, refl, ap}
use minio_operator.Base.Exec.{ok}
use minio_operator.Base.Partial.{for_range, for_range_flat}
use minio_operator.Api.Helper.{
  minio_ci_service_name, minio_hl_service_name, minio_console_service_name,
}
use minio_operator.Pods.{
  minio_server_container, pod_volumes, pod_volume_mounts, new_pod, new_pods_for_minio_pool,
}
use minio_operator.Claims.{new_claim, new_persistent_volume_claim_for_minio_pool}
use minio_operator.Service.{
  new_service_for_minio, new_console_service_for_minio, new_headless_service_for_minio, covers,
  same_ports, holds_entry, minio_svc_matches_specification,
}
use minio_operator.StatusUpdate.{update_minio_status_with_retry}
use minio_operator.Revision.{
  new_controller_revision, exist_controller_revision, create_controller_revision,
}
use minio_operator.Reconcile.Plan.{add_pools, update_pools, pods_of}
use minio_operator.Reconcile.Services.{
  check_service, minio_svc_check, create_checked, update_checked, check_minio_svc,
  check_console_svc, check_minio_hl_svc, console_svc_check, minio_hl_svc_check,
}
use minio_operator.Reconcile.Volumes.{claims_of, create_claims, check_pvc}
use minio_operator.Reconcile.Main.{
  initial_status, sync_revision, each_pod, sync_pods, sync_resources, reconcile_minio, reconcile,
}
use minio_operator.Tests.Whole.{complete}
use minio_operator.Api.Types.{Minio}
use minio_operator.Tests.Data.{plain, resource}
use minio_operator.Tests.Server.{Kept, server, stored_state}

-- A resource called like the console service of another.
abbrev pub twin : Minio plain
twin = record resource { name = "storeconsole"; uid = "u2" }

abbrev pub twin_state : Kept
twin_state = record stored_state { minio = some twin }

-- The server after a run.
abbrev pub after_run : Kept
after_run = (reconcile server 2 complete "apps" "store" stored_state).1

abbrev pub twin_run : Kept
twin_run = (reconcile server 2 complete "apps" "storeconsole" twin_state).1

both_end :
    ((reconcile server 2 complete "apps" "store" stored_state).0 ≡ ok tt)
    × ((reconcile server 2 complete "apps" "storeconsole" twin_state).0 ≡ ok tt)
unfolding reconcile reconcile_minio initial_status sync_revision sync_resources sync_pods each_pod
    check_pvc claims_of create_claims check_minio_svc check_console_svc check_minio_hl_svc
    check_service minio_svc_check console_svc_check minio_hl_svc_check create_checked update_checked
    update_minio_status_with_retry exist_controller_revision create_controller_revision
    new_controller_revision add_pools update_pools pods_of new_service_for_minio
    new_console_service_for_minio new_headless_service_for_minio covers same_ports holds_entry
    minio_svc_matches_specification new_claim new_persistent_volume_claim_for_minio_pool
    new_pods_for_minio_pool new_pod pod_volumes pod_volume_mounts minio_server_container for_range
    for_range_flat minio_ci_service_name minio_hl_service_name minio_console_service_name
both_end = (refl, refl)

pub run_succeeds : reconcile server 2 complete "apps" "store" stored_state ≡ (ok tt, after_run)
run_succeeds = ap (λ o. (o, after_run)) both_end.0

pub twin_succeeds : reconcile server 2 complete "apps" "storeconsole" twin_state ≡ (ok tt, twin_run)
twin_succeeds = ap (λ o. (o, twin_run)) both_end.1
