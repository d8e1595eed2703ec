-- ===== src/Tests/Runs.antt =====
-- Runs of parts of `Reconcile` on the server in memory.
use minio_operator.Base.{items, true, false, ◌≡◌, ◌≢◌, refl}
use minio_operator.Base.Exec.{ok, ◌>>=◌}
use minio_operator.Reconcile.Steps.{MinioReconciler, or_panic}
use minio_operator.Reconcile.Plan.{pods_of}
use minio_operator.Reconcile.Plan.Changes.{same_spec}
use minio_operator.Reconcile.Main.{each_pod, sync_pods, reconcile}
use minio_operator.Reconcile.Main.Outcomes.{sync_pods_unchanged, reconcile_needs_client}
use minio_operator.Tests.Data.{resource}
use minio_operator.Tests.Server.{server, stored_state}

abbrev complete : MinioReconciler
complete = record { kube_client = true; recorder = true }

-- As `main` sets it up.
abbrev partial : MinioReconciler
partial = record { kube_client = false; recorder = false }

sync_pods_unchanged_example :
    sync_pods server 2 complete (same_spec resource) resource stored_state
    ≡ (or_panic server (pods_of resource (items resource.spec.pools)) >>= (λ pods.
          each_pod server 2 complete server.update_pod "MinIO Pod Update Failed, " resource pods))
        stored_state
sync_pods_unchanged_example = sync_pods_unchanged server 2 complete resource stored_state

reconcile_needs_client_example :
    reconcile server 2 partial "apps" "store" stored_state ≢ (ok tt, stored_state)
reconcile_needs_client_example =
    reconcile_needs_client server 2 partial resource "apps" "store" stored_state stored_state
      stored_state refl refl refl
