-- ===== src/Reconcile/Services/Cases.antt =====
-- The branches of the check of a service, one lemma each.
use minio_operator.Base.{ℕ, true, none, some, ◌≡◌}
use minio_operator.Base.Exec.{ok, value}
use minio_operator.Api.Values.{Values}
use minio_operator.Api.Objects.{Service}
use minio_operator.Api.Types.{Minio}
use minio_operator.Service.{Mismatch, minio_svc_matches_specification}
use minio_operator.Cluster.{Cluster}
use minio_operator.Reconcile.Steps.{MinioReconciler}
use minio_operator.Reconcile.Services.{ServiceCheck, overwritten, update_checked, check_service}

module _ {V : Values} (K : Cluster V) (fuel : ℕ) (r : MinioReconciler) (c : ServiceCheck V)
    (m : Minio V) where
  pub update_checked_match :
      (svc : Service V) (s : K.State)
      → minio_svc_matches_specification V svc c.expected ≡ none
      → update_checked K fuel r c m svc s ≡ (ok m, s)
  unfolding update_checked
  update_checked_match svc s e = rw e

  pub update_checked_replace :
      (svc : Service V) {svc' : Service V} {x : Mismatch} {s s' : K.State}
      → r.kube_client ≡ true
      → r.recorder ≡ true
      → minio_svc_matches_specification V svc c.expected ≡ some x
      → K.update_service m.namespace (overwritten svc c.expected) s ≡ (value svc', s')
      → update_checked K fuel r c m svc s
        ≡ (ok m, K.event m "Normal" c.updated_reason c.updated_message s')
  unfolding update_checked
  update_checked_replace svc k rec e u = simp (e, k, u, rec)

  pub check_service_found :
      {svc : Service V} {s s' : K.State}
      → r.kube_client ≡ true
      → K.get_service m.namespace c.service_name s ≡ (value svc, s')
      → check_service K fuel r c m s ≡ update_checked K fuel r c m svc s'
  unfolding check_service
  check_service_found k g = simp (k, g)
