-- ===== src/Reconcile/Volumes/Keeps.antt =====
-- What `checkPVC` keeps, and that it ends.
use minio_operator.Base.{items, ℕ, suc, String, List, [], ◌∷◌}
use minio_operator.Base.Exec.{Reply, value, failure, call, must}
use minio_operator.Base.Ensures.{Ensures, >>=-Ensures, call-Ensures, must-Ensures}
use minio_operator.Api.Constants.{minio_label}
use minio_operator.Api.Values.{Values}
use minio_operator.Api.Objects.{Claim}
use minio_operator.Api.Types.{Minio, DeployStatus}
use minio_operator.Cluster.{Cluster}
use minio_operator.StatusUpdate.Server.{IsOptimistic}
use minio_operator.Reconcile.Steps.{MinioReconciler, with_status, update_status, or_panic}
use minio_operator.Reconcile.Steps.Keeps.{
  Stable, HasVersion, update_status-Ensures, record_event-Ensures, or_panic-Ensures,
}
use minio_operator.Reconcile.Volumes.{after_claim, create_claims, claims_of, if_none, check_pvc}

module _ {V : Values} (K : Cluster V) {P : K.State → Type 0} {May : String → Type 0}
    (T : Stable K P May) (L : IsOptimistic K) (fuel : ℕ) (r : MinioReconciler)
    (R : Minio V → Type 0) (R-version : (m : Minio V) → R m → HasVersion m)
    (R-status : (m : Minio V) (d : DeployStatus) → R m → R (with_status m d)) where
  pub after_claim-Ensures :
      (m : Minio V) (reply : Reply K.Error (Unit {0}))
      → Ensures ⊥ (Unit {0}) P (after_claim K (suc (suc fuel)) r m reply) (λ _. Unit)
  after_claim-Ensures m (value _) = λ s p. (tt, p)
  after_claim-Ensures m (failure e) =
      record_event-Ensures K T L fuel r m "Warning" "CreatePVCFailed" "Create PVC Failed"

  pub create_claims-Ensures :
      (m : Minio V) (pvcs : List (Claim V))
      → Ensures ⊥ (Unit {0}) P (create_claims K (suc (suc fuel)) r m pvcs) (λ _. Unit)
  unfolding create_claims
  create_claims-Ensures m [] = λ s p. (tt, p)
  create_claims-Ensures m (pvc ∷ pvcs) =
      >>=-Ensures ⊥ (Unit {0}) P (call (K.create_claim pvc)) _ (λ _. Unit) (λ _. Unit)
        (call-Ensures ⊥ (Unit {0}) P (K.create_claim pvc) (λ _. Unit)
          (λ s p. (tt, T.create_claim pvc s p)))
        (λ reply _.
          >>=-Ensures ⊥ (Unit {0}) P (after_claim K (suc (suc fuel)) r m reply) _ (λ _. Unit)
            (λ _. Unit) (after_claim-Ensures m reply) (λ _ _. create_claims-Ensures m pvcs))

  if_none-Ensures :
      (m : Minio V) (items : List K.ClaimItem)
      → R m
      → Ensures ⊥ (Unit {0}) P (if_none K (suc (suc fuel)) r m items) R
  if_none-Ensures m (_ ∷ _) w = λ s p. (w, p)
  if_none-Ensures m [] w =
      let running = with_status m DeployStatus.running in
      >>=-Ensures ⊥ (Unit {0}) P (update_status K (suc (suc fuel)) running) _ (λ _. Unit) R
        (update_status-Ensures K T L fuel r running (R-version m w))
        (λ _ _.
          >>=-Ensures ⊥ (Unit {0}) P (or_panic K (claims_of running (items running.spec.pools))) _
            (λ _. Unit) R
            (or_panic-Ensures K T L fuel r (claims_of running (items running.spec.pools)))
            (λ pvcs _.
              >>=-Ensures ⊥ (Unit {0}) P (create_claims K (suc (suc fuel)) r running pvcs) _
                (λ _. Unit) R (create_claims-Ensures running pvcs)
                (λ _ _ s p. (R-status m DeployStatus.running w, p))))

  pub check_pvc-Ensures :
      (m : Minio V) → R m → Ensures ⊥ (Unit {0}) P (check_pvc K (suc (suc fuel)) r m) R
  unfolding check_pvc
  check_pvc-Ensures m w =
      >>=-Ensures ⊥ (Unit {0}) P (must (K.list_claims m.namespace (minio_label, m.name))) _
        (λ _. Unit) R
        (must-Ensures ⊥ P (K.list_claims m.namespace (minio_label, m.name))
          (T.list_claims m.namespace (minio_label, m.name)))
        (λ items _. if_none-Ensures m items w)
