-- ===== src/Reconcile/Main/Keeps.antt =====
-- What `Reconcile` keeps, and that it ends.
use minio_operator.Base.{items, ℕ, suc, String, ◌<>◌, List, [], ◌∷◌, refl}
use minio_operator.Base.Exec.{Exec, Op, Reply, value, failure, call, raise, ◌>>=◌}
use minio_operator.Base.Ensures.{Ensures, >>=-Ensures}
use minio_operator.Api.Values.{Values}
use minio_operator.Api.Objects.{Pod}
use minio_operator.Api.Types.{Minio, DeployStatus}
use minio_operator.Api.Helper.{
  minio_ci_service_name, minio_hl_service_name, minio_console_service_name,
}
use minio_operator.Service.{
  new_service_for_minio, new_console_service_for_minio, new_headless_service_for_minio,
}
use minio_operator.Cluster.{Cluster}
use minio_operator.StatusUpdate.Server.{IsOptimistic}
use minio_operator.Reconcile.Steps.{
  MinioReconciler, with_status, with_message, with_kube, update_status, or_panic,
}
use minio_operator.Reconcile.Steps.Keeps.{
  Stable, HasVersion, update_status-Ensures, with_kube-Ensures, or_panic-Ensures,
}
use minio_operator.Reconcile.Plan.{add_pools, update_pools, pods_of}
use minio_operator.Reconcile.Services.{
  check_minio_svc, check_console_svc, check_minio_hl_svc, minio_svc_check, console_svc_check,
  minio_hl_svc_check,
}
use minio_operator.Reconcile.Services.Laws.{KeepsServices}
use minio_operator.Reconcile.Services.Keeps.{check_service-Ensures}
use minio_operator.Reconcile.Main.{each_pod, sync_pods}

module _ {V : Values} (K : Cluster V) {P : K.State → Type 0} {May : String → Type 0}
    (T : Stable K P May) (L : IsOptimistic K) (S : KeepsServices K) (fuel : ℕ) (r : MinioReconciler)
    (R : Minio V → Type 0) (R-version : (m : Minio V) → R m → HasVersion m)
    (R-status : (m : Minio V) (d : DeployStatus) → R m → R (with_status m d)) where
  abbrev fuel₂ : ℕ
  fuel₂ = suc (suc fuel)

  pub check_minio_svc-Ensures :
      (m : Minio V)
      → R m
      → May (minio_ci_service_name m)
      → Ensures ⊥ (Unit {0}) P (check_minio_svc K fuel₂ r m) R
  unfolding check_minio_svc minio_svc_check new_service_for_minio
  check_minio_svc-Ensures m w may =
      check_service-Ensures K T L S fuel r R R-version R-status (minio_svc_check m) m w may refl

  pub check_console_svc-Ensures :
      (m : Minio V)
      → R m
      → May (minio_console_service_name m)
      → Ensures ⊥ (Unit {0}) P (check_console_svc K fuel₂ r m) R
  unfolding check_console_svc console_svc_check new_console_service_for_minio
  check_console_svc-Ensures m w may =
      check_service-Ensures K T L S fuel r R R-version R-status (console_svc_check m) m w may refl

  pub check_minio_hl_svc-Ensures :
      (m : Minio V)
      → R m
      → May (minio_hl_service_name m)
      → Ensures ⊥ (Unit {0}) P (check_minio_hl_svc K fuel₂ r m) R
  unfolding check_minio_hl_svc minio_hl_svc_check new_headless_service_for_minio
  check_minio_hl_svc-Ensures m w may =
      check_service-Ensures K T L S fuel r R R-version R-status (minio_hl_svc_check m) m w may refl

  each_pod_reply :
      (m : Minio V) (text : String) (reply : Reply K.Error (Pod V))
      (rest : Exec K.State K.Error (Unit {0}))
      → R m
      → Ensures ⊥ (Unit {0}) P rest (λ _. Unit)
      → Ensures ⊥
          (Unit {0})
          P
          (elim reply as (λ _. Exec K.State K.Error (Unit {0})) [
            | value _ ↦ rest
            | failure e ↦
                update_status K fuel₂ (with_message m DeployStatus.failed (text <> K.error_text e))
                >>= λ _. raise e
          ])
          (λ _. Unit)
  each_pod_reply m text (value _) rest w h = h
  each_pod_reply m text (failure e) rest w h =
      let failed = with_message m DeployStatus.failed (text <> K.error_text e) in
      >>=-Ensures ⊥ (Unit {0}) P (update_status K fuel₂ failed) _ (λ _. Unit) (λ _. Unit)
        (update_status-Ensures K T L fuel r failed (R-version m w)) (λ _ _ s p. (tt, p))

  pub each_pod-Ensures :
      (op : String → Pod V → Op K.State K.Error (Pod V)) (text : String) (m : Minio V)
      (pods : List (Pod V))
      → ((ns : String) (pod : Pod V) (s : K.State) → P s → P (op ns pod s).1)
      → R m
      → Ensures ⊥ (Unit {0}) P (each_pod K fuel₂ r op text m pods) (λ _. Unit)
  unfolding each_pod
  each_pod-Ensures op text m [] keep w = λ s p. (tt, p)
  each_pod-Ensures op text m (pod ∷ pods) keep w =
      >>=-Ensures ⊥ (Unit {0}) P (with_kube K r (call (op m.namespace pod))) _ (λ _. Unit)
        (λ _. Unit)
        (with_kube-Ensures K T L fuel r (op m.namespace pod) (λ _. Unit)
          (λ s p. (tt, keep m.namespace pod s p)))
        (λ reply _.
          each_pod_reply m text reply (each_pod K fuel₂ r op text m pods) w
            (each_pod-Ensures op text m pods keep w))

  pub sync_pods-Ensures :
      (old_minio m : Minio V)
      → R m
      → Ensures ⊥ (Unit {0}) P (sync_pods K fuel₂ r old_minio m) (λ _. Unit)
  unfolding sync_pods
  sync_pods-Ensures old_minio m w =
      >>=-Ensures ⊥ (Unit {0}) P
        (or_panic K (pods_of m (add_pools (items old_minio.spec.pools) (items m.spec.pools)))) _
        (λ _. Unit) (λ _. Unit)
        (or_panic-Ensures K T L fuel r
          (pods_of m (add_pools (items old_minio.spec.pools) (items m.spec.pools))))
        (λ add_pods _.
          >>=-Ensures ⊥ (Unit {0}) P
            (each_pod K fuel₂ r K.create_pod "MinIO Pod Create Failed, " m add_pods) _ (λ _. Unit)
            (λ _. Unit)
            (each_pod-Ensures K.create_pod "MinIO Pod Create Failed, " m add_pods T.create_pod w)
            (λ _ _.
              >>=-Ensures ⊥ (Unit {0}) P
                (or_panic K (pods_of m (update_pools old_minio m (items old_minio.spec.pools)))) _
                (λ _. Unit) (λ _. Unit)
                (or_panic-Ensures K T L fuel r
                  (pods_of m (update_pools old_minio m (items old_minio.spec.pools))))
                (λ update_pods _.
                  each_pod-Ensures K.update_pod "MinIO Pod Update Failed, " m update_pods
                    T.update_pod w)))
