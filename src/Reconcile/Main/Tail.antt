-- ===== src/Reconcile/Main/Tail.antt =====
-- The part of `Reconcile` behind each of its checks of services.
use minio_operator.Base.{ℕ, suc, String}
use minio_operator.Base.Exec.{Exec, ◌>>=◌}
use minio_operator.Base.Ensures.{Ensures, >>=-Ensures}
use minio_operator.Api.Values.{Values}
use minio_operator.Api.Types.{Minio, DeployStatus}
use minio_operator.Api.Helper.{
  minio_ci_service_name, minio_hl_service_name, minio_console_service_name,
}
use minio_operator.Cluster.{Cluster}
use minio_operator.StatusUpdate.Server.{IsOptimistic}
use minio_operator.Reconcile.Steps.{MinioReconciler, with_status, update_status}
use minio_operator.Reconcile.Steps.Keeps.{Stable, HasVersion, update_status-Ensures}
use minio_operator.Reconcile.Services.{check_minio_svc, check_console_svc, check_minio_hl_svc}
use minio_operator.Reconcile.Services.Laws.{KeepsServices}
use minio_operator.Reconcile.Volumes.{check_pvc}
use minio_operator.Reconcile.Volumes.Keeps.{check_pvc-Ensures}
use minio_operator.Reconcile.Main.{sync_pods, sync_resources}
use minio_operator.Reconcile.Main.Keeps.{
  check_minio_svc-Ensures, check_console_svc-Ensures, check_minio_hl_svc-Ensures, sync_pods-Ensures,
}

module _ {V : Values} (K : Cluster V) (fuel : ℕ) (r : MinioReconciler) (old_minio : Minio V) where
  abbrev pub from_pvc : Minio V → Exec K.State K.Error (Unit {0})
  from_pvc m = check_pvc K fuel r m >>= λ m₄. sync_pods K fuel r old_minio m₄ >>= λ _.
      update_status K fuel (with_status m₄ DeployStatus.running)

  abbrev pub from_minio_hl_svc : Minio V → Exec K.State K.Error (Unit {0})
  from_minio_hl_svc m = check_minio_hl_svc K fuel r m >>= λ m₃. from_pvc m₃

  abbrev pub from_console_svc : Minio V → Exec K.State K.Error (Unit {0})
  from_console_svc m = check_console_svc K fuel r m >>= λ m₂. from_minio_hl_svc m₂

module _ {V : Values} (K : Cluster V) {P : K.State → Type 0} {May : String → Type 0}
    (T : Stable K P May) (L : IsOptimistic K) (S : KeepsServices K) (fuel : ℕ) (r : MinioReconciler)
    (R : Minio V → Type 0) (R-version : (m : Minio V) → R m → HasVersion m)
    (R-status : (m : Minio V) (d : DeployStatus) → R m → R (with_status m d))
    (old_minio : Minio V) where
  pub from_pvc-Ensures :
      (m : Minio V)
      → R m
      → Ensures ⊥ (Unit {0}) P (from_pvc K (suc (suc fuel)) r old_minio m) (λ _. Unit)
  from_pvc-Ensures m w =
      >>=-Ensures ⊥ (Unit {0}) P (check_pvc K (suc (suc fuel)) r m) _ R (λ _. Unit)
        (check_pvc-Ensures K T L fuel r R R-version R-status m w)
        (λ m₄ w₄.
          >>=-Ensures ⊥ (Unit {0}) P (sync_pods K (suc (suc fuel)) r old_minio m₄) _ (λ _. Unit)
            (λ _. Unit) (sync_pods-Ensures K T L S fuel r R R-version R-status old_minio m₄ w₄)
            (λ _ _.
              update_status-Ensures K T L fuel r (with_status m₄ DeployStatus.running)
                (R-version m₄ w₄)))

  module _ (may_hl : (m : Minio V) → R m → May (minio_hl_service_name m)) where
    pub from_minio_hl_svc-Ensures :
        (m : Minio V)
        → R m
        → Ensures ⊥ (Unit {0}) P (from_minio_hl_svc K (suc (suc fuel)) r old_minio m) (λ _. Unit)
    from_minio_hl_svc-Ensures m w =
        >>=-Ensures ⊥ (Unit {0}) P (check_minio_hl_svc K (suc (suc fuel)) r m) _ R (λ _. Unit)
          (check_minio_hl_svc-Ensures K T L S fuel r R R-version R-status m w (may_hl m w))
          from_pvc-Ensures

    module _ (may_console : (m : Minio V) → R m → May (minio_console_service_name m)) where
      pub from_console_svc-Ensures :
          (m : Minio V)
          → R m
          → Ensures ⊥ (Unit {0}) P (from_console_svc K (suc (suc fuel)) r old_minio m) (λ _. Unit)
      from_console_svc-Ensures m w =
          >>=-Ensures ⊥ (Unit {0}) P (check_console_svc K (suc (suc fuel)) r m) _ R (λ _. Unit)
            (check_console_svc-Ensures K T L S fuel r R R-version R-status m w (may_console m w))
            from_minio_hl_svc-Ensures

      pub sync_resources-Ensures :
          (m : Minio V)
          → R m
          → May (minio_ci_service_name m)
          → Ensures ⊥ (Unit {0}) P (sync_resources K (suc (suc fuel)) r old_minio m) (λ _. Unit)
      unfolding sync_resources
      sync_resources-Ensures m w may =
          >>=-Ensures ⊥ (Unit {0}) P (check_minio_svc K (suc (suc fuel)) r m) _ R (λ _. Unit)
            (check_minio_svc-Ensures K T L S fuel r R R-version R-status m w may)
            from_console_svc-Ensures
