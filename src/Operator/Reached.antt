-- ===== src/Operator/Reached.antt =====
-- The operator after a `Reconcile` that succeeded.
use mathlib.Core.Path.{subst}
use minio_operator.Base.{ℕ, suc, String, Bool, false, some, ◌≡◌, ◌≢◌, refl, sym}
use minio_operator.Base.Exec.{ok}
use minio_operator.Api.Constants.{minio_port, console_port}
use minio_operator.Api.Values.{Values}
use minio_operator.Api.Types.{Minio}
use minio_operator.Service.Matching.{IsDeepDerivative}
use minio_operator.Cluster.{Cluster}
use minio_operator.StatusUpdate.Server.{IsOptimistic}
use minio_operator.Reconcile.Steps.{MinioReconciler}
use minio_operator.Reconcile.Steps.Keeps.{HasVersion}
use minio_operator.Reconcile.Services.Laws.{KeepsServices, KeepsOthers}
use minio_operator.Reconcile.Main.{reconcile}
use minio_operator.Reconcile.Main.Begins.{reconcile_minio-Ensures}
use minio_operator.Reconcile.Main.Installed.{reconcile-Installed}
use minio_operator.Reconcile.Main.Tail.{sync_resources-Ensures}
use minio_operator.Report.Inventory.{Inventory}
use minio_operator.Report.Refines.{Observes}
use minio_operator.Report.Keeps.{reconcile_status-Keeps}
use minio_operator.Health.Keeps.{reconcile_health-Keeps}
use minio_operator.Operator.{Step, minio_run, status_run, health_run, Reach, here, next}
use minio_operator.Operator.Laws.{KeepsResources}
use minio_operator.Operator.Stays.{
  Alike, Alike-HasVersion, Alike-status, StoredAlike, stored_stays, stored_stays_revision,
}
use minio_operator.Operator.Settled.{AllInstalled, Settled, Settled-stays, reconcile-Settled}

module _ {V : Values} (K : Cluster V) (L : IsOptimistic K) (S : KeepsServices K)
    (O : KeepsOthers K S) (C : KeepsResources K L) (m : Minio V) (namespace name : String) where
  -- The resource stays, but for its status and its version.
  reconcile-StoredAlike :
      (fuel : ℕ) (r : MinioReconciler) (s : K.State)
      → StoredAlike K L C m namespace name s
      → StoredAlike K L C m namespace name (reconcile K (suc (suc fuel)) r namespace name s).1
  unfolding reconcile
  reconcile-StoredAlike fuel r s (x, stored, alike) =
      let T = stored_stays K L C m namespace name in
      rw (L.get_stored s namespace name x stored)
        (reconcile_minio-Ensures K T (stored_stays_revision K L C m namespace name) L fuel r
          (Alike m) (Alike-HasVersion m) (Alike-status m)
          (λ old_minio y a.
            sync_resources-Ensures K T L S fuel r (Alike m) (Alike-HasVersion m) (Alike-status m)
              old_minio (λ _ _. tt) (λ _ _. tt) y a tt)
          x alike s (x, stored, alike)).1

  module _ (I : Inventory K) (Ob : Observes K I) (healthy : Minio V → K.State → Bool) (s₀ : K.State)
      (installed : AllInstalled K L S O C m namespace name s₀ m) where
    step-Settled :
        (s t : K.State)
        → Step K I healthy namespace name s t
        → Settled K L S O C m namespace name s₀ s
        → Settled K L S O C m namespace name s₀ t
    step-Settled s t (minio_run r fuel e) p =
        subst (Settled K L S O C m namespace name s₀) (sym e)
          (reconcile-Settled K L S O C m namespace name s₀ installed fuel r s p)
    step-Settled s t (status_run k fuel ns n e) p =
        subst (Settled K L S O C m namespace name s₀) (sym e)
          (reconcile_status-Keeps K I Ob (Settled-stays K L S O C m namespace name s₀) k fuel ns n s
            p).1
    step-Settled s t (health_run fuel ns n e) p =
        subst (Settled K L S O C m namespace name s₀) (sym e)
          (reconcile_health-Keeps K (Settled-stays K L S O C m namespace name s₀) healthy fuel ns n
            s p).1

    reach-Settled :
        (s t : K.State)
        → Reach K I healthy namespace name s t
        → Settled K L S O C m namespace name s₀ s
        → Settled K L S O C m namespace name s₀ t
    reach-Settled s t here p = p
    reach-Settled s t (next {t = u} before step) p =
        step-Settled u t step (reach-Settled s u before p)

module _ {V : Values} (K : Cluster V) (L : IsOptimistic K) (S : KeepsServices K)
    (O : KeepsOthers K S) (C : KeepsResources K L) (I : Inventory K) (Ob : Observes K I)
    (healthy : Minio V → K.State → Bool) (fuel : ℕ) (r : MinioReconciler) where
  -- On a server with optimistic concurrency that no other client writes to, that keeps services and
  -- resources and whose lists succeed, given `DeepDerivative` as documented and the target ports not
  -- zero: once `Reconcile` of a stored resource that has a version and is not being deleted has
  -- returned no error, no sequence of further runs of the three controllers, that of the MinIO
  -- controller for this resource, those of the others for any, in any order and however each of them
  -- ends, changes a service.
  pub reach-service :
      (m : Minio V) (namespace name : String) (s s' t : K.State)
      → L.stored s namespace name ≡ some m
      → HasVersion m
      → m.deleting ≡ false
      → IsDeepDerivative V
      → V.from_int minio_port ≢ V.int_or_string_zero
      → V.from_int console_port ≢ V.int_or_string_zero
      → reconcile K (suc (suc fuel)) r namespace name s ≡ (ok tt, s')
      → Reach K I healthy namespace name s' t
      → S.service t ≡ S.service s'
  reach-service m namespace name s s' t e w live d p q h runs =
      let stays =
        subst (λ y. StoredAlike K L C m namespace name y.1) h
          (reconcile-StoredAlike K L S O C m namespace name fuel r s
            (m, e, (m.status, m.resource_version, w, refl))) in
      let installed = reconcile-Installed K L S O fuel r m namespace name s s' e w live d p q h in
      (reach-Settled K L S O C m namespace name I Ob healthy s' installed s' t runs (refl, stays)).0
