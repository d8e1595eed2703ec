-- ===== src/Reconcile/Main/Ends.antt =====
-- `Reconcile` ends: no status update in it runs out of fuel.
use minio_operator.Base.{ℕ, suc, String, some, ◌≡◌, ◌≢◌}
use mathlib.Core.Path.{subst}
use minio_operator.Base.Exec.{Outcome, unfinished}
use minio_operator.Base.Ensures.{Post, Ensures}
use minio_operator.Api.Values.{Values}
use minio_operator.Api.Types.{Minio}
use minio_operator.Cluster.{Cluster}
use minio_operator.StatusUpdate.Server.{IsOptimistic}
use minio_operator.Reconcile.Steps.{MinioReconciler}
use minio_operator.Reconcile.Steps.Keeps.{Stable, HasVersion}
use minio_operator.Reconcile.Services.Laws.{KeepsServices}
use minio_operator.Reconcile.Main.{reconcile_minio, reconcile}
use minio_operator.Reconcile.Main.Begins.{RevisionStable, reconcile_minio-Ensures}
use minio_operator.Reconcile.Main.Tail.{sync_resources-Ensures}

module _ {V : Values} (K : Cluster V) where
  pub anything : Stable K (λ _. Unit) (λ _. Unit)
  anything = record {
    get_minio = λ _ _ _ _. tt;
    update_minio_status = λ _ _ _. tt;
    list_claims = λ _ _ _ _. tt;
    create_claim = λ _ _ _. tt;
    get_service = λ _ _ _ _. tt;
    create_service = λ _ _ _ _ _. tt;
    update_service = λ _ _ _ _ _. tt;
    create_pod = λ _ _ _ _. tt;
    update_pod = λ _ _ _ _. tt;
    event = λ _ _ _ _ _ _. tt;
  }

  pub any_revision : RevisionStable K (λ _. Unit)
  any_revision = record {
    get_revision = λ _ _ _ _. tt;
    create_revision = λ _ _ _. tt;
    delete_revision = λ _ _ _. tt;
  }

module _ {V : Values} (K : Cluster V) (L : IsOptimistic K) (S : KeepsServices K) (fuel : ℕ)
    (r : MinioReconciler) where
  reconcile_minio-Ends :
      (m : Minio V)
      → HasVersion m
      → Ensures ⊥
          (Unit {0})
          {S = K.State}
          (λ _. Unit {0})
          (reconcile_minio K (suc (suc fuel)) r m)
          (λ _. Unit)
  reconcile_minio-Ends =
      reconcile_minio-Ensures K (anything K) (any_revision K) L fuel r HasVersion (λ _ v. v)
        (λ _ _ v. v)
        (λ old_minio m w.
          sync_resources-Ensures K (anything K) L S fuel r HasVersion (λ _ v. v) (λ _ _ v. v)
            old_minio (λ _ _. tt) (λ _ _. tt) m w tt)

  ended : (o : Outcome K.Error (Unit {0})) → Post ⊥ (Unit {0}) (λ _. Unit {0}) o → o ≢ unfinished
  ended o h e = subst (Post ⊥ (Unit {0}) (λ _. Unit {0})) e h

  -- On a server with optimistic concurrency that no other client writes to and that keeps services,
  -- two units of fuel are enough for the whole of `Reconcile` on a stored resource with a version: no
  -- status update in it, on any of its branches, runs out of fuel.
  pub reconcile_ends :
      (m : Minio V) (namespace name : String) (s : K.State)
      → L.stored s namespace name ≡ some m
      → HasVersion m
      → (reconcile K (suc (suc fuel)) r namespace name s).0 ≢ unfinished
  unfolding reconcile
  reconcile_ends m namespace name s e w =
      rw (L.get_stored s namespace name m e) (ended _ (reconcile_minio-Ends m w s tt).0)
