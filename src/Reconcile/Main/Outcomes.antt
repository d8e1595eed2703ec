-- ===== src/Reconcile/Main/Outcomes.antt =====
-- What `Reconcile` comes to.
use minio_operator.Base.{items, ℕ, false, ◌≡◌, ◌≢◌, sym, ◌∙◌, String}
use minio_operator.Base.Exec.{value, ok, panic, ◌>>=◌, >>=-eq-ok}
use minio_operator.Api.Values.{Values}
use minio_operator.Api.Types.{Minio}
use minio_operator.Cluster.{Cluster}
use minio_operator.Reconcile.Steps.{MinioReconciler, or_panic}
use minio_operator.Reconcile.Plan.{pods_of}
use minio_operator.Reconcile.Plan.Changes.{same_spec, unchanged_pools}
use minio_operator.Reconcile.Services.{
  ServiceCheck, check_service, check_minio_svc, minio_svc_check,
}
use minio_operator.Reconcile.Main.{
  initial_status, sync_revision, sync_resources, each_pod, sync_pods, reconcile_minio, reconcile,
}

module _ {V : Values} (K : Cluster V) (fuel : ℕ) (r : MinioReconciler) where
  -- Where the revision records the specification that the resource has, the step on the pods
  -- creates none, and it updates the pods of all pools, in order, up to the first failure.
  pub sync_pods_unchanged :
      (m : Minio V) (s : K.State)
      → sync_pods K fuel r (same_spec m) m s
        ≡ (or_panic K (pods_of m (items m.spec.pools))
              >>= (λ pods. each_pod K fuel r K.update_pod "MinIO Pod Update Failed, " m pods))
            s
  unfolding sync_pods pods_of each_pod
  sync_pods_unchanged m s = rw ((unchanged_pools m).0, (unchanged_pools m).1)

  pub check_service_no_client :
      (c : ServiceCheck V) (m : Minio V) (s : K.State)
      → r.kube_client ≡ false
      → check_service K fuel r c m s ≡ (panic, s)
  unfolding check_service
  check_service_no_client c m s k = simp k

  sync_resources_no_client :
      (old_minio m : Minio V) (s s' : K.State)
      → r.kube_client ≡ false
      → sync_resources K fuel r old_minio m s ≢ (ok tt, s')
  unfolding sync_resources check_minio_svc
  sync_resources_no_client old_minio m s s' k h =
      let (m', s₁, e, _) = >>=-eq-ok (check_minio_svc K fuel r m) _ h in
      let e' = check_service_no_client (minio_svc_check m) m s k in cc

  pub reconcile_live_lem :
      (m : Minio V) (namespace name : String) (s s₁ : K.State)
      → K.get_minio namespace name s ≡ (value m, s₁)
      → m.deleting ≡ false
      → reconcile K fuel r namespace name s
        ≡ (initial_status K fuel r m >>= (λ m'.
              sync_revision K fuel r m' >>= λ old_minio. sync_resources K fuel r old_minio m'))
            s₁
  unfolding reconcile reconcile_minio
  reconcile_live_lem m namespace name s s₁ g d = rw (g, d)

  -- A controller without `KubeClient`, as `main` sets it up, never reconciles a resource that it
  -- reads and that is not being deleted without a panic or an error.
  pub reconcile_needs_client :
      (m : Minio V) (namespace name : String) (s s₁ s' : K.State)
      → r.kube_client ≡ false
      → K.get_minio namespace name s ≡ (value m, s₁)
      → m.deleting ≡ false
      → reconcile K fuel r namespace name s ≢ (ok tt, s')
  reconcile_needs_client m namespace name s s₁ s' k g d h =
      let h₁ = sym (reconcile_live_lem m namespace name s s₁ g d) ∙ h in
      let (m', s₂, _, h₂) = >>=-eq-ok (initial_status K fuel r m) _ h₁ in
      let (old_minio, s₃, _, h₃) = >>=-eq-ok (sync_revision K fuel r m') _ h₂ in
      sync_resources_no_client old_minio m' s₃ s' k h₃
