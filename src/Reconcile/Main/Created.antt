-- ===== src/Reconcile/Main/Created.antt =====
-- The pods that a `Reconcile` that succeeds has created.
use mathlib.Core.Path.{subst}
use minio_operator.Base.{items, ℕ, suc, String, some, List, [], ◌∷◌, ◌++◌, ◌<>◌, All, ◌≡◌, refl, ap}
use minio_operator.Base.Exec.{Exec, Reply, value, failure, ok, call, raise, ◌>>=◌, >>=-eq-ok}
use minio_operator.Base.Ensures.{ok-Post}
use minio_operator.Base.Partial.{◌>>=◌ as ◌>>=?◌}
use minio_operator.Api.Values.{Values}
use minio_operator.Api.Objects.{Pod}
use minio_operator.Api.Types.{Minio, MinioStatus, Pool, DeployStatus}
use minio_operator.Api.Helper.{
  tls, minio_hl_service_name, minio_pod_labels, owner_ref, default_pod_env,
}
use minio_operator.Pods.{
  minio_server_container, volume_claim_name, pod_volume, pod_volumes, mount_path, pod_volume_mount,
  pod_volume_mounts, new_pod, new_pods_for_minio_pool,
}
use minio_operator.Cluster.{Cluster}
use minio_operator.StatusUpdate.Server.{IsOptimistic}
use minio_operator.Reconcile.Steps.{
  MinioReconciler, with_message, with_kube, update_status, or_panic, or_panic-eq-ok,
  with_kube-call-eq-ok,
}
use minio_operator.Reconcile.Steps.Keeps.{Stable, HasVersion}
use minio_operator.Reconcile.Plan.{add_pools, update_pools, pods_of}
use minio_operator.Reconcile.Services.Laws.{KeepsServices}
use minio_operator.Reconcile.Main.{each_pod, sync_pods}
use minio_operator.Reconcile.Main.Keeps.{each_pod-Ensures}
use minio_operator.Reconcile.Main.Ends.{anything}

-- What the server documents of pods, where no other client removes them: a pod that was created is
-- there, and no call of the operator removes one.
pub record KeepsPods {V : Values} (K : Cluster V) : Type 1 where
  pub Has : K.State → String → String → Type 0
  pub create_value :
      (ns : String) (pod stored : Pod V) (s s' : K.State)
      → K.create_pod ns pod s ≡ (value stored, s')
      → Has s' ns pod.name
  pub stays : (ns name : String) → Stable K (λ s. Has s ns name) (λ _. Unit)

module _ {V : Values} (m : Minio V) (st : MinioStatus) where
  -- Pods do not depend on the status.
  pub pods_of-status :
      (pools : List (Pool V)) → pods_of (record m { status = st }) pools ≡ pods_of m pools
  unfolding pods_of new_pods_for_minio_pool new_pod minio_server_container volume_claim_name
      pod_volume pod_volumes mount_path pod_volume_mount pod_volume_mounts tls minio_hl_service_name
      minio_pod_labels owner_ref default_pod_env
  pods_of-status [] = refl
  pods_of-status (pool ∷ pools) =
      ap (λ o. new_pods_for_minio_pool m pool >>=? λ pods. o >>=? λ rest. some (pods ++ rest))
        (pods_of-status pools)

module _ {V : Values} (K : Cluster V) (L : IsOptimistic K) (S : KeepsServices K) (Q : KeepsPods K)
    (fuel : ℕ) (r : MinioReconciler) where
  abbrev f : ℕ
  f = suc (suc fuel)

  -- All pods are there.
  abbrev pub HasPods : K.State → String → List (Pod V) → Type 0
  HasPods s ns = All (λ pod. Q.Has s ns pod.name)

  abbrev create_pods : Minio V → List (Pod V) → Exec K.State K.Error (Unit {0})
  create_pods = each_pod K f r K.create_pod "MinIO Pod Create Failed, "

  create_reply :
      (m : Minio V) (pod : Pod V) (pods : List (Pod V)) (reply : Reply K.Error (Pod V))
      (s s₁ s' : K.State)
      → HasVersion m
      → K.create_pod m.namespace pod s ≡ (reply, s₁)
      → (elim reply as (λ _. Exec K.State K.Error (Unit {0})) [
        | value _ ↦ create_pods m pods
        | failure e ↦
            update_status K f
              (with_message m DeployStatus.failed ("MinIO Pod Create Failed, " <> K.error_text e))
            >>= λ _. raise e
      ])
          s₁
        ≡ (ok tt, s')
      → Q.Has s' m.namespace pod.name × (create_pods m pods s₁ ≡ (ok tt, s'))
  create_reply m pod pods (value stored) s s₁ s' w e h =
      let T = Q.stays m.namespace pod.name in
      (
        (ok-Post (λ t. Q.Has t m.namespace pod.name) (λ _. Unit) h
            (each_pod-Ensures K T L S fuel r HasVersion (λ _ v. v) (λ _ _ v. v) K.create_pod
              "MinIO Pod Create Failed, " m pods T.create_pod w s₁
              (Q.create_value m.namespace pod stored s s₁ e))).1,
        h,
      )
  create_reply m pod pods (failure e') s s₁ s' w e h =
      let (_, s₂, _, h') = >>=-eq-ok (update_status K f _) _ h in cc h'

  create_pods-Has :
      (m : Minio V) (pods : List (Pod V)) (s s' : K.State)
      → HasVersion m
      → create_pods m pods s ≡ (ok tt, s')
      → HasPods s' m.namespace pods
  unfolding each_pod
  create_pods-Has m [] s s' w h = tt
  create_pods-Has m (pod ∷ pods) s s' w h =
      let (reply, s₁, e₁, h₁) =
        >>=-eq-ok (with_kube K r (call (K.create_pod m.namespace pod))) _ h in
      let e = with_kube-call-eq-ok K r (K.create_pod m.namespace pod) s e₁ in
      let (p, h₂) = create_reply m pod pods reply s s₁ s' w e h₁ in
      (p, create_pods-Has m pods s₁ s' w h₂)

  -- The state of all pods stays.
  pub pods_stay :
      (ns : String) (pods : List (Pod V)) → Stable K (λ s. HasPods s ns pods) (λ _. Unit)
  pods_stay ns [] = anything K
  pods_stay ns (pod ∷ pods) =
      let T = Q.stays ns pod.name in
      let Ts = pods_stay ns pods in
      record {
        get_minio = λ a b s p. (T.get_minio a b s p.0, Ts.get_minio a b s p.1);
        update_minio_status =
            λ x s p. (T.update_minio_status x s p.0, Ts.update_minio_status x s p.1);
        list_claims = λ a l s p. (T.list_claims a l s p.0, Ts.list_claims a l s p.1);
        create_claim = λ c s p. (T.create_claim c s p.0, Ts.create_claim c s p.1);
        get_service = λ a b s p. (T.get_service a b s p.0, Ts.get_service a b s p.1);
        create_service = λ a c s o p. (T.create_service a c s o p.0, Ts.create_service a c s o p.1);
        update_service = λ a c s o p. (T.update_service a c s o p.0, Ts.update_service a c s o p.1);
        create_pod = λ a c s p. (T.create_pod a c s p.0, Ts.create_pod a c s p.1);
        update_pod = λ a c s p. (T.update_pod a c s p.0, Ts.update_pod a c s p.1);
        event = λ c k re me s p. (T.event c k re me s p.0, Ts.event c k re me s p.1);
      }

  -- What is created for the pools that are added.
  abbrev pub Created : K.State → Minio V → Minio V → Type 0
  Created s old_minio m =
      (pods : List (Pod V)) × (pods_of m
          (add_pools (items old_minio.spec.pools) (items m.spec.pools))
        ≡ some pods)
      × HasPods s m.namespace pods

  pub sync_pods-Created :
      (old_minio m : Minio V) (s s' : K.State)
      → HasVersion m
      → sync_pods K f r old_minio m s ≡ (ok tt, s')
      → Created s' old_minio m
  unfolding sync_pods
  sync_pods-Created old_minio m s s' w h =
      let added = pods_of m (add_pools (items old_minio.spec.pools) (items m.spec.pools)) in
      let (pods, s₁, e₁, h₁) = >>=-eq-ok (or_panic K added) _ h in
      let (_, s₂, e₂, h₂) = >>=-eq-ok (create_pods m pods) _ h₁ in
      let (p, _) = or_panic-eq-ok K added e₁ in
      let there = create_pods-Has m pods s₁ s₂ w e₂ in
      let updated = pods_of m (update_pools old_minio m (items old_minio.spec.pools)) in
      let (others, s₃, e₃, h₃) = >>=-eq-ok (or_panic K updated) _ h₂ in
      let (_, same) = or_panic-eq-ok K updated e₃ in
      let T = pods_stay m.namespace pods in
      (
        pods,
        p,
        (ok-Post (λ t. HasPods t m.namespace pods) (λ _. Unit) h₃
            (each_pod-Ensures K T L S fuel r HasVersion (λ _ v. v) (λ _ _ v. v) K.update_pod
              "MinIO Pod Update Failed, " m others T.update_pod w s₃
              (subst (λ t. HasPods t m.namespace pods) same there))).1,
      )
