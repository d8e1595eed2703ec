-- ===== src/Health/Reported.antt =====
-- What becomes of the health that the controller finds.
use mathlib.Core.Option
use minio_operator.Base.{ℕ, suc, Bool, true, not, some, ◌≡◌, ◌≢◌, refl, ap, sym, ◌∙◌}
use minio_operator.Base.Exec.{ok, value}
use minio_operator.Api.Values.{Values}
use minio_operator.Api.Types.{Minio, MinioStatus, DeployStatus, HealthStatus}
use minio_operator.Cluster.{Cluster}
use minio_operator.StatusUpdate.{update_minio_status, update_minio_status_with_retry}
use minio_operator.StatusUpdate.Server.{IsOptimistic}
use minio_operator.StatusUpdate.Retry.{second_update_dropped}
use minio_operator.StatusUpdate.Same.{update_minio_status_same}
use minio_operator.Health.{
  is_completed, with_health, health_of, report_health, check_health, reconcile_health,
}

module _ {V : Values} (K : Cluster V) (healthy : Minio V → K.State → Bool) where
  -- The run of `Reconcile` in which both status updates succeed.
  reconcile_health_runs :
      (fuel : ℕ) (s s₁ s₂ : K.State) (m : Minio V)
      → K.get_minio m.namespace m.name s ≡ (value m, s)
      → is_completed m.status.status ≡ true
      → update_minio_status K fuel (with_health m HealthStatus.unknown) s ≡ (ok tt, s₁)
      → update_minio_status K fuel
          (with_health m (health_of (healthy (with_health m HealthStatus.unknown) s₁)))
          s₁
        ≡ (ok tt, s₂)
      → reconcile_health K healthy fuel m.namespace m.name s
        ≡ (ok (not (healthy (with_health m HealthStatus.unknown) s₁)), s₂)
  unfolding reconcile_health check_health report_health
  reconcile_health_runs fuel s s₁ s₂ m g d p q = rw (g, p, d, q) refl

module _ {V : Values} (K : Cluster V) (L : IsOptimistic K)
    (healthy : Minio V → K.State → Bool) where
  abbrev stored_status : Minio V → K.State → Option.Option MinioStatus
  stored_status m t = Option.map (λ (x : Minio V). x.status) (L.stored t m.namespace m.name)

  -- On a server with optimistic concurrency that no other client writes to, where a resource is
  -- completed, has a version, and has a health other than `unknown`: whatever the probe finds, the
  -- health controller's `Reconcile` returns no error, and the stored status
  -- keeps its other fields and has the health `unknown`.
  pub reconcile_health_unknown :
      (fuel : ℕ) (s : K.State) (m : Minio V)
      → L.stored s m.namespace m.name ≡ some m
      → m.resource_version ≢ ""
      → m.status.status ≡ DeployStatus.completed
      → m.status.health_status ≢ HealthStatus.unknown
      → let s₁ =
          (update_minio_status K (suc (suc fuel)) (with_health m HealthStatus.unknown) s).1 in
        let r = reconcile_health K healthy (suc (suc fuel)) m.namespace m.name s in
        (r.0 ≡ ok (not (healthy (with_health m HealthStatus.unknown) s₁)))
        × (Option.map (λ (x : Minio V). x.status) (L.stored r.1 m.namespace m.name)
            ≡ some (with_health m HealthStatus.unknown).status)
  reconcile_health_unknown fuel s m e w d h =
      let u = with_health m HealthStatus.unknown in
      let s₁ = (update_minio_status K (suc (suc fuel)) u s).1 in
      let found = healthy u s₁ in
      let v = with_health m (health_of found) in
      let fuel' = suc (suc fuel) in
      let (ok₁, ok₂, kept) =
        second_update_dropped K L fuel s u m v.status w e refl
          (λ p. h (sym (ap (λ (x : MinioStatus). x.health_status) p))) in
      let same₁ = update_minio_status_same K fuel' u s in
      let same₂ = update_minio_status_same K fuel' v s₁ in
      let first = update_minio_status_with_retry K fuel' u true s in
      let at : s₁ ≡ first.1 = ap (λ r. r.1) same₁ in
      let at₂ =
        ap (λ r. r.1) same₂ ∙ ap (λ t. (update_minio_status_with_retry K fuel' v true t).1) at in
      let run =
        reconcile_health_runs K healthy fuel' s s₁ (update_minio_status K fuel' v s₁).1 m
          (L.get_stored s m.namespace m.name m e) (ap is_completed d)
          (ap (λ o. (o, s₁)) (ap (λ r. r.0) same₁ ∙ ok₁))
          (ap (λ o. (o, (update_minio_status K fuel' v s₁).1))
            (ap (λ r. r.0) same₂
              ∙ ap (λ t. (update_minio_status_with_retry K fuel' v true t).0) at
              ∙ ok₂)) in
      (ap (λ r. r.0) run, ap (stored_status m) (ap (λ r. r.1) run ∙ at₂) ∙ kept)
