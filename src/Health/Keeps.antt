-- ===== src/Health/Keeps.antt =====
-- What a run of the health controller keeps.
use mathlib.Core.Path.{subst}
use minio_operator.Base.{ℕ, String, Bool, sym, if◌then◌else◌}
use minio_operator.Base.Exec.{Exec, Reply, value, failure, call, raise}
use minio_operator.Base.Ensures.{Post, Keeps, >>=-Keeps, if-Keeps}
use minio_operator.Api.Values.{Values}
use minio_operator.Api.Types.{Minio, HealthStatus, zero_minio}
use minio_operator.Cluster.{Cluster}
use minio_operator.StatusUpdate.{update_minio_status}
use minio_operator.StatusUpdate.Same.{update_minio_status_same}
use minio_operator.Reconcile.Steps.Keeps.{Stable, retry-Keeps}
use minio_operator.Health.{
  with_health, is_completed, health_of, report_health, check_health, reconcile_health,
}

module _ {V : Values} (K : Cluster V) {P : K.State → Type 0} {May : String → Type 0}
    (T : Stable K P May) where
  pub update_minio_status-Keeps : (fuel : ℕ) (m : Minio V) → Keeps P (update_minio_status K fuel m)
  update_minio_status-Keeps fuel m s p =
      subst (λ x. Post (Unit {0}) (Unit {0}) (λ _. Unit {0}) x.0 × P x.1)
        (sym (update_minio_status_same K fuel m s)) (retry-Keeps K T fuel m s p)

  module _ (healthy : Minio V → K.State → Bool) (fuel : ℕ) where
    report_health-Keeps : (m : Minio V) (h : Bool) → Keeps P (report_health K healthy fuel m h)
    unfolding report_health
    report_health-Keeps m h =
        >>=-Keeps P (update_minio_status K fuel (with_health m (health_of h))) _
          (update_minio_status-Keeps fuel (with_health m (health_of h))) (λ _ s p. (tt, p))

    check_health-Keeps : (m : Minio V) → Keeps P (check_health K healthy fuel m)
    unfolding check_health
    check_health-Keeps m =
        let seen = with_health m HealthStatus.unknown in
        >>=-Keeps P (update_minio_status K fuel seen) _ (update_minio_status-Keeps fuel seen) (λ _.
          if-Keeps P (is_completed m.status.status) _ _
            (λ s p. report_health-Keeps seen (healthy seen s) s p) (λ s p. (tt, p)))

    read-Keeps :
        (reply : Reply K.Error (Minio V))
        → Keeps P (elim reply as (λ _. Exec K.State K.Error Bool) [
          | value m ↦ check_health K healthy fuel m
          | failure e ↦
              if K.is_not_found e then raise e else check_health K healthy fuel (zero_minio V)
        ])
    read-Keeps (value m) = check_health-Keeps m
    read-Keeps (failure e) =
        if-Keeps P (K.is_not_found e) (raise e) _ (λ s p. (tt, p))
          (check_health-Keeps (zero_minio V))

    pub reconcile_health-Keeps :
        (namespace name : String) → Keeps P (reconcile_health K healthy fuel namespace name)
    unfolding reconcile_health
    reconcile_health-Keeps namespace name =
        >>=-Keeps P (call (K.get_minio namespace name)) _
          (λ s p. (tt, T.get_minio namespace name s p)) read-Keeps
