-- ===== src/Operator/Settled.antt =====
-- A `Reconcile` where the three services are as they should be.
use mathlib.Core.Path.{subst}
use minio_operator.Base.{ℕ, suc, String, Bool-cases, inl, inr, Option, some, ◌≡◌, sym}
use minio_operator.Base.Ensures.{Post, Ensures, >>=-Ensures}
use minio_operator.Api.Values.{Values}
use minio_operator.Api.Objects.{Service}
use minio_operator.Api.Types.{Minio}
use minio_operator.Api.Helper.{
  minio_ci_service_name, minio_hl_service_name, minio_console_service_name, minio_pod_labels,
  owner_ref, expose_minio_svc, expose_minio_console_svc, tls,
}
use minio_operator.Service.{new_service_for_minio, new_console_service_for_minio}
use minio_operator.Service.Matching.{Matches}
use minio_operator.Cluster.{Cluster}
use minio_operator.StatusUpdate.Server.{IsOptimistic}
use minio_operator.Reconcile.Steps.{MinioReconciler}
use minio_operator.Reconcile.Steps.Keeps.{Stable}
use minio_operator.Reconcile.Services.{
  ServiceCheck, minio_svc_check, console_svc_check, minio_hl_svc_check, check_service,
  check_minio_svc, check_console_svc, check_minio_hl_svc,
}
use minio_operator.Reconcile.Services.Laws.{KeepsServices, KeepsOthers, Installed}
use minio_operator.Reconcile.Services.Installed.{check_service_settled}
use minio_operator.Reconcile.Main.{sync_resources, reconcile}
use minio_operator.Reconcile.Main.Begins.{reconcile_minio-Ensures}
use minio_operator.Reconcile.Main.Outcomes.{check_service_no_client}
use minio_operator.Reconcile.Main.Tail.{from_pvc-Ensures}
use minio_operator.Operator.Laws.{KeepsResources}
use minio_operator.Operator.Stays.{
  Alike, Alike-HasVersion, Alike-status, Steady, Steady-stays, Steady-stays_revision,
}

module _ {V : Values} (K : Cluster V) (L : IsOptimistic K) (S : KeepsServices K)
    (O : KeepsOthers K S) (C : KeepsResources K L) (m : Minio V) (namespace name : String) where
  -- The three services are as a `Reconcile` that succeeds leaves them.
  abbrev pub AllInstalled : K.State → Minio V → Type 0
  AllInstalled s x =
      Installed K S s x.namespace (minio_ci_service_name x) (new_service_for_minio x)
      × Installed K S s x.namespace (minio_console_service_name x) (new_console_service_for_minio x)
      × Installed K S s x.namespace (minio_hl_service_name x) (new_console_service_for_minio x)

  AllInstalled-Alike : (s : K.State) (x : Minio V) → Alike m x → AllInstalled s m → AllInstalled s x
  unfolding minio_ci_service_name minio_hl_service_name minio_console_service_name
      new_service_for_minio new_console_service_for_minio minio_pod_labels owner_ref
      expose_minio_svc expose_minio_console_svc tls
  AllInstalled-Alike s x (st, v, w, e) h = subst (AllInstalled s) (sym e) h

  abbrev InstalledIn : (String → String → Option (Service V)) → String → Service V → Type 0
  InstalledIn f n expected =
      (svc : Service V) × (f m.namespace n ≡ some svc) × Matches V svc expected

  pub AllInstalled-same :
      (s t : K.State) → S.service t ≡ S.service s → AllInstalled s m → AllInstalled t m
  AllInstalled-same s t e h =
      subst
        (λ (f : String → String → Option (Service V)).
          InstalledIn f (minio_ci_service_name m) (new_service_for_minio m)
          × InstalledIn f (minio_console_service_name m) (new_console_service_for_minio m)
          × InstalledIn f (minio_hl_service_name m) (new_console_service_for_minio m))
        (sym e) h

  -- The resource is stored, and the services are those of another state.
  abbrev pub Settled : K.State → K.State → Type 0
  Settled s₀ = Steady K L C m namespace name S O (S.service s₀)

  pub Settled-stays : (s₀ : K.State) → Stable K (Settled s₀) (λ _. ⊥)
  Settled-stays s₀ = Steady-stays K L C m namespace name S O (S.service s₀)

  module _ (s₀ : K.State) (installed : AllInstalled s₀ m) (fuel : ℕ) (r : MinioReconciler) where
    abbrev f : ℕ
    f = suc (suc fuel)

    -- A check of a service that is as it should be writes nothing; without `KubeClient` it panics.
    check-Ensures :
        (c : ServiceCheck V) (x : Minio V)
        → Alike m x
        → ((s : K.State) → AllInstalled s x → Installed K S s x.namespace c.service_name c.expected)
        → Ensures ⊥ (Unit {0}) (Settled s₀) (check_service K f r c x) (Alike m)
    check-Ensures c x alike part s p = elim (Bool-cases r.kube_client) [
      | inl k ↦
          subst (λ y. Post ⊥ (Unit {0}) (Alike m) y.0 × Settled s₀ y.1)
            (sym (
              check_service_settled K S f r c x s k
                (part s (AllInstalled-Alike s x alike (AllInstalled-same s₀ s p.0 installed)))))
            (alike, p)
      | inr k ↦
          subst (λ y. Post ⊥ (Unit {0}) (Alike m) y.0 × Settled s₀ y.1)
            (sym (check_service_no_client K f r c x s k)) (tt, p)
    ]

    check_minio_svc-Ensures :
        (x : Minio V)
        → Alike m x
        → Ensures ⊥ (Unit {0}) (Settled s₀) (check_minio_svc K f r x) (Alike m)
    unfolding check_minio_svc minio_svc_check
    check_minio_svc-Ensures x alike = check-Ensures (minio_svc_check x) x alike (λ s h. h.0)

    check_console_svc-Ensures :
        (x : Minio V)
        → Alike m x
        → Ensures ⊥ (Unit {0}) (Settled s₀) (check_console_svc K f r x) (Alike m)
    unfolding check_console_svc console_svc_check
    check_console_svc-Ensures x alike = check-Ensures (console_svc_check x) x alike (λ s h. h.1)

    check_minio_hl_svc-Ensures :
        (x : Minio V)
        → Alike m x
        → Ensures ⊥ (Unit {0}) (Settled s₀) (check_minio_hl_svc K f r x) (Alike m)
    unfolding check_minio_hl_svc minio_hl_svc_check
    check_minio_hl_svc-Ensures x alike = check-Ensures (minio_hl_svc_check x) x alike (λ s h. h.2)

    sync_resources-Settled :
        (old_minio x : Minio V)
        → Alike m x
        → Ensures ⊥ (Unit {0}) (Settled s₀) (sync_resources K f r old_minio x) (λ _. Unit)
    unfolding sync_resources
    sync_resources-Settled old_minio x alike =
        >>=-Ensures ⊥ (Unit {0}) (Settled s₀) (check_minio_svc K f r x) _ (Alike m) (λ _. Unit)
          (check_minio_svc-Ensures x alike)
          (λ x₁ a₁.
            >>=-Ensures ⊥ (Unit {0}) (Settled s₀) (check_console_svc K f r x₁) _ (Alike m)
              (λ _. Unit) (check_console_svc-Ensures x₁ a₁)
              (λ x₂ a₂.
                >>=-Ensures ⊥ (Unit {0}) (Settled s₀) (check_minio_hl_svc K f r x₂) _ (Alike m)
                  (λ _. Unit) (check_minio_hl_svc-Ensures x₂ a₂)
                  (from_pvc-Ensures K (Settled-stays s₀) L S fuel r (Alike m) (Alike-HasVersion m)
                    (Alike-status m) old_minio)))

    -- A further `Reconcile` writes no service.
    pub reconcile-Settled :
        (s : K.State) → Settled s₀ s → Settled s₀ (reconcile K f r namespace name s).1
    unfolding reconcile
    reconcile-Settled s (same, (x, stored, alike)) =
        rw (L.get_stored s namespace name x stored)
          (reconcile_minio-Ensures K (Settled-stays s₀)
            (Steady-stays_revision K L C m namespace name S O (S.service s₀)) L fuel r (Alike m)
            (Alike-HasVersion m) (Alike-status m) sync_resources-Settled x alike s
            (same, (x, stored, alike))).1
