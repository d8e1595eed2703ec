-- ===== src/Reconcile/Services/Headless.antt =====
-- What `checkMinIOHLSvc` does to the headless service.
use minio_operator.Base.{arith, ℕ, true, some, List, [], ◌∷◌, map, ◌≡◌, ◌∙◌, Option-cases, inl, inr}
use minio_operator.Base.Exec.{ok, value}
use minio_operator.Api.Values.{Values}
use minio_operator.Api.Objects.{Service, ServicePort}
use minio_operator.Api.Types.{Minio}
use minio_operator.Api.Helper.{minio_hl_service_name}
use minio_operator.Service.{
  Mismatch, minio_svc_matches_specification, new_console_service_for_minio,
  new_headless_service_for_minio,
}
use minio_operator.Service.Matching.{SamePorts, minio_svc_matches_specification_iff}
use minio_operator.Cluster.{Cluster}
use minio_operator.Reconcile.Steps.{MinioReconciler}
use minio_operator.Reconcile.Services.Cases.{update_checked_replace, check_service_found}
use minio_operator.Reconcile.Services.{overwritten, minio_hl_svc_check, check_minio_hl_svc}

module _ {V : Values} where
  -- The numbers of the ports of a service.
  abbrev pub port_numbers : Service V → List ℕ
  port_numbers svc = map (λ (p : ServicePort V). p.port) svc.spec.ports

  console_ports_differ :
      (m : Minio V) (ports : List (ServicePort V))
      → map (λ (p : ServicePort V). p.port) ports ≡ port_numbers (new_headless_service_for_minio m)
      → SamePorts V (new_console_service_for_minio m).spec.ports ports
      → ⊥
  unfolding new_headless_service_for_minio new_console_service_for_minio
  console_ports_differ m [] e h = h
  console_ports_differ m (p ∷ ports) e h = ground arith

  -- A service with the port of the headless one never is as the console service should be.
  never_console :
      (m : Minio V) (svc : Service V)
      → port_numbers svc ≡ port_numbers (new_headless_service_for_minio m)
      → (x : Mismatch) × (minio_svc_matches_specification V svc (new_console_service_for_minio m)
          ≡ some x)
  never_console m svc e =
      elim (Option-cases
        (minio_svc_matches_specification V svc (new_console_service_for_minio m))) [
          | inl q ↦
              elim (console_ports_differ m svc.spec.ports e
                ((minio_svc_matches_specification_iff V svc (new_console_service_for_minio m)).0
                  q).ports) [ ]
          | inr found ↦ found
        ]

module _ {V : Values} (K : Cluster V) (fuel : ℕ) (r : MinioReconciler) where
  -- With `KubeClient` and `Recorder` set: where the service that is found under the name of the
  -- headless one has the port numbers that the operator creates the headless service with, whatever
  -- the server has filled in besides, and the update succeeds, `checkMinIOHLSvc` has replaced its
  -- labels, annotations and specification by those of the console service, and reports it as updated.
  pub headless_overwritten :
      (m : Minio V) (s s₁ s₂ : K.State) (found svc : Service V)
      → r.kube_client ≡ true
      → r.recorder ≡ true
      → K.get_service m.namespace (minio_hl_service_name m) s ≡ (value found, s₁)
      → port_numbers found ≡ port_numbers (new_headless_service_for_minio m)
      → K.update_service m.namespace (overwritten found (new_console_service_for_minio m)) s₁
        ≡ (value svc, s₂)
      → check_minio_hl_svc K fuel r m s
        ≡ (ok m, K.event m "Normal" "SvcUpdated" "MinIO Headless Service Updated" s₂)
  unfolding check_minio_hl_svc
  headless_overwritten m s s₁ s₂ found svc k c g ports u =
      let (_, differs) = never_console m found ports in
      check_service_found K fuel r (minio_hl_svc_check m) m k g
      ∙ update_checked_replace K fuel r (minio_hl_svc_check m) m found k c differs u
