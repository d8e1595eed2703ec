-- ===== src/Reconcile/Services/Installed.antt =====
-- The three checks of `Reconcile`, where they succeed.
use minio_operator.Base.{ℕ, true, ◌≡◌, ◌≢◌, refl, arith, eq_refl, ◌∙◌}
use minio_operator.Base.Exec.{ok}
use minio_operator.Api.Constants.{minio_port, console_port}
use minio_operator.Api.Values.{Values}
use minio_operator.Api.Types.{Minio}
use minio_operator.Api.Helper.{
  minio_ci_service_name, minio_hl_service_name, minio_console_service_name,
}
use minio_operator.Service.{
  new_service_for_minio, new_console_service_for_minio, new_headless_service_for_minio,
}
use minio_operator.Service.Matching.{IsDeepDerivative, Matches, minio_svc_matches_specification_iff}
use minio_operator.Service.Specification.{service_matches_iff}
use minio_operator.Cluster.{Cluster}
use minio_operator.Reconcile.Steps.{MinioReconciler}
use minio_operator.Reconcile.Services.Cases.{update_checked_match, check_service_found}
use minio_operator.Reconcile.Services.Laws.{KeepsServices, Installed}
use minio_operator.Reconcile.Services.Checked.{check_service-Installed}
use minio_operator.Reconcile.Services.{
  ServiceCheck, minio_svc_check, console_svc_check, minio_hl_svc_check, check_service,
  check_minio_svc, check_console_svc, check_minio_hl_svc,
}

module _ {V : Values} (K : Cluster V) (L : KeepsServices K) (fuel : ℕ) (r : MinioReconciler) where
  minio-Matches :
      (m : Minio V)
      → IsDeepDerivative V
      → Matches V (new_service_for_minio m) (new_service_for_minio m)
  minio-Matches m d =
      (minio_svc_matches_specification_iff V (new_service_for_minio m) (new_service_for_minio m)).0
        ((service_matches_iff m m d).1 (refl, refl, refl))

  console-Matches :
      (m : Minio V)
      → IsDeepDerivative V
      → Matches V (new_console_service_for_minio m) (new_console_service_for_minio m)
  unfolding new_console_service_for_minio
  console-Matches m d = record {
    labels = tt;
    annotations = tt;
    ports = ((refl, refl, refl), tt);
    selector = d.derives_self _ (ground (arith, eq_refl "v1alpha1.bob.com/minio"), tt);
    type = refl;
  }

  -- On a server that keeps services, given `DeepDerivative` as documented and the target port not
  -- zero: where `checkMinIOSvc` returns no error, whatever it found, the service of the resource's
  -- name is stored and matches the service that the operator wants.
  pub check_minio_svc-Installed :
      (m m' : Minio V) (s s' : K.State)
      → V.from_int minio_port ≢ V.int_or_string_zero
      → IsDeepDerivative V
      → check_minio_svc K fuel r m s ≡ (ok m', s')
      → Installed K L s' m.namespace (minio_ci_service_name m) (new_service_for_minio m)
  unfolding check_minio_svc minio_svc_check new_service_for_minio
  check_minio_svc-Installed m m' s s' full d h =
      check_service-Installed K L fuel r (minio_svc_check m) m m' s s'
        ((full, tt), minio-Matches m d) refl h

  -- On a server that keeps services, given `DeepDerivative` as documented and the target port not
  -- zero: where `checkConsoleSvc` returns no error, whatever it found, the console service is
  -- stored and matches the one that the operator wants.
  pub check_console_svc-Installed :
      (m m' : Minio V) (s s' : K.State)
      → V.from_int console_port ≢ V.int_or_string_zero
      → IsDeepDerivative V
      → check_console_svc K fuel r m s ≡ (ok m', s')
      → Installed K L s' m.namespace
          (minio_console_service_name m)
          (new_console_service_for_minio m)
  unfolding check_console_svc console_svc_check new_console_service_for_minio
  check_console_svc-Installed m m' s s' full d h =
      check_service-Installed K L fuel r (console_svc_check m) m m' s s'
        ((full, tt), console-Matches m d) refl h

  -- On a server that keeps services, given `DeepDerivative` as documented and the target port not
  -- zero: where `checkMinIOHLSvc` returns no error, whatever it found, a service is stored under
  -- the headless service's name, and it matches the console service.
  pub check_minio_hl_svc-Installed :
      (m m' : Minio V) (s s' : K.State)
      → V.from_int console_port ≢ V.int_or_string_zero
      → IsDeepDerivative V
      → check_minio_hl_svc K fuel r m s ≡ (ok m', s')
      → Installed K L s' m.namespace (minio_hl_service_name m) (new_console_service_for_minio m)
  unfolding check_minio_hl_svc minio_hl_svc_check new_console_service_for_minio
      new_headless_service_for_minio
  check_minio_hl_svc-Installed m m' s s' full d h =
      check_service-Installed K L fuel r (minio_hl_svc_check m) m m' s s'
        ((full, tt), console-Matches m d) refl h

  -- An installed service is left alone.
  pub check_service_settled :
      (c : ServiceCheck V) (m : Minio V) (s : K.State)
      → r.kube_client ≡ true
      → Installed K L s m.namespace c.service_name c.expected
      → check_service K fuel r c m s ≡ (ok m, s)
  check_service_settled c m s k (svc, stored, matches) =
      check_service_found K fuel r c m k (L.get_some s m.namespace c.service_name svc stored)
      ∙ update_checked_match K fuel r c m svc s
          ((minio_svc_matches_specification_iff V svc c.expected).1 matches)

  -- On a server that keeps services, given `DeepDerivative` as documented, the target port not zero
  -- and `KubeClient` set: a `checkMinIOSvc` that directly follows a successful one changes nothing,
  -- reports nothing and returns the resource as it is.
  pub check_minio_svc_twice :
      (m m' : Minio V) (s s' : K.State)
      → V.from_int minio_port ≢ V.int_or_string_zero
      → IsDeepDerivative V
      → r.kube_client ≡ true
      → check_minio_svc K fuel r m s ≡ (ok m', s')
      → check_minio_svc K fuel r m s' ≡ (ok m, s')
  unfolding check_minio_svc minio_svc_check new_service_for_minio
  check_minio_svc_twice m m' s s' full d k h = check_service_settled (minio_svc_check m) m s' k (
      check_service-Installed K L fuel r (minio_svc_check m) m m' s s'
        ((full, tt), minio-Matches m d) refl h)
