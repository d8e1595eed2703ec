-- ===== src/Service/Specification.antt =====
-- The services that the operator builds, against one another: which changes of the resource its
-- check sees, and which two specifications it mixes up.
use minio_operator.Base.{none, ◌≡◌, ◌≢◌, ◌↔◌, arith, All, eq_refl}
use minio_operator.Api.Values.{Values}
use minio_operator.Api.Types.{Minio}
use minio_operator.Api.Helper.{host_port}
use minio_operator.Service.Matching.{IsDeepDerivative, minio_svc_matches_specification_iff}
use minio_operator.Service.{
  new_service_for_minio, new_console_service_for_minio, minio_svc_matches_specification,
}

module _ {V : Values} where
  -- The address that the operator uses for the MinIO servers never has a port of the service
  -- that it creates for them: with TLS it is 80 where the service has 443, and without TLS it is
  -- 443 where the service has 80.
  pub host_port-ne-service_port :
      (m : Minio V) → All (λ p. p.port ≢ host_port m) (new_service_for_minio m).spec.ports
  unfolding new_service_for_minio host_port
  host_port-ne-service_port m = ground arith

  -- Given `DeepDerivative` as documented, the service built for one version of a resource matches
  -- the one built for another version exactly when the name of the resource, its use of TLS and
  -- the exposure of the service are the same in both.
  pub service_matches_iff :
      (m m' : Minio V)
      → IsDeepDerivative V
      → (minio_svc_matches_specification V (new_service_for_minio m) (new_service_for_minio m')
          ≡ none)
        ↔ ((m.name ≡ m'.name)
            × (m.spec.enable_cert ≡ m'.spec.enable_cert)
            × (m.spec.expose_services.minio ≡ m'.spec.expose_services.minio))
  unfolding new_service_for_minio
  service_matches_iff m m' d = (
    λ h.
        let a =
          (minio_svc_matches_specification_iff V (new_service_for_minio m)
              (new_service_for_minio m')).0
            h in
        ground (arith, a.labels, a.ports, a.type),
    λ (n, c, e).
        (minio_svc_matches_specification_iff V (new_service_for_minio m)
            (new_service_for_minio m')).1
          (record {
            labels = ground (arith, eq_refl "v1alpha1.bob.com/minio");
            annotations = tt;
            ports = ground arith;
            selector =
                rw n (d.derives_self _ (ground (arith, eq_refl "v1alpha1.bob.com/minio"), tt));
            type = ground arith;
          }),
  )

  -- Given `DeepDerivative` as documented, the console service built for one version of a resource
  -- matches the one built for another version, which has a name, exactly when the name of the
  -- resource and the exposure of the console are the same in both.
  pub console_service_matches_iff :
      (m m' : Minio V)
      → IsDeepDerivative V
      → m'.name ≢ ""
      → (minio_svc_matches_specification V
            (new_console_service_for_minio m)
            (new_console_service_for_minio m')
          ≡ none)
        ↔ ((m.name ≡ m'.name) × (m.spec.expose_services.console ≡ m'.spec.expose_services.console))
  unfolding new_console_service_for_minio
  console_service_matches_iff m m' d named = (
    λ h.
        let a =
          (minio_svc_matches_specification_iff V (new_console_service_for_minio m)
              (new_console_service_for_minio m')).0
            h in
        let s = d.derives_entries _ _ a.selector in ground (arith, s.0 named, a.type),
    λ (n, e).
        (minio_svc_matches_specification_iff V (new_console_service_for_minio m)
            (new_console_service_for_minio m')).1
          (record {
            labels = tt;
            annotations = tt;
            ports = ground arith;
            selector =
                rw n (d.derives_self _ (ground (arith, eq_refl "v1alpha1.bob.com/minio"), tt));
            type = ground arith;
          }),
  )
