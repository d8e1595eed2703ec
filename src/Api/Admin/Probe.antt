-- ===== src/Api/Admin/Probe.antt =====
-- When the probe of the MinIO servers says that they are healthy.
use minio_operator.Base.{Bool, true, false, ◌≡◌, ◌↔◌, refl, ap, ◌∙◌}
use minio_operator.Base.Exec.{Reply, value, failure}
use minio_operator.Api.Values.{Values}
use minio_operator.Api.Types.{Minio}
use minio_operator.Api.Helper.{tls, minio_server_host_address}
use minio_operator.Api.Admin.{HttpTransport, Madmin, relaxed, is_healthy, probe, minio_health_check}

module _ {S : Type 0} (M : Madmin S) where
  is_healthy_iff : (reply : Reply M.Error Bool) → (is_healthy M reply ≡ true) ↔ (reply ≡ value true)
  is_healthy_iff (value true) = (λ _. refl, λ _. refl)
  is_healthy_iff (value false) = (λ h. cc, λ h. cc)
  is_healthy_iff (failure e) = (λ h. cc, λ h. cc)

  -- The client that was made.
  abbrev client_or : M.Client → Reply M.Error M.Client → M.Client
  client_or c (value clnt) = clnt
  client_or c (failure e) = c

  probe_iff :
      (transport : HttpTransport) (s : S) (reply : Reply M.Error M.Client)
      → (probe M transport s reply ≡ true) ↔ (
          (clnt : M.Client) × (reply ≡ value clnt)
          × (M.healthy (M.set_custom_transport clnt transport) s ≡ value true))
  probe_iff transport s (value clnt) = (
    λ h. (clnt, refl, (is_healthy_iff (M.healthy (M.set_custom_transport clnt transport) s)).0 h),
    λ (c, e, h).
        (is_healthy_iff (M.healthy (M.set_custom_transport clnt transport) s)).1
          (ap (λ r. M.healthy (M.set_custom_transport (client_or clnt r) transport) s) e ∙ h),
  )
  probe_iff transport s (failure e) = (λ h. cc, λ (c, e, h). cc)

module _ {V : Values} {S : Type 0} (M : Madmin S) where
  -- `MinIOHealthCheck` says that the servers are healthy exactly when a client for their address can
  -- be made, with TLS if the resource has it, and is told so; every error counts as not healthy.
  pub minio_health_check_iff :
      (transport : HttpTransport) (m : Minio V) (s : S)
      → (minio_health_check M transport m s ≡ true) ↔ (
          (clnt : M.Client) × (M.new_anonymous_client
              (minio_server_host_address m)
              m.spec.enable_cert
            ≡ value clnt)
          × (M.healthy (M.set_custom_transport clnt (relaxed transport)) s ≡ value true))
  unfolding minio_health_check tls
  minio_health_check_iff transport m s =
      probe_iff M (relaxed transport) s
        (M.new_anonymous_client (minio_server_host_address m) m.spec.enable_cert)
