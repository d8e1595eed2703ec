-- ===== src/Tests/Specs.antt =====
-- Services compared at a concrete resource.
use minio_operator.Base.{true, none, All, ◌≡◌, ◌≢◌, ◌↔◌}
use minio_operator.Api.Types.{Minio}
use minio_operator.Api.Helper.{
  host_port, minio_ci_service_name, minio_hl_service_name, minio_console_service_name,
}
use minio_operator.Api.Helper.Names.{service_names_distinct}
use minio_operator.Service.{new_service_for_minio, minio_svc_matches_specification}
use minio_operator.Service.Matching.{Matches, minio_svc_matches_specification_iff}
use minio_operator.Service.Specification.{host_port-ne-service_port}
use minio_operator.Tests.Data.{plain, resource}

abbrev with_tls : Minio plain
with_tls = record resource { spec = record resource.spec { enable_cert = true } }

minio_svc_matches_specification_iff_example :
    (minio_svc_matches_specification plain
        (new_service_for_minio with_tls)
        (new_service_for_minio resource)
      ≡ none)
    ↔ Matches plain (new_service_for_minio with_tls) (new_service_for_minio resource)
minio_svc_matches_specification_iff_example =
    minio_svc_matches_specification_iff plain (new_service_for_minio with_tls)
      (new_service_for_minio resource)

host_port-ne-service_port_example :
    All (λ p. p.port ≢ host_port with_tls) (new_service_for_minio with_tls).spec.ports
host_port-ne-service_port_example = host_port-ne-service_port with_tls

service_names_distinct_example :
    (minio_ci_service_name resource ≢ minio_hl_service_name resource)
    × (minio_ci_service_name resource ≢ minio_console_service_name resource)
    × (minio_hl_service_name resource ≢ minio_console_service_name resource)
service_names_distinct_example = service_names_distinct resource
