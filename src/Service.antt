-- ===== src/Service.antt =====
-- utils/service.go: the three services of a MinIO resource, and the test whether a service of the
-- cluster still is as it should be.
pub mod Matching
pub mod Specification
use minio_operator.Base.{
  ℕ, String, Bool, true, false, not, ◌&&◌, ◌||◌, Option, none, some, List, [], ◌∷◌, ◌==◌, nat_beq,
  length, get_elem?, if◌then◌else◌,
}
use minio_operator.Base.Dict.{lookup}
use minio_operator.Base.Equality.{string_eq}
use minio_operator.Api.Constants.{
  minio_port, minio_port_svc, minio_tls_port_svc, minio_service_http_port_name,
  minio_service_https_port_name, console_port, console_service_port_name,
}
use minio_operator.Api.Values.{Values}
use minio_operator.Api.Objects.{
  Labels, ServiceType, cluster_ip, node_port, other, ServicePort, ServiceSpec, Service,
}
use minio_operator.Api.Types.{Minio}
use minio_operator.Api.Helper.{
  tls, minio_ci_service_name, minio_hl_service_name, minio_console_service_name, minio_pod_labels,
  owner_ref, expose_minio_svc, expose_minio_console_svc,
}

-- `ClusterIPNone`
abbrev pub cluster_ip_none : String
cluster_ip_none = "None"

-- The texts of the errors of `MinioSvcMatchesSpecification`.
pub data Mismatch : Type 0 where
  labels_differ annotations_differ ports_differ selectors_differ type_differs : Mismatch

-- `ClusterIP`, or `NodePort` where the service is exposed.
abbrev exposed : Bool → ServiceType
exposed expose = if expose then node_port else cluster_ip

module _ {V : Values} where
  -- `NewServiceForMinIO`
  unfoldable pub new_service_for_minio : Minio V → Service V
  unfolding tls minio_ci_service_name minio_pod_labels owner_ref expose_minio_svc
  new_service_for_minio m = record {
    name = minio_ci_service_name m;
    namespace = m.namespace;
    labels = minio_pod_labels m;
    annotations = [];
    owner_references = owner_ref m;
    spec = record {
      ports =
          record {
            name = if tls m then minio_service_https_port_name else minio_service_http_port_name;
            port = if tls m then minio_tls_port_svc else minio_port_svc;
            target_port = V.from_int minio_port;
            node_port = 0;
          }
          ∷ [];
      selector = minio_pod_labels m;
      type = exposed (expose_minio_svc m);
      cluster_ip_field = "";
      publish_not_ready_addresses = false;
    };
  }

  -- `NewConsoleServiceForMinIO`
  unfoldable pub new_console_service_for_minio : Minio V → Service V
  unfolding minio_console_service_name minio_pod_labels owner_ref expose_minio_console_svc
  new_console_service_for_minio m = record {
    name = minio_console_service_name m;
    namespace = m.namespace;
    labels = [];
    annotations = [];
    owner_references = owner_ref m;
    spec = record {
      ports =
          record {
            name = console_service_port_name;
            port = console_port;
            target_port = V.from_int console_port;
            node_port = 0;
          }
          ∷ [];
      selector = minio_pod_labels m;
      type = exposed (expose_minio_console_svc m);
      cluster_ip_field = "";
      publish_not_ready_addresses = false;
    };
  }

  -- `NewHeadlessServiceForMinIO`
  unfoldable pub new_headless_service_for_minio : Minio V → Service V
  unfolding tls minio_hl_service_name minio_pod_labels owner_ref
  new_headless_service_for_minio m = record {
    name = minio_hl_service_name m;
    namespace = m.namespace;
    labels = minio_pod_labels m;
    annotations = [];
    owner_references = owner_ref m;
    spec = record {
      ports =
          record {
            name = if tls m then minio_service_https_port_name else minio_service_http_port_name;
            port = minio_port;
            target_port = V.int_or_string_zero;
            node_port = 0;
          }
          ∷ [];
      selector = minio_pod_labels m;
      type = cluster_ip;
      cluster_ip_field = cluster_ip_none;
      publish_not_ready_addresses = true;
    };
  }

abbrev type_beq : ServiceType → ServiceType → Bool
type_beq cluster_ip cluster_ip = true
type_beq node_port node_port = true
type_beq other other = true
type_beq _ _ = false

-- A loop over the expected labels or annotations: `value, ok := got[k]; !ok || value != expVal`.
unfoldable pub holds_entry : Labels → String → String → Bool
holds_entry got k v = elim (lookup string_eq k got) [ none ↦ false | some w ↦ w == v ]

unfoldable pub covers : Labels → Labels → Bool
unfolding holds_entry
covers got [] = true
covers got ((k, v) ∷ expected) = holds_entry got k v && covers got expected

module _ (V : Values) where
  abbrev same_port : ServicePort V → ServicePort V → Bool
  same_port e p =
      (e.name == p.name)
      && nat_beq e.port p.port
      && V.int_or_string_eq.beq e.target_port p.target_port

  -- The loop over the expected ports, beside the ports of the service, which are as many.
  unfoldable pub same_ports : List (ServicePort V) → List (ServicePort V) → Bool
  same_ports [] ps = true
  same_ports (e ∷ es) [] = false
  same_ports (e ∷ es) (p ∷ ps) = same_port e p && same_ports es ps

  -- `MinioSvcMatchesSpecification`: `none` where the service matches.
  unfoldable pub minio_svc_matches_specification : Service V → Service V → Option Mismatch
  minio_svc_matches_specification svc expected =
      if not (covers svc.labels expected.labels)
      then some labels_differ
      else if not (covers svc.annotations expected.annotations)
      then some annotations_differ
      else if not (nat_beq (length svc.spec.ports) (length expected.spec.ports))
      then some ports_differ
      else if not (same_ports expected.spec.ports svc.spec.ports)
      then some ports_differ
      else if not (V.deep_derivative expected.spec.selector svc.spec.selector)
      then some selectors_differ
      else if not (type_beq svc.spec.type expected.spec.type)
      then some type_differs
      else none
