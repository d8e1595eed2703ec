-- ===== src/Tests/Listed.antt =====
-- A cluster of one node, whose lists show the services of the server in memory.
use mathlib.Core.Option
use minio_operator.Base.{true, not, some, List, [], ◌∷◌, ◌++◌, map, ◌≡◌, refl, inl, inr}
use minio_operator.Base.Exec.{ok, panic, value}
use minio_operator.Api.Objects.{node_port, Service}
use minio_operator.Api.Helper.{minio_ci_service_name, minio_console_service_name}
use minio_operator.Service.{new_service_for_minio}
use minio_operator.Health.{is_completed}
use minio_operator.Report.Inventory.{ClaimSeen, Node, Inventory}
use minio_operator.Base.Decimal.{itoa}
use minio_operator.Report.Addresses.{internal_ip, first_node_ip, service_addresses}
use minio_operator.Report.Located.{
  IsReportable, latest, service_addresses-latest, service_addresses_panics,
}
use minio_operator.Report.Run.{no_addresses, reconcile_status}
use minio_operator.Report.Refines.{Observes, status_called_for, reconcile_status_stores}
use minio_operator.Tests.Data.{plain, resource}
use minio_operator.Tests.Server.{Kept, server, server-IsOptimistic, stored_state}
use minio_operator.Tests.Reports.{seen}

abbrev nodes : List Node
nodes =
    record {
      addresses =
          record { type = "Hostname"; address = "worker" }
          ∷ record { type = internal_ip; address = "10.0.0.1" }
          ∷ [];
    }
    ∷ []

abbrev claim : ClaimSeen
claim = record {
  name = "store-pool-0-data-0";
  capacity = "10Gi";
  phase = "Bound";
  volume_name = "pv-1";
  storage_class_name = some "fast";
}

abbrev services_in : Kept → List (Service plain)
services_in s = map (λ p. p.1) s.service

abbrev pub inventory : Inventory server
inventory = record {
  list_pvcs = λ ns labels s. (value (claim ∷ []), s);
  list_services = λ ns labels s. (value (services_in s), s);
  list_pods = λ ns labels s. (value seen, s);
  list_nodes = λ s. (value nodes, s);
  is_ipv4 = λ address. true;
}

abbrev pub inventory-Observes : Observes server inventory
inventory-Observes = record {
  claims = λ s ns labels. claim ∷ [];
  services = λ s ns labels. services_in s;
  pods = λ s ns labels. seen;
  nodes = λ s. nodes;
  lists_claims = λ s ns labels. refl;
  lists_services = λ s ns labels. refl;
  lists_pods = λ s ns labels. refl;
  lists_nodes = λ s. refl;
}

-- The service of the resource, as the operator builds it.
abbrev service : Service plain
service = new_service_for_minio resource

abbrev with_ports : Service plain
with_ports = record service {
  spec = record service.spec {
    type = node_port;
    ports = record { name = "http"; port = 80; target_port = 9000; node_port = 30080 } ∷ [];
  };
}

abbrev broken : Service plain
broken = record with_ports { spec = record with_ports.spec { ports = [] } }

with_ports-IsReportable : IsReportable with_ports
with_ports-IsReportable = inr (λ e. cc)

abbrev serving : Kept
serving = record stored_state { service = ("apps", with_ports) ∷ [] }

service_addresses-latest_example :
    service_addresses server inventory true resource no_addresses (with_ports ∷ []) serving ≡ (
      ok (record {
        minio = latest "10.0.0.1" (minio_ci_service_name resource) "" (with_ports ∷ []);
        console = latest "10.0.0.1" (minio_console_service_name resource) "" (with_ports ∷ []);
      }),
      serving,
    )
unfolding itoa first_node_ip
service_addresses-latest_example =
    service_addresses-latest server inventory nodes serving refl resource no_addresses
      (with_ports ∷ []) (with_ports-IsReportable, tt)

named_so : broken.name ≡ minio_ci_service_name resource
unfolding new_service_for_minio minio_ci_service_name
named_so = refl

service_addresses_panics_example :
    service_addresses server inventory true resource no_addresses
      ((with_ports ∷ []) ++ broken ∷ [])
      serving
    ≡ (panic, serving)
service_addresses_panics_example =
    service_addresses_panics server inventory nodes serving refl resource no_addresses
      (with_ports ∷ []) [] broken (with_ports-IsReportable, tt) (inl named_so) (λ e. cc) refl

reconcile_status_stores_example :
    let r = reconcile_status server inventory true 1 "apps" "store" serving in
    let status = status_called_for server inventory inventory-Observes serving resource in
    (r.0 ≡ ok (not (is_completed status.status)))
    × (Option.map (λ x. x.status) (server-IsOptimistic.stored r.1 "apps" "store") ≡ some status)
reconcile_status_stores_example =
    reconcile_status_stores server inventory inventory-Observes server-IsOptimistic 0 serving
      resource refl (with_ports-IsReportable, tt) (λ e. cc) (λ e. cc) ((λ e. cc), tt)
