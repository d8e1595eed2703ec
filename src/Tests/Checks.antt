-- ===== src/Tests/Checks.antt =====
-- Checks of services on the server in memory.
use minio_operator.Base.{ℕ, true, some, none, ◌≡◌, ◌≢◌, refl, arith, [], ◌∷◌}
use minio_operator.Base.Exec.{ok, value}
use minio_operator.Api.Types.{DeployStatus}
use minio_operator.Service.{
  new_service_for_minio, new_console_service_for_minio, new_headless_service_for_minio, covers,
  same_ports, holds_entry, minio_svc_matches_specification,
}
use minio_operator.Api.Helper.{
  minio_ci_service_name, minio_hl_service_name, minio_console_service_name,
}
use minio_operator.Api.Objects.{Service}
use minio_operator.Reconcile.Services.Headless.{port_numbers, headless_overwritten}
use minio_operator.StatusUpdate.{update_minio_status_with_retry}
use minio_operator.Reconcile.Steps.{MinioReconciler, with_status}
use minio_operator.Reconcile.Services.{
  overwritten, check_service, minio_svc_check, create_checked, update_checked, check_minio_svc,
  check_console_svc, check_minio_hl_svc, console_svc_check, minio_hl_svc_check,
}
use minio_operator.Reconcile.Services.Laws.{Installed}
use minio_operator.Reconcile.Services.Installed.{check_minio_svc-Installed}
use minio_operator.Tests.Data.{plain, plain-IsDeepDerivative, resource, running_status}
use minio_operator.Tests.Server.{Kept, server, stored_state}
use minio_operator.Tests.Services.{server-KeepsServices}

abbrev complete : MinioReconciler
complete = record { kube_client = true; recorder = true }

-- The state after the first check.
abbrev checked_state : Kept
checked_state = record {
  minio = some (record resource { resource_version = "51"; status = running_status });
  revision = none;
  service = ("apps", new_service_for_minio resource) ∷ [];
  claims = [];
  events = 0;
  pods = [];
}

first_check :
    check_minio_svc server 2 complete resource stored_state
    ≡ (ok (with_status resource DeployStatus.running), checked_state)
unfolding check_minio_svc check_service minio_svc_check create_checked update_checked
    update_minio_status_with_retry new_service_for_minio minio_svc_matches_specification covers
    same_ports holds_entry
first_check = refl

port_given : ◌≢◌ {A = ℕ} 9000 0
port_given e = omega arith

abbrev console_state : Kept
console_state = record checked_state {
  service = ("apps", new_console_service_for_minio resource) ∷ [];
}

check_minio_svc-Installed_example :
    Installed server server-KeepsServices checked_state "apps" "store"
      (new_service_for_minio resource)
unfolding minio_ci_service_name
check_minio_svc-Installed_example =
    check_minio_svc-Installed server server-KeepsServices 2 complete resource
      (with_status resource DeployStatus.running) stored_state checked_state port_given
      plain-IsDeepDerivative first_check

-- The headless service that the operator has created, as a server completes it: the target port is
-- the port, and the service has an address and a node port.
abbrev headless : Service plain
headless = record (new_headless_service_for_minio resource) {
  spec = record (new_headless_service_for_minio resource).spec {
    ports = record { name = "http"; port = 9000; target_port = 9000; node_port = 0 } ∷ [];
  };
}

abbrev headless_state : Kept
headless_state = record stored_state { service = ("apps", headless) ∷ [] }

-- The headless service after a check.
abbrev replaced : Service plain
replaced = overwritten headless (new_console_service_for_minio resource)

abbrev replaced_state : Kept
replaced_state = record headless_state { service = ("apps", replaced) ∷ headless_state.service }

headless_found :
    server.get_service "apps" (minio_hl_service_name resource) headless_state
    ≡ (value headless, headless_state)
unfolding new_headless_service_for_minio minio_hl_service_name
headless_found = refl

headless_port : port_numbers headless ≡ port_numbers (new_headless_service_for_minio resource)
unfolding new_headless_service_for_minio
headless_port = refl

headless_overwritten_example : check_minio_hl_svc server 2 complete resource headless_state ≡ (
  ok resource,
  server.event resource "Normal" "SvcUpdated" "MinIO Headless Service Updated" replaced_state,
)
headless_overwritten_example =
    headless_overwritten server 2 complete resource headless_state headless_state replaced_state
      headless replaced refl refl headless_found headless_port refl

headless_checked : check_minio_hl_svc server 2 complete resource headless_state ≡ (
  ok resource,
  server.event resource "Normal" "SvcUpdated" "MinIO Headless Service Updated" replaced_state,
)
unfolding check_minio_hl_svc check_service minio_hl_svc_check update_checked
    new_console_service_for_minio new_headless_service_for_minio minio_svc_matches_specification
    covers same_ports holds_entry minio_hl_service_name
headless_checked = refl

first_console_check :
    check_console_svc server 2 complete resource stored_state
    ≡ (ok (with_status resource DeployStatus.running), console_state)
unfolding check_console_svc check_service console_svc_check create_checked update_checked
    update_minio_status_with_retry new_console_service_for_minio minio_svc_matches_specification
    covers same_ports holds_entry minio_console_service_name
first_console_check = refl
