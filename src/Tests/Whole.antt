-- ===== src/Tests/Whole.antt =====
-- A whole `Reconcile` on the server in memory.
use minio_operator.Base.{ℕ, String, true, ◌≡◌, ◌≢◌, refl, ◌∙◌, arith, eq_iff}
use minio_operator.Base.Exec.{ok, unfinished, >>=-ok}
use minio_operator.Api.Helper.{
  minio_ci_service_name, minio_hl_service_name, minio_console_service_name,
}
use minio_operator.Service.{
  new_service_for_minio, new_console_service_for_minio, new_headless_service_for_minio, covers,
  same_ports, holds_entry, minio_svc_matches_specification,
}
use minio_operator.StatusUpdate.{update_minio_status_with_retry}
use minio_operator.Reconcile.Services.Laws.{Installed}
use minio_operator.Base.{Option, none, some, List, [], ◌∷◌}
use minio_operator.Api.Objects.{Service}
use minio_operator.Api.Types.{Minio, MinioSpec, DeployStatus, zero_minio}
use minio_operator.Cluster.{Revision}
use minio_operator.Revision.{
  new_controller_revision, exist_controller_revision, create_controller_revision,
}
use minio_operator.Reconcile.Steps.{with_status, update_status}
use minio_operator.Reconcile.Plan.{add_pools, update_pools, pods_of}
use minio_operator.Reconcile.Services.{
  check_service, minio_svc_check, create_checked, update_checked, check_minio_svc,
  check_console_svc, check_minio_hl_svc, console_svc_check, minio_hl_svc_check,
}
use minio_operator.Reconcile.Volumes.{claims_of, create_claims, check_pvc}
use minio_operator.Reconcile.Main.{
  initial_status, sync_revision, each_pod, sync_pods, sync_resources, reconcile,
}
use minio_operator.Reconcile.Main.Outcomes.{reconcile_live_lem}
use minio_operator.Reconcile.Main.Ends.{reconcile_ends}
use minio_operator.Reconcile.Main.Installed.{reconcile-Installed}
use minio_operator.Reconcile.Steps.{MinioReconciler}
use minio_operator.Tests.Data.{plain, plain-IsDeepDerivative, resource}
use minio_operator.Tests.Server.{Kept, server, server-IsOptimistic, stored_state}
use minio_operator.Tests.Services.{server-KeepsServices, server-KeepsOthers}

abbrev pub complete : MinioReconciler
complete = record { kube_client = true; recorder = true }

pub version_given : resource.resource_version ≢ ""
version_given e = ground (arith, eq_iff "5" "")

pub minio_port_given : ◌≢◌ {A = ℕ} 9000 0
minio_port_given e = omega arith

pub console_port_given : ◌≢◌ {A = ℕ} 9090 0
console_port_given e = omega arith

reconcile_ends_example : (reconcile server 2 complete "apps" "store" stored_state).0 ≢ unfinished
reconcile_ends_example =
    reconcile_ends server server-IsOptimistic server-KeepsServices 0 complete resource "apps"
      "store" stored_state refl version_given

-- A resource without pools.
abbrev pub bare : Minio plain
bare = record resource { spec = record resource.spec { pools = some [] } }

abbrev noted : Minio plain
noted = with_status bare DeployStatus.nothing

abbrev running : Minio plain
running = with_status bare DeployStatus.running

-- The server, with the stored version and the services that it holds.
abbrev pub at :
    String → Option (Revision plain (MinioSpec plain)) → List (String × Service plain) → Kept
at version revision services = record {
  minio = some (record noted { resource_version = version });
  revision = revision;
  service = services;
  claims = [];
  events = 0;
  pods = [];
}

abbrev pub bare_state : Kept
bare_state = record stored_state { minio = some bare }

abbrev pub recorded : Option (Revision plain (MinioSpec plain))
recorded =
    some
      (record { name = "store"; namespace = "apps"; raw = bare.spec; owner_references = "u1" ∷ [] })

abbrev one_service : List (String × Service plain)
one_service = ("apps", new_service_for_minio bare) ∷ []

abbrev two_services : List (String × Service plain)
two_services = ("apps", new_console_service_for_minio bare) ∷ one_service

-- The headless service, as it is created and as it is overwritten.
abbrev pub four_services : List (String × Service plain)
four_services =
    ("apps", record (new_console_service_for_minio bare) { name = minio_hl_service_name bare })
    ∷ ("apps", new_headless_service_for_minio bare)
    ∷ two_services

first_status : initial_status server 2 complete bare bare_state ≡ (ok noted, at "51" none [])
unfolding initial_status update_minio_status_with_retry
first_status = refl

first_revision :
    sync_revision server 2 complete noted (at "51" none [])
    ≡ (ok (zero_minio plain), at "51" recorded [])
unfolding sync_revision exist_controller_revision create_controller_revision new_controller_revision
first_revision = refl

minio_checked :
    check_minio_svc server 2 complete noted (at "51" recorded [])
    ≡ (ok running, at "511" recorded one_service)
unfolding check_minio_svc check_service minio_svc_check create_checked update_checked
    update_minio_status_with_retry new_service_for_minio minio_svc_matches_specification covers
    same_ports holds_entry minio_ci_service_name
minio_checked = refl

console_checked :
    check_console_svc server 2 complete running (at "511" recorded one_service)
    ≡ (ok running, at "5111" recorded two_services)
unfolding check_console_svc check_service console_svc_check create_checked update_checked
    update_minio_status_with_retry new_service_for_minio new_console_service_for_minio
    minio_svc_matches_specification covers same_ports holds_entry minio_ci_service_name
    minio_console_service_name
console_checked = refl

headless_checked :
    check_minio_hl_svc server 2 complete running (at "5111" recorded two_services)
    ≡ (ok running, at "51111" recorded four_services)
unfolding check_minio_hl_svc check_service minio_hl_svc_check create_checked update_checked
    update_minio_status_with_retry new_service_for_minio new_console_service_for_minio
    new_headless_service_for_minio minio_svc_matches_specification covers same_ports holds_entry
    minio_ci_service_name minio_console_service_name minio_hl_service_name
headless_checked = refl

claims_checked :
    check_pvc server 2 complete running (at "51111" recorded four_services)
    ≡ (ok running, at "511111" recorded four_services)
unfolding check_pvc update_minio_status_with_retry claims_of create_claims
claims_checked = refl

pods_synced :
    sync_pods server 2 complete (zero_minio plain) running (at "511111" recorded four_services)
    ≡ (ok tt, at "511111" recorded four_services)
unfolding sync_pods add_pools update_pools pods_of each_pod
pods_synced = refl

last_status :
    update_minio_status_with_retry server 2 running true (at "511111" recorded four_services)
    ≡ (ok tt, at "5111111" recorded four_services)
unfolding update_minio_status_with_retry
last_status = refl

synced :
    sync_resources server 2 complete (zero_minio plain) noted (at "51" recorded [])
    ≡ (ok tt, at "5111111" recorded four_services)
unfolding sync_resources
synced = >>=-ok (check_minio_svc server 2 complete noted) _ minio_checked (
    >>=-ok (check_console_svc server 2 complete running) _ console_checked (
      >>=-ok (check_minio_hl_svc server 2 complete running) _ headless_checked (
        >>=-ok (check_pvc server 2 complete running) _ claims_checked (
          >>=-ok (sync_pods server 2 complete (zero_minio plain) running)
            (λ _. update_status server 2 running) pods_synced last_status))))

pub succeeded :
    reconcile server 2 complete "apps" "store" bare_state
    ≡ (ok tt, at "5111111" recorded four_services)
succeeded =
    reconcile_live_lem server 2 complete bare "apps" "store" bare_state bare_state refl refl
    ∙ >>=-ok (initial_status server 2 complete bare) _ first_status
        (>>=-ok (sync_revision server 2 complete noted) _ first_revision synced)

reconcile-Installed_example :
    let s = at "5111111" recorded four_services in
    Installed server server-KeepsServices s "apps"
      (minio_ci_service_name bare)
      (new_service_for_minio bare)
    × Installed server server-KeepsServices s "apps"
        (minio_console_service_name bare)
        (new_console_service_for_minio bare)
    × Installed server server-KeepsServices s "apps"
        (minio_hl_service_name bare)
        (new_console_service_for_minio bare)
reconcile-Installed_example =
    reconcile-Installed server server-IsOptimistic server-KeepsServices server-KeepsOthers 0
      complete bare "apps" "store" bare_state (at "5111111" recorded four_services) refl
      version_given refl plain-IsDeepDerivative minio_port_given console_port_given succeeded
