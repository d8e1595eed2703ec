-- ===== src/Tests/Operating.antt =====
-- The operator as a whole on the server in memory.
use Prim.Native.String.{count}
use text.Mathlib.TextLemmas.{length-append}
use minio_operator.Base.{
  [], ◌∷◌, String, ◌<>◌, true, ◌==◌, Option, none, some, Bool-cases, inl, inr, ◌≡◌, ◌≢◌, refl, ap,
  arith, eq_refl,
}
use minio_operator.Api.Types.{Minio, MinioStatus}
use minio_operator.Reconcile.Steps.Keeps.{HasVersion}
use minio_operator.Reconcile.Main.{reconcile}
use minio_operator.Report.Run.{reconcile_status}
use minio_operator.Health.{reconcile_health}
use minio_operator.Operator.{Reach, minio_run, status_run, health_run, here, next}
use minio_operator.Operator.Laws.{KeepsResources}
use minio_operator.Base.Exec.{ok}
use minio_operator.StatusUpdate.{update_minio_status_with_retry}
use minio_operator.Operator.Reached.{reach-service}
use minio_operator.Operator.Contended.{contended, contended_update_succeeds}
use minio_operator.Operator.Clash.{reconcile_undoes}
use minio_operator.Api.Helper.{minio_ci_service_name, minio_console_service_name}
use minio_operator.Service.{new_console_service_for_minio}
use minio_operator.Reconcile.Services.Laws.{Installed}
use minio_operator.Tests.Succeeding.{twin, twin_state, twin_run, twin_succeeds}
use minio_operator.Tests.Data.{plain, plain-IsDeepDerivative, resource, running_status}
use minio_operator.Tests.Server.{
  Kept, server, server-IsOptimistic, stored_state, found_minio, found_service, status_written,
  written, found-eq-some,
}
use minio_operator.Tests.Listed.{inventory, inventory-Observes}
use minio_operator.Tests.Whole.{
  complete, version_given, minio_port_given, console_port_given, bare, bare_state, at, recorded,
  four_services, succeeded,
}
use minio_operator.Tests.Services.{server-KeepsServices, server-KeepsOthers}

module _ (m : Minio plain) (s : Kept) (ns name : String) (c : Minio plain) where
  abbrev StoredAfter : Kept → Type 0
  StoredAfter t =
      (st : MinioStatus) × (v : String) × (v ≢ "")
      × (found_minio t.minio ns name ≡ some (record c { resource_version = v; status = st }))

  longer_given : (v : String) → v <> "1" ≢ ""
  longer_given v e = omega (arith, length-append v "1", ap count e)

  after_write :
      found_minio s.minio ns name ≡ some c → StoredAfter (record s { minio = written s.minio m })
  after_write h =
      let (p, a, b) = found-eq-some s.minio ns name c h in
      (
        m.status,
        c.resource_version <> "1",
        longer_given c.resource_version,
        rw p (rw (a, b) (rw (eq_refl ns, eq_refl name) refl)),
      )

  update_kept :
      (o : Option (Minio plain))
      → found_minio s.minio ns name ≡ some c
      → HasVersion c
      → StoredAfter (status_written o m s).1
  update_kept none h w = (c.status, c.resource_version, w, h)
  update_kept (some d) h w = elim (Bool-cases (m.resource_version == d.resource_version)) [
    | inl e ↦ rw e (after_write h)
    | inr e ↦ rw e (c.status, c.resource_version, w, h)
  ]

server-KeepsResources : KeepsResources server server-IsOptimistic
server-KeepsResources = record {
  update_minio_status =
      λ m s ns name c h w. update_kept m s ns name c (found_minio s.minio m.namespace m.name) h w;
  get_minio = λ _ _ _. refl;
  get_revision = λ _ _ _. refl;
  create_revision = λ _ _. refl;
  delete_revision = λ _ _. refl;
  list_claims = λ _ _ _. refl;
  create_claim = λ _ _. refl;
  get_service = λ _ _ _. refl;
  create_service = λ _ _ _. refl;
  update_service = λ _ _ _. refl;
  create_pod = λ _ _ _. refl;
  update_pod = λ _ _ _. refl;
  event = λ _ _ _ _ _. refl;
}

-- The server after a `Reconcile` that succeeded, and three runs after that.
abbrev after_success : Kept
after_success = at "5111111" recorded four_services

abbrev after_minio_run : Kept
after_minio_run = (reconcile server 2 complete "apps" "store" after_success).1

abbrev after_status_run : Kept
after_status_run = (reconcile_status server inventory true 1 "apps" "store" after_minio_run).1

abbrev after_health_run : Kept
after_health_run = (reconcile_health server (λ _ _. true) 1 "apps" "other" after_status_run).1

abbrev three_runs :
    Reach server inventory (λ _ _. true) "apps" "store" after_success after_health_run
three_runs =
    next (next (next here (minio_run complete 0 refl)) (status_run true 1 "apps" "store" refl))
      (health_run 1 "apps" "other" refl)

reach-service_example : found_service after_health_run.service ≡ found_service four_services
reach-service_example =
    reach-service server server-IsOptimistic server-KeepsServices server-KeepsOthers
      server-KeepsResources inventory inventory-Observes (λ _ _. true) 0 complete bare "apps"
      "store" bare_state after_success after_health_run refl version_given refl
      plain-IsDeepDerivative minio_port_given console_port_given succeeded three_runs

-- Another client writes a status twice.
contended_update_succeeds_example :
    let script = record resource { status = running_status } ∷ resource ∷ [] in
    (update_minio_status_with_retry (contended server) 4 resource true (stored_state, script)).0
    ≡ ok tt
contended_update_succeeds_example =
    contended_update_succeeds server server-IsOptimistic server-KeepsResources
      (record resource { status = running_status } ∷ resource ∷ []) stored_state resource resource
      refl version_given version_given

-- A resource called like the console service of another has been reconciled.
reconcile_undoes_example :
    ¬ Installed server server-KeepsServices twin_run "apps"
      (minio_console_service_name resource)
      (new_console_service_for_minio resource)
unfolding minio_console_service_name minio_ci_service_name
reconcile_undoes_example =
    reconcile_undoes server server-IsOptimistic server-KeepsServices server-KeepsOthers 0 complete
      resource twin "apps" "storeconsole" twin_state twin_run refl version_given refl
      plain-IsDeepDerivative minio_port_given console_port_given refl refl twin_succeeds
