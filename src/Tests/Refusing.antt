-- ===== src/Tests/Refusing.antt =====
-- A server in memory that refuses to create pods.
use minio_operator.Base.{items, some, [], ◌∷◌, ◌≡◌, refl}
use minio_operator.Base.Exec.{ok, failure}
use minio_operator.Api.Types.{Minio, DeployStatus, zero_minio}
use minio_operator.Cluster.{Cluster}
use minio_operator.StatusUpdate.{update_minio_status_with_retry}
use minio_operator.StatusUpdate.Server.{IsOptimistic}
use minio_operator.Revision.{
  new_controller_revision, exist_controller_revision, create_controller_revision,
}
use minio_operator.Revision.Laws.{KeepsRevisions, Records}
use minio_operator.Reconcile.Steps.{with_status}
use minio_operator.Reconcile.Plan.{add_pools}
use minio_operator.Reconcile.Plan.Changes.{same_spec}
use minio_operator.Reconcile.Services.Laws.{KeepsServices}
use minio_operator.Reconcile.Main.{initial_status, sync_revision, reconcile}
use minio_operator.Reconcile.Main.Recorded.{Before, sync_revision-Records}
use minio_operator.Reconcile.Main.Retried.{reconcile_never_retries}
use minio_operator.Tests.Data.{plain, resource}
use minio_operator.Tests.Server.{conflict, Kept, server, server-IsOptimistic, stored_state}
use minio_operator.Tests.Services.{server-KeepsServices}
use minio_operator.Tests.Revisions.{server-KeepsRevisions}
use minio_operator.Tests.Whole.{complete, version_given}

abbrev refusing : Cluster plain
refusing = record server { create_pod = λ ns pod s. (failure conflict, s) }

abbrev refusing-IsOptimistic : IsOptimistic refusing
refusing-IsOptimistic = record {
  stored = server-IsOptimistic.stored;
  stored_key = server-IsOptimistic.stored_key;
  missing = server-IsOptimistic.missing;
  missing_not_found = server-IsOptimistic.missing_not_found;
  missing_not_conflict = server-IsOptimistic.missing_not_conflict;
  conflict = server-IsOptimistic.conflict;
  conflict_is_conflict = server-IsOptimistic.conflict_is_conflict;
  get_stored = server-IsOptimistic.get_stored;
  update_missing = server-IsOptimistic.update_missing;
  update_stale = server-IsOptimistic.update_stale;
  write = server-IsOptimistic.write;
  version_after = server-IsOptimistic.version_after;
  update_fresh = server-IsOptimistic.update_fresh;
  stored_write = server-IsOptimistic.stored_write;
  version_changes = server-IsOptimistic.version_changes;
}

abbrev refusing-KeepsServices : KeepsServices refusing
refusing-KeepsServices = record {
  service = server-KeepsServices.service;
  get_value = server-KeepsServices.get_value;
  get_some = server-KeepsServices.get_some;
  create_value = server-KeepsServices.create_value;
  update_value = server-KeepsServices.update_value;
  event_services = server-KeepsServices.event_services;
}

refusing-KeepsRevisions : KeepsRevisions refusing
refusing-KeepsRevisions = record {
  revision = server-KeepsRevisions.revision;
  get_value = server-KeepsRevisions.get_value;
  get_missing = server-KeepsRevisions.get_missing;
  get_some = server-KeepsRevisions.get_some;
  create_value = server-KeepsRevisions.create_value;
  reference = server-KeepsRevisions.reference;
  get_minio = server-KeepsRevisions.get_minio;
  update_minio_status = server-KeepsRevisions.update_minio_status;
  list_claims = server-KeepsRevisions.list_claims;
  create_claim = server-KeepsRevisions.create_claim;
  get_service = server-KeepsRevisions.get_service;
  create_service = server-KeepsRevisions.create_service;
  update_service = server-KeepsRevisions.update_service;
  create_pod = λ _ _ _. refl;
  update_pod = server-KeepsRevisions.update_pod;
  event = server-KeepsRevisions.event;
}

-- The resource behind its first status update.
abbrev begun : Minio plain
begun = with_status resource DeployStatus.nothing

abbrev before : Kept
before = record stored_state { minio = some (record begun { resource_version = "51" }) }

abbrev after : Kept
after = record before {
  revision = some (record {
    name = "store";
    namespace = "apps";
    raw = resource.spec;
    owner_references = "u1" ∷ [];
  });
}

first_status : initial_status refusing 2 complete resource stored_state ≡ (ok begun, before)
unfolding initial_status update_minio_status_with_retry
first_status = refl

first_revision : sync_revision refusing 2 complete begun before ≡ (ok (zero_minio plain), after)
unfolding sync_revision exist_controller_revision create_controller_revision new_controller_revision
first_revision = refl

reconcile_never_retries_example :
    let t = (reconcile refusing 2 complete "apps" "store" stored_state).1 in
    (sync_revision refusing 2 complete begun t ≡ (ok (same_spec begun), t))
    × (add_pools (items (same_spec begun).spec.pools) (items begun.spec.pools) ≡ [])
reconcile_never_retries_example =
    reconcile_never_retries refusing refusing-KeepsRevisions refusing-IsOptimistic
      refusing-KeepsServices 0 complete resource begun (zero_minio plain) "apps" "store"
      stored_state before after begun refl refl version_given refl first_status first_revision
      (refl, refl, refl)

sync_revision-Records_example :
    Records refusing refusing-KeepsRevisions after "apps" "store" resource.spec
    × Before refusing refusing-KeepsRevisions 2 complete before "apps" "store" (zero_minio plain)
sync_revision-Records_example =
    sync_revision-Records refusing refusing-KeepsRevisions 2 complete begun (zero_minio plain)
      before after first_revision
