-- ===== src/Reconcile/Main.antt =====
-- `Reconcile` of the MinIO controller. Its result is always `ctrl.Result{}`, so only the error is kept.
pub mod Outcomes
pub mod Keeps
pub mod Tail
pub mod Begins
pub mod Ends
pub mod Same
pub mod Installed
pub mod Recorded
pub mod Retried
pub mod Created
pub mod Revisions
pub mod Added
pub mod Populated
use minio_operator.Base.{
  items, ℕ, String, Bool, true, false, not, Option, none, some, List, [], ◌∷◌, ◌<>◌, if◌then◌else◌,
}
use minio_operator.Base.Exec.{Exec, Reply, value, failure, call, pure, raise, ◌>>=◌, ◌>>◌}
use minio_operator.Api.Values.{Values}
use minio_operator.Api.Objects.{Pod}
use minio_operator.Api.Types.{Minio, MinioSpec, DeployStatus, zero_minio}
use minio_operator.Api.Types.Equal.{deep_equal_spec}
use minio_operator.Cluster.{Cluster, Revision}
use minio_operator.Revision.{
  new_controller_revision, exist_controller_revision, create_controller_revision,
  delete_controller_revision,
}
use minio_operator.Reconcile.Steps.{
  MinioReconciler, with_status, with_message, with_kube, update_status, or_panic,
}
use minio_operator.Reconcile.Plan.{add_pools, update_pools, pods_of}
use minio_operator.Reconcile.Services.{check_minio_svc, check_console_svc, check_minio_hl_svc}
use minio_operator.Reconcile.Volumes.{check_pvc}

abbrev is_unset : DeployStatus → Bool
is_unset DeployStatus.unset = true
is_unset _ = false

module _ {V : Values} (K : Cluster V) (fuel : ℕ) (r : MinioReconciler) where
  open K use {State, Error, Raw}

  -- A resource without a status gets the status `None`.
  unfoldable pub initial_status : Minio V → Exec State Error (Minio V)
  initial_status m =
      if is_unset m.status.status
      then update_status K fuel (with_status m DeployStatus.nothing)
        >>= (λ _. pure (with_status m DeployStatus.nothing))
      else pure m

  -- `oldMinio`, from the specification that the revision records.
  abbrev pub old_minio_of : MinioSpec V → Minio V
  old_minio_of spec = record (zero_minio V) { spec = spec }

  -- The revision that was found is replaced if it records another specification.
  unfoldable pub replace_revision :
      Minio V → Revision V Raw → MinioSpec V → Exec State Error (Minio V)
  unfolding delete_controller_revision create_controller_revision new_controller_revision
  replace_revision m cr spec =
      if not (deep_equal_spec V spec m.spec)
      then delete_controller_revision K cr >>= (λ _.
        create_controller_revision K m (new_controller_revision K m) >>= λ _.
        pure (old_minio_of spec))
      else pure (old_minio_of spec)

  abbrev pub compare_revision : Minio V → Option (Revision V Raw) → Exec State Error (Minio V)
  compare_revision m none =
      create_controller_revision K m (new_controller_revision K m) >>= λ _. pure (zero_minio V)
  compare_revision m (some cr) = elim (K.unmarshal cr.raw) [
    | failure e ↦ raise e
    | value spec ↦ replace_revision m cr spec
  ]

  -- The part on the ControllerRevision; it returns `oldMinio`.
  unfoldable pub sync_revision : Minio V → Exec State Error (Minio V)
  unfolding exist_controller_revision create_controller_revision new_controller_revision
      replace_revision
  sync_revision m =
      exist_controller_revision K m.name m.namespace >>= λ found. compare_revision m found

  -- One of the two loops over pods, with the call and the text of its failure.
  unfoldable pub each_pod :
      (String → Pod V → State → Reply Error (Pod V) × State)
      → String
      → Minio V
      → List (Pod V)
      → Exec State Error (Unit {0})
  each_pod op text m [] = pure tt
  each_pod op text m (pod ∷ pods) = with_kube K r (call (op m.namespace pod)) >>= λ reply.
      elim reply [
        | value _ ↦ each_pod op text m pods
        | failure e ↦
            update_status K fuel (with_message m DeployStatus.failed (text <> K.error_text e))
            >>= λ _. raise e
      ]

  -- From the pools that are new or changed to their pods.
  unfoldable pub sync_pods : Minio V → Minio V → Exec State Error (Unit {0})
  unfolding each_pod add_pools update_pools pods_of
  sync_pods old_minio m =
      or_panic K (pods_of m (add_pools (items old_minio.spec.pools) (items m.spec.pools)))
      >>= λ add_pods. each_pod K.create_pod "MinIO Pod Create Failed, " m add_pods >>= λ _.
          or_panic K (pods_of m (update_pools old_minio m (items old_minio.spec.pools)))
          >>= λ update_pods. each_pod K.update_pod "MinIO Pod Update Failed, " m update_pods

  -- `Reconcile` from the checks of the services on.
  unfoldable pub sync_resources : Minio V → Minio V → Exec State Error (Unit {0})
  unfolding sync_pods
  sync_resources old_minio m = check_minio_svc K fuel r m >>= λ m₁.
      check_console_svc K fuel r m₁ >>= λ m₂. check_minio_hl_svc K fuel r m₂ >>= λ m₃.
      check_pvc K fuel r m₃ >>= λ m₄.
      sync_pods old_minio m₄ >>= λ _. update_status K fuel (with_status m₄ DeployStatus.running)

  -- `Reconcile`, once the resource has been read; a resource that is being deleted is skipped.
  unfoldable pub reconcile_minio : Minio V → Exec State Error (Unit {0})
  unfolding initial_status sync_revision sync_resources
  reconcile_minio m =
      if m.deleting
      then pure tt
      else (initial_status m >>= λ m'.
          sync_revision m' >>= λ old_minio. sync_resources old_minio m')

  -- `Reconcile`. Of the errors of the first `Get` only NotFound is looked at; after any other the
  -- resource is the zero value.
  unfoldable pub reconcile : String → String → Exec State Error (Unit {0})
  unfolding reconcile_minio
  reconcile namespace name = call (K.get_minio namespace name) >>= λ reply. elim reply [
    | value m ↦ reconcile_minio m
    | failure e ↦ if K.is_not_found e then pure tt else reconcile_minio (zero_minio V)
  ]
