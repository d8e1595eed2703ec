-- ===== src/Reconcile/Volumes.antt =====
-- `checkPVC`: the claims of all pools are created where the resource has none.
pub mod Keeps
pub mod Tried
use minio_operator.Base.{items, ℕ, String, Option, none, some, List, [], ◌∷◌, ◌++◌}
use minio_operator.Base.Partial
use minio_operator.Base.Exec.{Exec, Reply, value, failure, call, must, pure, raise, ◌>>=◌}
use minio_operator.Api.Constants.{minio_label}
use minio_operator.Api.Values.{Values}
use minio_operator.Api.Objects.{Claim}
use minio_operator.Api.Types.{Pool, Minio, DeployStatus}
use minio_operator.Claims.{new_persistent_volume_claim_for_minio_pool}
use minio_operator.Cluster.{Cluster}
use minio_operator.Reconcile.Steps.{
  MinioReconciler, with_status, record_event, update_status, or_panic,
}

-- The loop that sets `allPvcs`.
unfoldable pub claims_of : {V : Values} → Minio V → List (Pool V) → Option (List (Claim V))
unfolding new_persistent_volume_claim_for_minio_pool
claims_of m [] = some []
claims_of m (pool ∷ pools) =
    Partial.◌>>=◌ (new_persistent_volume_claim_for_minio_pool m pool)
      λ pvcs. Partial.◌>>=◌ (claims_of m pools) λ rest. some (pvcs ++ rest)

module _ {V : Values} (K : Cluster V) (fuel : ℕ) (r : MinioReconciler) where
  open K use {State, Error}

  -- What follows the creation of one claim: a failure is recorded, and the loop goes on.
  abbrev pub after_claim : Minio V → Reply Error (Unit {0}) → Exec State Error (Unit {0})
  after_claim m (value _) = pure tt
  after_claim m (failure e) = record_event K r m "Warning" "CreatePVCFailed" "Create PVC Failed"

  -- The loop over `allPvcs`.
  unfoldable pub create_claims : Minio V → List (Claim V) → Exec State Error (Unit {0})
  create_claims m [] = pure tt
  create_claims m (pvc ∷ pvcs) =
      call (K.create_claim pvc) >>= λ reply. after_claim m reply >>= λ _. create_claims m pvcs

  abbrev pub if_none : Minio V → List K.ClaimItem → Exec State Error (Minio V)
  if_none m (_ ∷ _) = pure m
  if_none m [] =
      let running = with_status m DeployStatus.running in
      update_status K fuel running >>= λ _.
      or_panic K (claims_of running (items running.spec.pools)) >>= λ all_pvcs.
      create_claims running all_pvcs >>= λ _. pure running

  -- `checkPVC`
  unfoldable pub check_pvc : Minio V → Exec State Error (Minio V)
  unfolding create_claims claims_of
  check_pvc m = must (K.list_claims m.namespace (minio_label, m.name)) >>= λ items. if_none m items
