-- ===== src/Reconcile/Plan.antt =====
-- Which pools `Reconcile` adds and which it updates.
pub mod Changes
use minio_operator.Base.{
  items, Bool, true, false, ◌&&◌, Option, none, some, List, [], ◌∷◌, ◌++◌, any, ◌==◌, if◌then◌else◌,
}
use minio_operator.Base.Partial.{◌>>=◌}
use minio_operator.Api.Values.{Values}
use minio_operator.Api.Objects.{Pod}
use minio_operator.Api.Types.{Pool, Minio}
use minio_operator.Pods.{minio_server_need_to_update, new_pods_for_minio_pool}

module _ {V : Values} where
  -- Is there a pool of that name?
  abbrev pub named : List (Pool V) → Pool V → Bool
  named pools pool = any (λ p. pool.name == p.name) pools

  -- The loop over the new pools that sets `addPools`.
  unfoldable pub add_pools : List (Pool V) → List (Pool V) → List (Pool V)
  add_pools old [] = []
  add_pools old (new_pool ∷ pools) =
      let rest = add_pools old pools in if named old new_pool then rest else new_pool ∷ rest

  -- The inner loop of the one that sets `updatePools`.
  abbrev pub wants_update : Minio V → Minio V → Pool V → Bool
  wants_update old_minio minio old_pool =
      any
        (λ new_pool.
          (new_pool.name == old_pool.name)
          && minio_server_need_to_update old_minio minio old_pool new_pool)
        (items minio.spec.pools)

  -- The loop over the old pools that sets `updatePools`.
  unfoldable pub update_pools : Minio V → Minio V → List (Pool V) → List (Pool V)
  update_pools old_minio minio [] = []
  update_pools old_minio minio (old_pool ∷ pools) =
      let rest = update_pools old_minio minio pools in
      if wants_update old_minio minio old_pool then old_pool ∷ rest else rest

  -- The loops that set `addPods` and `updatePods`.
  unfoldable pub pods_of : Minio V → List (Pool V) → Option (List (Pod V))
  unfolding new_pods_for_minio_pool
  pods_of minio [] = some []
  pods_of minio (pool ∷ pools) = new_pods_for_minio_pool minio pool >>= λ pods.
      pods_of minio pools >>= λ rest. some (pods ++ rest)
