-- ===== src/Claims.antt =====
-- utils/pvc.go: the claims of a pool.
pub mod OfPods
pub mod Names
use minio_operator.Base.{ℕ, String, ◌<>◌, Option, none, some, List}
use minio_operator.Base.Decimal.{itoa}
use minio_operator.Base.Dict.{insert}
use minio_operator.Base.Equality.{string_eq}
use minio_operator.Base.Partial.{◌>>=◌, for_range, for_range_flat}
use minio_operator.Api.Constants.{pool_label}
use minio_operator.Api.Values.{Values}
use minio_operator.Api.Objects.{Claim}
use minio_operator.Api.Types.{pos_part, ClaimTemplate, Pool, Minio}
use minio_operator.Api.Helper.{minio_pod_labels}

module _ {V : Values} where
  -- The variable `name`: the names of the resource and of the pool, the index of the server, the
  -- name of the template and the index of the volume.
  unfoldable pub claim_name : Minio V → Pool V → ClaimTemplate V → ℕ → ℕ → String
  claim_name m pool t i j =
      m.name <> ("-" <> (pool.name <> ("-" <> (itoa i <> ("-" <> (t.name <> ("-" <> itoa j)))))))

  -- The body of the inner loop.
  unfoldable pub new_claim : Minio V → Pool V → ℕ → ℕ → Option (Claim V)
  unfolding claim_name minio_pod_labels
  new_claim m pool i j = pool.volume_claim_template >>= λ t. some (record {
    name = claim_name m pool t i j;
    namespace = m.namespace;
    labels = insert string_eq pool_label pool.name (minio_pod_labels m);
    resources = m.spec.resources;
    storage_class_name = t.storage_class_name;
  })

  -- `NewPersistentVolumeClaimForMinIOPool`: `none` where it dereferences a nil template.
  unfoldable pub new_persistent_volume_claim_for_minio_pool :
      Minio V → Pool V → Option (List (Claim V))
  unfolding new_claim
  new_persistent_volume_claim_for_minio_pool m pool =
      for_range_flat (pos_part pool.servers) 0
        λ i. for_range (pos_part pool.volumes_per_server) 0 (new_claim m pool i)
