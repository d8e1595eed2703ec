-- ===== src/Tests/Pools.antt =====
-- The pods and claims of a concrete pool.
use mathlib.Core.Option
use mathlib.Core.List.{flat_map}
use minio_operator.Base.{
  ℕ, false, Option, none, some, List, [], map, All, length, get_elem?, ◌≡◌, ◌↔◌, refl,
}
use minio_operator.Base.Decimal.{itoa}
use minio_operator.Base.Partial.{for_range}
use minio_operator.Api.Objects.{Pod, Claim}
use minio_operator.Api.Types.{ClaimTemplate, Pool, Minio}
use minio_operator.Pods.{
  new_pods_for_minio_pool, new_pod, pod_volumes, pod_volume, pod_volume_mounts, pod_volume_mount,
  minio_server_need_to_update,
}
use minio_operator.Pods.Mounts.{BelongsTo, new_pods_for_minio_pool-BelongsTo}
use minio_operator.Pods.Names.{pods-name_iff}
use minio_operator.Pods.Update.{NothingToDo, minio_server_need_to_update_iff}
use minio_operator.Claims.{claim_name, new_persistent_volume_claim_for_minio_pool}
use minio_operator.Claims.OfPods.{mounted_claims, mounted_claims-claims}
use minio_operator.Claims.Names.{claim_names_clash}
use minio_operator.Tests.Data.{plain, template, pool, resource}

-- Some pods, where the list has an element.
abbrev or_empty : {A : Type 0} → Option (List A) → List A
or_empty none = []
or_empty (some xs) = xs

abbrev pods : List (Pod plain)
pods = or_empty (new_pods_for_minio_pool resource pool)

pods_given : new_pods_for_minio_pool resource pool ≡ some pods
unfolding new_pods_for_minio_pool new_pod pod_volumes pod_volume pod_volume_mounts pod_volume_mount
    for_range
pods_given = refl

new_pods_for_minio_pool-BelongsTo_example : (length pods ≡ 2) × All (BelongsTo resource pool) pods
new_pods_for_minio_pool-BelongsTo_example =
    new_pods_for_minio_pool-BelongsTo resource pool pods_given

mounted_claims-claims_example :
    Option.map (flat_map mounted_claims) (new_pods_for_minio_pool resource pool)
    ≡ Option.map
        (map (λ (c : Claim plain). c.name))
        (new_persistent_volume_claim_for_minio_pool resource pool)
mounted_claims-claims_example = mounted_claims-claims resource pool

-- The pods of a pool, and those of a pool of the same name of another resource.
abbrev other_resource : Minio plain
other_resource = record resource { name = "other" }

abbrev other_pods : List (Pod plain)
other_pods = or_empty (new_pods_for_minio_pool other_resource pool)

other_pods_given : new_pods_for_minio_pool other_resource pool ≡ some other_pods
unfolding new_pods_for_minio_pool new_pod pod_volumes pod_volume pod_volume_mounts pod_volume_mount
    for_range
other_pods_given = refl

second_pod : (pod : Pod plain) × (get_elem? pods 1 ≡ some pod)
unfolding new_pods_for_minio_pool new_pod pod_volumes pod_volume pod_volume_mounts pod_volume_mount
    for_range
second_pod = (_, refl)

second_other_pod : (pod : Pod plain) × (get_elem? other_pods 1 ≡ some pod)
unfolding new_pods_for_minio_pool new_pod pod_volumes pod_volume pod_volume_mounts pod_volume_mount
    for_range
second_other_pod = (_, refl)

pods-name_iff_example :
    ((second_pod.0).name ≡ (second_other_pod.0).name)
    ↔ ((pool.name ≡ pool.name) × (◌≡◌ {A = ℕ} 1 1))
pods-name_iff_example =
    pods-name_iff resource other_resource pool pool pods other_pods 1 1 second_pod.0
      second_other_pod.0 pods_given other_pods_given second_pod.1 second_other_pod.1

-- A pool called like server 0 of `pool`, with a template whose name fills the gap.
abbrev other_pool : Pool plain
other_pool = record pool { name = "pool-0" }

abbrev numbered_template : ClaimTemplate plain
numbered_template = record template { name = "1-data" }

claim_names_clash_example :
    claim_name resource pool numbered_template 0 0 ≡ claim_name resource other_pool template 1 0
unfolding itoa
claim_names_clash_example =
    claim_names_clash resource pool other_pool numbered_template template 1 0 0 refl refl

abbrev moved_pool : Pool plain
moved_pool = record pool { node_selector = 8 }

minio_server_need_to_update_iff_example :
    (minio_server_need_to_update resource resource pool moved_pool ≡ false)
    ↔ NothingToDo resource resource pool moved_pool
minio_server_need_to_update_iff_example =
    minio_server_need_to_update_iff resource resource pool moved_pool
