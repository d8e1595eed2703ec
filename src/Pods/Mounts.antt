-- ===== src/Pods/Mounts.antt =====
-- What holds of every pod that `NewPodsForMinIOPool` returns.
use mathlib.Core.Option
use mathlib.Core.Path.{fun_ext, subst}
use minio_operator.Base.{
  ℕ, ◌<>◌, some, List, [], ◌∷◌, map, ◌≡◌, true, refl, ap, sym, ◌∙◌, Bool-cases, inl, inr, All,
  length, arith,
}
use minio_operator.Base.Decimal.{itoa}
use minio_operator.Base.Dict.{lookup}
use minio_operator.Base.Equality.{string_eq}
use minio_operator.Base.Partial.{
  ◌>>=◌, >>=-eq-some, some_eq, for_range, for_range-All, length-for_range, map-for_range,
}
use minio_operator.Api.Constants.{minio_label, pool_label}
use minio_operator.Api.Values.{Values}
use minio_operator.Api.Objects.{Volume, VolumeMount, Container, Pod}
use minio_operator.Api.Types.{ℤ, pos, negsuc, pos_part, Pool, Minio}
use minio_operator.Api.Helper.{minio_hl_service_name}
use minio_operator.Pods.{
  mount_path, is_one, pod_volume, pod_volume_mount, pod_volumes, pod_volume_mounts, new_pod,
  new_pods_for_minio_pool,
}

-- The volume mounts of the pod's containers name the pod's volumes, in order.
abbrev pub MountsVolumes : {V : Values} → Pod V → Type 0
MountsVolumes {V} pod =
    All
      (λ (c : Container V).
        map (λ (v : VolumeMount V). v.name) c.volume_mounts
        ≡ map (λ (v : Volume V). v.name) pod.volumes)
      pod.containers

-- A pod that belongs to the resource and to the pool, and finds itself in the headless service.
pub record BelongsTo {V : Values} (m : Minio V) (pool : Pool V) (pod : Pod V) : Type 0 where
  pub namespace : pod.namespace ≡ m.namespace
  pub minio_labelled : lookup string_eq minio_label pod.labels ≡ some m.name
  pub pool_labelled : lookup string_eq pool_label pod.labels ≡ some pool.name
  pub hostname : pod.hostname ≡ pod.name
  pub subdomain : pod.subdomain ≡ minio_hl_service_name m
  pub mounts_volumes : MountsVolumes pod

module _ {V : Values} (m : Minio V) (pool : Pool V) where
  names_of_loops :
      (n : ℕ) (i : ℕ)
      → Option.map (map (λ (v : Volume V). v.name)) (for_range n 0 (pod_volume m pool i))
        ≡ Option.map (map (λ (v : VolumeMount V). v.name)) (for_range n 0 (pod_volume_mount m pool))
  unfolding pod_volume pod_volume_mount
  names_of_loops n i =
      map-for_range (λ (v : Volume V). v.name) n 0 (pod_volume m pool i)
      ∙ ap (for_range n 0) (fun_ext λ j. ground arith)
      ∙ sym (map-for_range (λ (v : VolumeMount V). v.name) n 0 (pod_volume_mount m pool))

  is_one-pos_part : (n : ℤ) → is_one n ≡ true → pos_part n ≡ 1
  is_one-pos_part (pos n) e = ground arith
  is_one-pos_part (negsuc n) e = cc

  names_of_one :
      (i : ℕ)
      → Option.map (map (λ (v : Volume V). v.name)) (for_range 1 0 (pod_volume m pool i))
        ≡ Option.map (map (λ (v : VolumeMount V). v.name)) (
            pool.volume_claim_template >>= λ t.
            some (record { name = t.name <> itoa 0; mount_path = mount_path m } ∷ []))
  unfolding pod_volume for_range
  names_of_one i = ground arith

  names_of_volumes :
      (i : ℕ)
      → Option.map (map (λ (v : Volume V). v.name)) (pod_volumes m pool i)
        ≡ Option.map (map (λ (v : VolumeMount V). v.name)) (pod_volume_mounts m pool)
  unfolding pod_volumes pod_volume_mounts
  names_of_volumes i = elim (Bool-cases (is_one pool.volumes_per_server)) [
    | inl one ↦ rw (one, is_one-pos_part pool.volumes_per_server one) (names_of_one i)
    | inr many ↦ rw many (names_of_loops (pos_part pool.volumes_per_server) i)
  ]

  new_pod-BelongsTo : (i : ℕ) (pod : Pod V) → new_pod m pool i ≡ some pod → BelongsTo m pool pod
  unfolding new_pod
  new_pod-BelongsTo i pod e =
      let (vs, ev, e') = >>=-eq-some (pod_volumes m pool i) _ e in
      let (ms, em, e'') = >>=-eq-some (pod_volume_mounts m pool) _ e' in
      let n = rw (ev, em) at (names_of_volumes i) in
      subst (BelongsTo m pool) (some_eq e'') (record {
        namespace = refl;
        minio_labelled = refl;
        pool_labelled = refl;
        hostname = refl;
        subdomain = refl;
        mounts_volumes = (sym (some_eq n), tt);
      })

  -- Where it does not panic on a nil template, `NewPodsForMinIOPool` returns as many pods as the
  -- pool has servers. Each lies in the namespace of the resource, has the labels of the resource
  -- and of the pool, uses the headless service as its subdomain and its own name as its hostname,
  -- and mounts each of its volumes once, in order.
  pub new_pods_for_minio_pool-BelongsTo :
      {pods : List (Pod V)}
      → new_pods_for_minio_pool m pool ≡ some pods
      → (length pods ≡ pos_part pool.servers) × All (BelongsTo m pool) pods
  unfolding new_pods_for_minio_pool
  new_pods_for_minio_pool-BelongsTo e = (
    length-for_range (pos_part pool.servers) 0 (new_pod m pool) e,
    for_range-All (pos_part pool.servers) 0 (new_pod m pool) new_pod-BelongsTo e,
  )
