-- ===== src/Claims/OfPods.antt =====
-- The claims that the pods of a pool mount are the claims that the operator creates for the pool.
use mathlib.Core.Option
use mathlib.Core.Path.{fun_ext}
use mathlib.Core.List.{flat_map}
use minio_operator.Base.{
  ◌<>◌, ℕ, zero, suc, String, Option, none, some, List, [], ◌∷◌, map, ◌≡◌, refl, ap, ◌∙◌, ◌⊎◌, inl,
  inr, sym, Bool-cases, arith,
}
use minio_operator.Base.Partial.{
  for_range, for_range_flat, range_map, for_range-some, map-for_range, flat_map-for_range,
  map-for_range_flat,
}
use minio_operator.Api.Values.{Values}
use minio_operator.Api.Objects.{Volume, VolumeMount, Pod, Claim}
use minio_operator.Api.Types.{ℤ, pos, negsuc, pos_part, ClaimTemplate, Pool, Minio}
use minio_operator.Base.Decimal.{itoa}
use minio_operator.Pods.{
  mount_path, is_one, pod_volumes, pod_volume_mounts, new_pod, new_pods_for_minio_pool,
}
use minio_operator.Claims.{new_claim, new_persistent_volume_claim_for_minio_pool}

-- The names of the claims that a pod mounts.
abbrev pub mounted_claims : {V : Values} → Pod V → List String
mounted_claims {V} pod = map (λ (v : Volume V). v.claim_name) pod.volumes

module _ {V : Values} (m : Minio V) (pool : Pool V) where
  -- Setting the mounts panics only where setting the volumes has panicked before.
  mounts_total :
      (t : Option (ClaimTemplate V)) (n : ℤ) (i : ℕ)
      → pool.volume_claim_template ≡ t
      → pool.volumes_per_server ≡ n
      → (pod_volumes m pool i ≡ none)
        ⊎ ((ms : List (VolumeMount V)) × (pod_volume_mounts m pool ≡ some ms))
  unfolding pod_volumes pod_volume_mounts for_range
  mounts_total (some t) n i et en = elim (Bool-cases (is_one pool.volumes_per_server)) [
    | inl one ↦
        inr (record { name = t.name <> itoa 0; mount_path = mount_path m } ∷ [], rw (one, et))
    | inr many ↦ inr (
      range_map (pos_part pool.volumes_per_server) 0
          (λ j. record { name = t.name <> itoa j; mount_path = mount_path m <> ("-" <> itoa j) }),
      rw (many, et) (for_range-some _ 0 _),
    )
  ]
  mounts_total none (pos zero) i et en = inr ([], rw en)
  mounts_total none (pos (suc n)) i et en = inl (rw (en, et))
  mounts_total none (negsuc n) i et en = inr ([], rw en)

  volumes-claims :
      (i : ℕ)
      → Option.map (map (λ (v : Volume V). v.claim_name)) (pod_volumes m pool i)
        ≡ Option.map
            (map (λ (c : Claim V). c.name))
            (for_range (pos_part pool.volumes_per_server) 0 (new_claim m pool i))
  unfolding pod_volumes new_claim
  volumes-claims i =
      map-for_range (λ (v : Volume V). v.claim_name) _ 0 _
      ∙ ap (for_range (pos_part pool.volumes_per_server) 0) (fun_ext λ j. ground arith)
      ∙ sym (map-for_range (λ (c : Claim V). c.name) _ 0 _)

  pod-volumes :
      (i : ℕ) (vs : Option (List (Volume V))) (ms : Option (List (VolumeMount V)))
      → pod_volumes m pool i ≡ vs
      → pod_volume_mounts m pool ≡ ms
      → (vs ≡ none) ⊎ ((w : List (VolumeMount V)) × (ms ≡ some w))
      → Option.map mounted_claims (new_pod m pool i)
        ≡ Option.map (map (λ (v : Volume V). v.claim_name)) vs
  unfolding new_pod
  pod-volumes i none ms ev em h = rw ev
  pod-volumes i (some vs) none ev em (inl e) = cc
  pod-volumes i (some vs) none ev em (inr (w, e)) = cc
  pod-volumes i (some vs) (some ms) ev em h = rw (ev, em)

  -- The pods of a pool mount, in order, exactly the claims that are created for the pool, and the
  -- two are built or panic alike.
  pub mounted_claims-claims :
      Option.map (flat_map mounted_claims) (new_pods_for_minio_pool m pool)
      ≡ Option.map
          (map (λ (c : Claim V). c.name))
          (new_persistent_volume_claim_for_minio_pool m pool)
  unfolding new_pods_for_minio_pool new_persistent_volume_claim_for_minio_pool
  mounted_claims-claims =
      flat_map-for_range mounted_claims (pos_part pool.servers) 0 (new_pod m pool)
      ∙ ap (for_range_flat (pos_part pool.servers) 0) (
          fun_ext
            λ i. pod-volumes i _ _ refl refl (mounts_total _ _ i refl refl) ∙ volumes-claims i)
      ∙ sym (map-for_range_flat (λ (c : Claim V). c.name) (pos_part pool.servers) 0 _)
