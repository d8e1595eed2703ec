-- ===== src/Pods/Names.antt =====
-- When two pods have one name.
use mathlib.Core.Path.{ap₂, subst}
use minio_operator.Base.{arith, ℕ, some, List, get_elem?, ◌≡◌, ◌↔◌, ap, sym, ◌<>◌, ◌∙◌}
use minio_operator.Base.Decimal.{itoa, itoa-cut_last}
use minio_operator.Base.Partial.{>>=-eq-some, some_eq, for_range-get_elem?}
use minio_operator.Api.Values.{Values}
use minio_operator.Api.Objects.{Pod}
use minio_operator.Api.Types.{Pool, Minio, pos_part}
use minio_operator.Pods.{pod_name, new_pod, pod_volumes, pod_volume_mounts, new_pods_for_minio_pool}

module _ {V : Values} where
  pub new_pod-name :
      (m : Minio V) (pool : Pool V) (i : ℕ) (pod : Pod V)
      → new_pod m pool i ≡ some pod
      → pod.name ≡ pod_name pool i
  unfolding new_pod
  new_pod-name m pool i pod e =
      let (vs, _, e') = >>=-eq-some (pod_volumes m pool i) _ e in
      let (ms, _, e'') = >>=-eq-some (pod_volume_mounts m pool) _ e' in
      ap (λ (x : Pod V). x.name) (sym (some_eq e''))

  -- The pod at a position has that position as its index.
  new_pods_for_minio_pool-name :
      (m : Minio V) (pool : Pool V) (pods : List (Pod V)) (i : ℕ) (pod : Pod V)
      → new_pods_for_minio_pool m pool ≡ some pods
      → get_elem? pods i ≡ some pod
      → pod.name ≡ pod_name pool i
  unfolding new_pods_for_minio_pool
  new_pods_for_minio_pool-name m pool pods i pod e g = new_pod-name m pool i pod (
      subst (λ k. new_pod m pool k ≡ some pod) (omega arith)
        (for_range-get_elem? (pos_part pool.servers) 0 (new_pod m pool) pods i e g))

  -- Take the pods that `NewPodsForMinIOPool` returns for two pools, which may be the same, and of one
  -- resource or of two. A pod of the one and a pod of the other have the same name exactly when their
  -- pools are called the same and they stand at the same position: within a resource whose pools
  -- have different names no two pods clash, but the name of the resource keeps no pods apart.
  pub pods-name_iff :
      (m m' : Minio V) (pool pool' : Pool V) (pods pods' : List (Pod V)) (i i' : ℕ)
      (pod pod' : Pod V)
      → new_pods_for_minio_pool m pool ≡ some pods
      → new_pods_for_minio_pool m' pool' ≡ some pods'
      → get_elem? pods i ≡ some pod
      → get_elem? pods' i' ≡ some pod'
      → (pod.name ≡ pod'.name) ↔ ((pool.name ≡ pool'.name) × (i ≡ i'))
  pods-name_iff m m' pool pool' pods pods' i i' pod pod' e e' g g' =
      let p = new_pods_for_minio_pool-name m pool pods i pod e g in
      let p' = new_pods_for_minio_pool-name m' pool' pods' i' pod' e' g' in
      (
        λ h. itoa-cut_last i i' pool.name pool'.name (sym p ∙ h ∙ p'),
        λ (q, r). p ∙ ap₂ (λ a n. a <> ("-" <> itoa n)) q r ∙ sym p',
      )
