-- ===== src/Reconcile/Main/Added.antt =====
-- What holds of the pods of all pools that are added holds of the pods of each.
use mathlib.Core.Path.{subst}
use minio_operator.Base.{
  arith, ℕ, zero, suc, ◌+◌, ◌<◌, String, false, some, List, [], ◌∷◌, All, append-All, get_elem?,
  ◌≡◌, ◌≢◌, refl, sym, ap, ◌∙◌, ◌<>◌, Bool-cases, inl, inr, eq_iff,
}
use minio_operator.Base.Decimal.{itoa}
use minio_operator.Base.Partial.{>>=-eq-some, some_eq, for_range-each}
use minio_operator.Api.Values.{Values}
use minio_operator.Api.Objects.{Pod}
use minio_operator.Api.Types.{Pool, Minio, pos_part}
use minio_operator.Pods.{pod_name, new_pod, new_pods_for_minio_pool}
use minio_operator.Pods.Names.{new_pod-name}
use minio_operator.Reconcile.Plan.{named, add_pools, pods_of}

module _ {V : Values} (Has : String → Type 0) (m : Minio V) where
  -- Every pod of the list is there.
  abbrev There : List (Pod V) → Type 0
  There = All (λ (pod : Pod V). Has pod.name)

  -- Every server of the pool has its pod.
  abbrev pub IsServed : Pool V → Type 0
  IsServed pool = (i : ℕ) → i < pos_part pool.servers → Has (pool.name <> ("-" <> itoa i))

  new_pods_for_minio_pool-IsServed :
      (pool : Pool V) (pods : List (Pod V))
      → new_pods_for_minio_pool m pool ≡ some pods
      → There pods
      → IsServed pool
  unfolding new_pods_for_minio_pool
  new_pods_for_minio_pool-IsServed pool pods e there i h =
      let (pod, q, has) =
        for_range-each (λ (pod : Pod V). Has pod.name) (pos_part pool.servers) 0 (new_pod m pool)
          pods i h e there in
      subst Has (new_pod-name m pool (0 + i) pod q ∙ ap (pod_name pool) (omega arith)) has

  -- A pool that is not called like any of the old ones.
  abbrev pub IsNew : List (Pool V) → Pool V → Type 0
  IsNew old pool = All (λ (p : Pool V). pool.name ≢ p.name) old

  named-IsNew : (old : List (Pool V)) (pool : Pool V) → IsNew old pool → named old pool ≡ false
  named-IsNew [] pool h = refl
  named-IsNew (p ∷ old) pool h = ground (arith, eq_iff pool.name p.name, named-IsNew old pool h.1)

  -- The pods of the first pool, and those of the others.
  pods_of-cons :
      (pool : Pool V) (pools : List (Pool V)) (pods : List (Pod V))
      → pods_of m (pool ∷ pools) ≡ some pods
      → There pods
      → IsServed pool × ((rest : List (Pod V)) × (pods_of m pools ≡ some rest) × There rest)
  unfolding pods_of
  pods_of-cons pool pools pods e there =
      let (first, e₁, h₁) = >>=-eq-some (new_pods_for_minio_pool m pool) _ e in
      let (rest, e₂, h₂) = >>=-eq-some (pods_of m pools) _ h₁ in
      let (a, b) =
        append-All (λ (pod : Pod V). Has pod.name) first rest
          (subst There (sym (some_eq h₂)) there) in
      (new_pods_for_minio_pool-IsServed pool first e₁ a, (rest, e₂, b))

  pub add_pools-IsServed :
      (old new : List (Pool V)) (j : ℕ) (pool : Pool V) (pods : List (Pod V))
      → get_elem? new j ≡ some pool
      → IsNew old pool
      → pods_of m (add_pools old new) ≡ some pods
      → There pods
      → IsServed pool
  unfolding add_pools
  add_pools-IsServed old [] j pool pods g new e there = cc
  add_pools-IsServed old (p ∷ pools) zero pool pods g new e there =
      let same : p ≡ pool = some_eq g in
      let absent = named-IsNew old p (subst (IsNew old) (sym same) new) in
      let e' : pods_of m (p ∷ add_pools old pools) ≡ some pods = sym (rw absent refl) ∙ e in
      subst IsServed same (pods_of-cons p (add_pools old pools) pods e' there).0
  add_pools-IsServed old (p ∷ pools) (suc j) pool pods g new e there =
      elim (Bool-cases (named old p)) [
        | inl known ↦ add_pools-IsServed old pools j pool pods g new (sym (rw known refl) ∙ e) there
        | inr fresh ↦
            let e' : pods_of m (p ∷ add_pools old pools) ≡ some pods = sym (rw fresh refl) ∙ e in
            let (_, (rest, q, others)) = pods_of-cons p (add_pools old pools) pods e' there in
            add_pools-IsServed old pools j pool rest g new q others
      ]
