-- ===== src/Reconcile/Plan/Changes.antt =====
-- The pools of a resource whose specification has not changed.
use mathlib.Core.Path.{ap₂}
use mathlib.Core.List.{append_assoc}
use minio_operator.Base.{
  items, Bool, true, ◌&&◌, List, [], ◌∷◌, ◌++◌, any, ◌==◌, ◌≡◌, refl, sym, ap, ◌∙◌, arith, eq_refl,
}
use minio_operator.Api.Values.{Values}
use minio_operator.Api.Types.{Pool, Minio, zero_minio}
use minio_operator.Pods.{minio_server_need_to_update}
use minio_operator.Reconcile.Plan.{add_pools, wants_update, update_pools}

any-append {ℓ} :
    {A : Type ℓ} (p : A → Bool) (xs ys : List A) (y : A) → p y ≡ true → any p (xs ++ y ∷ ys) ≡ true
any-append p [] ys y h = rw h
any-append p (x ∷ xs) ys y h = ground (arith, any-append p xs ys y h)

module _ {V : Values} where
  add_pools_suffix : (before pools : List (Pool V)) → add_pools (before ++ pools) pools ≡ []
  unfolding add_pools
  add_pools_suffix before [] = refl
  add_pools_suffix before (pool ∷ pools) =
      rw (any-append (λ p. pool.name == p.name) before pools pool (eq_refl pool.name)) (
        ap (λ l. add_pools l pools) (sym (append_assoc before (pool ∷ []) pools))
        ∙ add_pools_suffix (before ++ pool ∷ []) pools)

  -- `oldMinio`, where the revision records the specification of `m`.
  abbrev pub same_spec : Minio V → Minio V
  same_spec m = record (zero_minio V) { spec = m.spec }

  need_to_update_same :
      (m : Minio V) (pool : Pool V) → minio_server_need_to_update (same_spec m) m pool pool ≡ true
  unfolding minio_server_need_to_update
  need_to_update_same m pool =
      ground (arith, V.node_selector_eq.beq_iff pool.node_selector pool.node_selector)

  update_pools_suffix :
      (m : Minio V) (before pools : List (Pool V))
      → (items m.spec.pools) ≡ before ++ pools
      → update_pools (same_spec m) m pools ≡ pools
  unfolding update_pools
  update_pools_suffix m before [] e = refl
  update_pools_suffix m before (pool ∷ pools) e =
      let wants : wants_update (same_spec m) m pool ≡ true =
        ap (any (λ p. (p.name == pool.name) && minio_server_need_to_update (same_spec m) m pool p))
          e
        ∙ any-append _ before pools pool
            (ap₂ ◌&&◌ (eq_refl pool.name) (need_to_update_same m pool)) in
      rw (
        wants,
        update_pools_suffix m (before ++ pool ∷ []) pools
            (e ∙ sym (append_assoc before (pool ∷ []) pools)),
      )

  -- Where the recorded specification is that of the resource, no pool is added, and every pool is
  -- updated.
  pub unchanged_pools :
      (m : Minio V)
      → (add_pools (items m.spec.pools) (items m.spec.pools) ≡ [])
        × (update_pools (same_spec m) m (items m.spec.pools) ≡ (items m.spec.pools))
  unchanged_pools m =
      (add_pools_suffix [] (items m.spec.pools), update_pools_suffix m [] (items m.spec.pools) refl)
