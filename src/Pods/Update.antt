-- ===== src/Pods/Update.antt =====
-- When `MinioServerNeedToUpdate` asks for an update.
use minio_operator.Base.{true, false, Option, none, some, ◌≡◌, ◌≢◌, ◌↔◌, refl, arith, eq_iff}
use minio_operator.Base.Equality.{Eq}
use minio_operator.Api.Values.{Values}
use minio_operator.Api.Types.{Pool, Minio}
use minio_operator.Pods.{both_differ, minio_server_need_to_update}

-- A setting that is absent on either side, or the same on both.
abbrev pub Compatible : {A : Type 0} → Option A → Option A → Type 0
Compatible none b = Unit
Compatible (some a) none = Unit
Compatible (some a) (some b) = a ≡ b

both_differ_iff :
    {A : Type 0} (e : Eq A) (a b : Option A) → (both_differ e a b ≡ false) ↔ Compatible a b
both_differ_iff e none b = (λ _. tt, λ _. refl)
both_differ_iff e (some a) none = (λ _. tt, λ _. refl)
both_differ_iff e (some a) (some b) = ground (arith, e.beq_iff a b)

module _ {V : Values} where
  -- What two versions of a resource have in common where no update of the pool is asked for.
  pub record NothingToDo (old new : Minio V) (old_pool new_pool : Pool V) : Type 0 where
    pub image : old.spec.image ≡ new.spec.image
    pub image_pull_policy : old.spec.image_pull_policy ≡ new.spec.image_pull_policy
    pub image_pull_secret : old.spec.image_pull_secret ≡ new.spec.image_pull_secret
    pub liveness : Compatible old.spec.liveness new.spec.liveness
    pub readiness : Compatible old.spec.readiness new.spec.readiness
    pub startup : Compatible old.spec.startup new.spec.startup
    pub affinity : Compatible old.spec.affinity new.spec.affinity
    pub resources : old.spec.resources ≡ new.spec.resources
    pub node_selector : old_pool.node_selector ≢ new_pool.node_selector

  -- `MinioServerNeedToUpdate` asks for no update exactly when the image, its pull policy and pull
  -- secret and the resources are the same, the probes and the affinity are the same wherever both
  -- versions set them, and the node selectors of the two pools DIFFER.
  pub minio_server_need_to_update_iff :
      (old new : Minio V) (old_pool new_pool : Pool V)
      → (minio_server_need_to_update old new old_pool new_pool ≡ false)
        ↔ NothingToDo old new old_pool new_pool
  unfolding minio_server_need_to_update
  minio_server_need_to_update_iff old new old_pool new_pool = ground (
    arith,
    eq_iff old.spec.image new.spec.image,
    eq_iff old.spec.image_pull_policy new.spec.image_pull_policy,
    eq_iff old.spec.image_pull_secret new.spec.image_pull_secret,
    both_differ_iff V.probe_eq old.spec.liveness new.spec.liveness,
    both_differ_iff V.probe_eq old.spec.readiness new.spec.readiness,
    both_differ_iff V.probe_eq old.spec.startup new.spec.startup,
    both_differ_iff V.affinity_eq old.spec.affinity new.spec.affinity,
    V.resources_eq.beq_iff old.spec.resources new.spec.resources,
    V.node_selector_eq.beq_iff old_pool.node_selector new_pool.node_selector,
  )

  -- Nothing has changed, and still an update is asked for.
  pub minio_server_need_to_update_self :
      (m : Minio V) (pool : Pool V) → minio_server_need_to_update m m pool pool ≡ true
  unfolding minio_server_need_to_update
  minio_server_need_to_update_self m pool =
      ground (arith, V.node_selector_eq.beq_iff pool.node_selector pool.node_selector)
