-- ===== src/Reconcile/Main/Begins.antt =====
-- What `Reconcile` keeps before and around its work on services, claims and pods, and that it ends.
use minio_operator.Base.{ℕ, suc, String, not, Option, none, some, if◌then◌else◌}
use minio_operator.Base.Exec.{Exec, Reply, value, failure, call, must, pure, raise}
use minio_operator.Base.Ensures.{Ensures, >>=-Ensures, if-Ensures, call-Ensures, must-Ensures}
use minio_operator.Api.Values.{Values}
use minio_operator.Api.Types.{Minio, MinioSpec, DeployStatus}
use minio_operator.Api.Types.Equal.{deep_equal_spec}
use minio_operator.Cluster.{Cluster, Revision}
use minio_operator.Revision.{
  new_controller_revision, exist_controller_revision, create_controller_revision,
  delete_controller_revision,
}
use minio_operator.StatusUpdate.Server.{IsOptimistic}
use minio_operator.Reconcile.Steps.{MinioReconciler, with_status, update_status}
use minio_operator.Reconcile.Steps.Keeps.{Stable, HasVersion, update_status-Ensures}
use minio_operator.Reconcile.Main.{
  is_unset, old_minio_of, initial_status, replace_revision, compare_revision, sync_revision,
  sync_resources, reconcile_minio,
}

module _ {V : Values} (K : Cluster V) {P : K.State → Type 0} {May : String → Type 0}
    (T : Stable K P May) (L : IsOptimistic K) (fuel : ℕ) (r : MinioReconciler) where
  pub initial_status-Ensures :
      (R : Minio V → Type 0)
      → ((m : Minio V) → R m → HasVersion m)
      → ((m : Minio V) (d : DeployStatus) → R m → R (with_status m d))
      → (m : Minio V) → R m
      → Ensures ⊥ (Unit {0}) P (initial_status K (suc (suc fuel)) r m) R
  unfolding initial_status
  initial_status-Ensures R version status m w =
      if-Ensures ⊥ (Unit {0}) P (is_unset m.status.status) _ (pure m) R
        (>>=-Ensures ⊥ (Unit {0}) P
          (update_status K (suc (suc fuel)) (with_status m DeployStatus.nothing)) _ (λ _. Unit) R
          (update_status-Ensures K T L fuel r (with_status m DeployStatus.nothing) (version m w))
          (λ _ _ s p. (status m DeployStatus.nothing w, p)))
        (λ s p. (w, p))

-- The calls on revisions keep the predicate, too.
pub record RevisionStable {V : Values} (K : Cluster V) (P : K.State → Type 0) : Type 0 where
  pub get_revision : (ns name : String) (s : K.State) → P s → P (K.get_revision ns name s).1
  pub create_revision : (cr : Revision V K.Raw) (s : K.State) → P s → P (K.create_revision cr s).1
  pub delete_revision : (cr : Revision V K.Raw) (s : K.State) → P s → P (K.delete_revision cr s).1

module _ {V : Values} (K : Cluster V) {P : K.State → Type 0} {May : String → Type 0}
    (T : Stable K P May) (W : RevisionStable K P) (L : IsOptimistic K) (fuel : ℕ)
    (r : MinioReconciler) where
  abbrev Ens : {A : Type 0} → Exec K.State K.Error A → (A → Type 0) → Type 0
  Ens m Q = Ensures ⊥ (Unit {0}) P m Q

  create_controller_revision-Ensures :
      (m : Minio V) (cr : Revision V K.Raw) → Ens (create_controller_revision K m cr) (λ _. Unit)
  unfolding create_controller_revision
  create_controller_revision-Ensures m cr =
      elim (K.set_controller_reference m cr)
        as (λ x.
          Ens
            (elim x as (λ _. Exec K.State K.Error (Unit {0})) [
              | failure e ↦ raise e
              | value owned ↦ must (K.create_revision owned)
            ])
            (λ _. Unit)) [
              | failure e ↦ λ s p. (tt, p)
              | value owned ↦ must-Ensures ⊥ P (K.create_revision owned) (W.create_revision owned)
            ]

  replace_revision-Ensures :
      (m : Minio V) (cr : Revision V K.Raw) (spec : MinioSpec V)
      → Ens (replace_revision K (suc (suc fuel)) r m cr spec) (λ _. Unit)
  unfolding replace_revision delete_controller_revision
  replace_revision-Ensures m cr spec =
      if-Ensures ⊥ (Unit {0}) P (not (deep_equal_spec V spec m.spec)) _
        (pure (old_minio_of K (suc (suc fuel)) r spec)) (λ _. Unit)
        (>>=-Ensures ⊥ (Unit {0}) P (must (K.delete_revision cr)) _ (λ _. Unit) (λ _. Unit)
          (must-Ensures ⊥ P (K.delete_revision cr) (W.delete_revision cr))
          (λ _ _.
            >>=-Ensures ⊥ (Unit {0}) P
              (create_controller_revision K m (new_controller_revision K m)) _ (λ _. Unit)
              (λ _. Unit) (create_controller_revision-Ensures m (new_controller_revision K m))
              (λ _ _ s p. (tt, p))))
        (λ s p. (tt, p))

  compare_revision-Ensures :
      (m : Minio V) (found : Option (Revision V K.Raw))
      → Ens (compare_revision K (suc (suc fuel)) r m found) (λ _. Unit)
  compare_revision-Ensures m none =
      >>=-Ensures ⊥ (Unit {0}) P (create_controller_revision K m (new_controller_revision K m)) _
        (λ _. Unit) (λ _. Unit) (create_controller_revision-Ensures m (new_controller_revision K m))
        (λ _ _ s p. (tt, p))
  compare_revision-Ensures m (some cr) =
      elim (K.unmarshal cr.raw)
        as (λ x.
          Ens
            (elim x as (λ _. Exec K.State K.Error (Minio V)) [
              | failure e ↦ raise e
              | value spec ↦ replace_revision K (suc (suc fuel)) r m cr spec
            ])
            (λ _. Unit)) [
              | failure e ↦ λ s p. (tt, p)
              | value spec ↦ replace_revision-Ensures m cr spec
            ]

  -- What follows the look-up of a revision.
  abbrev found_of :
      Reply K.Error (Revision V K.Raw) → Exec K.State K.Error (Option (Revision V K.Raw))
  found_of reply = elim reply [
    | failure e ↦ if K.is_not_found e then pure none else raise e
    | value found ↦ pure (some found)
  ]

  found_reply : (reply : Reply K.Error (Revision V K.Raw)) → Ens (found_of reply) (λ _. Unit)
  found_reply (value found) = λ s p. (tt, p)
  found_reply (failure e) =
      if-Ensures ⊥ (Unit {0}) P (K.is_not_found e) (pure none) (raise e) (λ _. Unit)
        (λ s p. (tt, p)) (λ s p. (tt, p))

  exist_controller_revision-Ensures :
      (name namespace : String) → Ens (exist_controller_revision K name namespace) (λ _. Unit)
  unfolding exist_controller_revision
  exist_controller_revision-Ensures name namespace =
      >>=-Ensures ⊥ (Unit {0}) P (call (K.get_revision namespace name)) found_of (λ _. Unit)
        (λ _. Unit)
        (call-Ensures ⊥ (Unit {0}) P (K.get_revision namespace name) (λ _. Unit)
          (λ s p. (tt, W.get_revision namespace name s p)))
        (λ reply _. found_reply reply)

  sync_revision-Ensures : (m : Minio V) → Ens (sync_revision K (suc (suc fuel)) r m) (λ _. Unit)
  unfolding sync_revision
  sync_revision-Ensures m =
      >>=-Ensures ⊥ (Unit {0}) P (exist_controller_revision K m.name m.namespace) _ (λ _. Unit)
        (λ _. Unit) (exist_controller_revision-Ensures m.name m.namespace)
        (λ found _. compare_revision-Ensures m found)

  -- The rest of a run is a hypothesis.
  pub reconcile_minio-Ensures :
      (R : Minio V → Type 0)
      → ((m : Minio V) → R m → HasVersion m)
      → ((m : Minio V) (d : DeployStatus) → R m → R (with_status m d))
      → ((old_minio m : Minio V)
          → R m
          → Ensures ⊥ (Unit {0}) P (sync_resources K (suc (suc fuel)) r old_minio m) (λ _. Unit))
      → (m : Minio V) → R m
      → Ensures ⊥ (Unit {0}) P (reconcile_minio K (suc (suc fuel)) r m) (λ _. Unit)
  unfolding reconcile_minio
  reconcile_minio-Ensures R version status rest m w =
      if-Ensures ⊥ (Unit {0}) P m.deleting (pure tt) _ (λ _. Unit) (λ s p. (tt, p))
        (>>=-Ensures ⊥ (Unit {0}) P (initial_status K (suc (suc fuel)) r m) _ R (λ _. Unit)
          (initial_status-Ensures K T L fuel r R version status m w)
          (λ m' w'.
            >>=-Ensures ⊥ (Unit {0}) P (sync_revision K (suc (suc fuel)) r m') _ (λ _. Unit)
              (λ _. Unit) (sync_revision-Ensures m') (λ old_minio _. rest old_minio m' w')))
