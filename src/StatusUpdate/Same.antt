-- ===== src/StatusUpdate/Same.antt =====
-- The two copies of the status update agree.
use minio_operator.Base.{ℕ, zero, suc, true, ◌&&◌, ◌≡◌, refl, Bool-cases, inl, inr, if◌then◌else◌}
use minio_operator.Base.Exec.{
  Exec, Outcome, ok, err, panic, unfinished, Reply, value, failure, must, pure, raise, continue,
  ◌>>=◌,
}
use minio_operator.Api.Values.{Values}
use minio_operator.Api.Types.{Minio}
use minio_operator.Cluster.{Cluster}
use minio_operator.StatusUpdate.{minio_copy, update_minio_status_with_retry, update_minio_status}

continue-congr :
    {S E A B : Type 0} (o : Outcome E A) (f g : A → Exec S E B) (s : S)
    → ((a : A) (t : S) → f a t ≡ g a t)
    → continue o f s ≡ continue o g s
continue-congr (ok a) f g s h = h a s
continue-congr (err e) f g s h = refl
continue-congr panic f g s h = refl
continue-congr unfinished f g s h = refl

module _ {V : Values} (K : Cluster V) where
  open K use {State, Error}

  -- What follows one attempt, in either copy.
  after_attempt :
      (m : Minio V) (reply : Reply Error (Unit {0})) (f g : Minio V → Exec State Error (Unit {0}))
      (s : State)
      → ((x : Minio V) (t : State) → f x t ≡ g x t)
      → ◌≡◌ {A = Outcome Error (Unit {0}) × State}
          ((elim reply as (λ _. Exec State Error (Unit {0})) [
            | value _ ↦ pure tt
            | failure e ↦
                if K.is_conflict e
                then must (K.get_minio m.namespace m.name) >>= (λ latest. f latest)
                else raise e
          ])
            s)
          ((elim reply as (λ _. Exec State Error (Unit {0})) [
            | value _ ↦ pure tt
            | failure e ↦
                if K.is_conflict e && true
                then must (K.get_minio m.namespace m.name) >>= (λ latest. g latest)
                else raise e
          ])
            s)
  after_attempt m (value _) f g s h = refl
  after_attempt m (failure e) f g s h = elim (Bool-cases (K.is_conflict e)) [
    | inl p ↦ rw p (continue-congr (must (K.get_minio m.namespace m.name) s).0 f g _ h)
    | inr p ↦ rw p refl
  ]

  -- `updateMinIOStatus` of the status and health controllers does what `updateMinIOStatusWithRetry`
  -- of the MinIO controller does when it may retry.
  pub update_minio_status_same :
      (fuel : ℕ) (m : Minio V) (s : State)
      → update_minio_status K fuel m s ≡ update_minio_status_with_retry K fuel m true s
  unfolding update_minio_status update_minio_status_with_retry
  update_minio_status_same zero m s = refl
  update_minio_status_same (suc fuel) m s =
      after_attempt m (K.update_minio_status (minio_copy m) s).0 (update_minio_status K fuel)
        (λ x. update_minio_status_with_retry K fuel x true)
        (K.update_minio_status (minio_copy m) s).1 (λ x t. update_minio_status_same fuel x t)
