-- ===== src/Reconcile/Steps/Keeps.antt =====
-- What the single steps of `Reconcile` keep, and that they end.
use minio_operator.Base.{
  ℕ, zero, suc, String, true, ◌&&◌, Option, none, some, ◌≡◌, ◌≢◌, ◌⊎◌, inl, inr, sym, if◌then◌else◌,
}
use mathlib.Core.Path.{subst}
use minio_operator.Base.Exec.{
  Exec, Op, Reply, value, failure, Outcome, ok, err, call, must, pure, raise, crash, ◌>>=◌,
}
use minio_operator.Base.Ensures.{Post, Ensures, >>=-Ensures, if-Ensures, call-Ensures, must-Ensures}
use minio_operator.Api.Values.{Values}
use minio_operator.Api.Objects.{Service, Pod, Claim}
use minio_operator.Api.Types.{Minio}
use minio_operator.Cluster.{Cluster}
use minio_operator.StatusUpdate.{minio_copy, update_minio_status_with_retry}
use minio_operator.StatusUpdate.Server.{IsOptimistic}
use minio_operator.StatusUpdate.Retry.{update_ends}
use minio_operator.Reconcile.Steps.{
  MinioReconciler, with_kube, record_event, update_status, or_panic,
}

-- A predicate on the states of the server that no call of the operator ends, but those on revisions
-- and the writing of a service whose name is not one of `May`.
pub record Stable {V : Values} (K : Cluster V) (P : K.State → Type 0) (May : String → Type 0)
    : Type 0 where
  pub get_minio : (ns name : String) (s : K.State) → P s → P (K.get_minio ns name s).1
  pub update_minio_status : (m : Minio V) (s : K.State) → P s → P (K.update_minio_status m s).1
  pub list_claims :
      (ns : String) (l : String × String) (s : K.State) → P s → P (K.list_claims ns l s).1
  pub create_claim : (claim : Claim V) (s : K.State) → P s → P (K.create_claim claim s).1
  pub get_service : (ns name : String) (s : K.State) → P s → P (K.get_service ns name s).1
  pub create_service :
      (ns : String) (svc : Service V) (s : K.State)
      → May svc.name
      → P s
      → P (K.create_service ns svc s).1
  pub update_service :
      (ns : String) (svc : Service V) (s : K.State)
      → May svc.name
      → P s
      → P (K.update_service ns svc s).1
  pub create_pod : (ns : String) (pod : Pod V) (s : K.State) → P s → P (K.create_pod ns pod s).1
  pub update_pod : (ns : String) (pod : Pod V) (s : K.State) → P s → P (K.update_pod ns pod s).1
  pub event :
      (m : Minio V) (kind reason message : String) (s : K.State)
      → P s
      → P (K.event m kind reason message s)

-- An object that was read from the server.
abbrev pub HasVersion : {V : Values} → Minio V → Type 0
HasVersion m = m.resource_version ≢ ""

module _ {V : Values} (K : Cluster V) {P : K.State → Type 0} {May : String → Type 0}
    (T : Stable K P May) where
  -- Any fuel: the run may end without.
  after_update_reply :
      (fuel : ℕ) (m : Minio V) (reply : Reply K.Error (Unit {0}))
      → ((x : Minio V)
          → Ensures Unit (Unit {0}) P (update_minio_status_with_retry K fuel x true) (λ _. Unit))
      → Ensures Unit
          (Unit {0})
          P
          (elim reply as (λ _. Exec K.State K.Error (Unit {0})) [
            | value _ ↦ pure tt
            | failure e ↦
                if K.is_conflict e && true
                then must (K.get_minio m.namespace m.name)
                  >>= (λ latest. update_minio_status_with_retry K fuel latest true)
                else raise e
          ])
          (λ _. Unit)
  after_update_reply fuel m (value _) h = λ s p. (tt, p)
  after_update_reply fuel m (failure e) h =
      if-Ensures Unit (Unit {0}) P (K.is_conflict e && true) _ _ _
        (>>=-Ensures Unit (Unit {0}) P (must (K.get_minio m.namespace m.name)) _ (λ _. Unit)
          (λ _. Unit)
          (must-Ensures Unit P (K.get_minio m.namespace m.name) (T.get_minio m.namespace m.name))
          (λ latest _. h latest))
        (λ s p. (tt, p))

  pub retry-Keeps :
      (fuel : ℕ) (m : Minio V)
      → Ensures Unit (Unit {0}) P (update_minio_status_with_retry K fuel m true) (λ _. Unit)
  unfolding update_minio_status_with_retry
  retry-Keeps zero m = λ s p. (tt, p)
  retry-Keeps (suc fuel) m =
      >>=-Ensures Unit (Unit {0}) P (call (K.update_minio_status (minio_copy m))) _ (λ _. Unit)
        (λ _. Unit)
        (call-Ensures Unit (Unit {0}) P (K.update_minio_status (minio_copy m)) (λ _. Unit)
          (λ s p. (tt, T.update_minio_status (minio_copy m) s p)))
        (λ reply _. after_update_reply fuel m reply (retry-Keeps fuel))

  ends-Post :
      (o : Outcome K.Error (Unit {0})) (e : K.Error)
      → (o ≡ ok tt) ⊎ (o ≡ err e)
      → Post ⊥ (Unit {0}) (λ _. Unit {0}) o
  ends-Post o e (inl p) = subst (Post ⊥ (Unit {0}) (λ _. Unit {0})) (sym p) tt
  ends-Post o e (inr p) = subst (Post ⊥ (Unit {0}) (λ _. Unit {0})) (sym p) tt

  module _ (L : IsOptimistic K) (fuel : ℕ) (r : MinioReconciler) where
    pub update_status-Ensures :
        (m : Minio V)
        → HasVersion m
        → Ensures ⊥ (Unit {0}) P (update_status K (suc (suc fuel)) m) (λ _. Unit)
    update_status-Ensures m w s p =
        (ends-Post _ L.missing (update_ends K L fuel s m w), (retry-Keeps (suc (suc fuel)) m s p).1)

    pub with_kube-Ensures :
        {A : Type 0} (op : Op K.State K.Error A) (Q : Reply K.Error A → Type 0)
        → ((s : K.State) → P s → Q (op s).0 × P (op s).1)
        → Ensures ⊥ (Unit {0}) P (with_kube K r (call {F = K.Error} op)) Q
    with_kube-Ensures op Q h =
        if-Ensures ⊥ (Unit {0}) P r.kube_client (call op) crash Q
          (call-Ensures ⊥ (Unit {0}) P op Q h) (λ s p. (tt, p))

    pub record_event-Ensures :
        (m : Minio V) (kind reason message : String)
        → Ensures ⊥ (Unit {0}) P (record_event K r m kind reason message) (λ _. Unit)
    record_event-Ensures m kind reason message =
        if-Ensures ⊥ (Unit {0}) P r.recorder _ crash (λ _. Unit)
          (λ s p. (tt, T.event m kind reason message s p)) (λ s p. (tt, p))

    pub or_panic-Ensures :
        {A : Type 0} (o : Option A) → Ensures ⊥ (Unit {0}) P (or_panic K o) (λ _. Unit)
    or_panic-Ensures none s p = (tt, p)
    or_panic-Ensures (some a) s p = (tt, p)
