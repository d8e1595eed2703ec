-- ===== src/Reconcile/Steps.antt =====
-- The controller's fields, and the steps that several parts of `Reconcile` take.
pub mod Keeps
use minio_operator.Base.{ℕ, String, Bool, true, false, ◌≡◌, ap, Option, none, some, if◌then◌else◌}
use minio_operator.Base.Exec.{Exec, Op, Reply, call, call-eq-ok, pure, pure-eq-ok, crash, ok}
use minio_operator.Api.Values.{Values}
use minio_operator.Api.Types.{Minio, DeployStatus}
use minio_operator.Cluster.{Cluster}
use minio_operator.StatusUpdate.{update_minio_status_with_retry}

-- `MinIOReconciler`: whether its pointer `KubeClient` and its interface `Recorder` are set. Its
-- `Client` and `Scheme` always are.
pub record MinioReconciler : Type 0 where
  pub kube_client : Bool
  pub recorder : Bool

abbrev pub with_status : {V : Values} → Minio V → DeployStatus → Minio V
with_status m status = record m { status = record m.status { status = status } }

abbrev pub with_message : {V : Values} → Minio V → DeployStatus → String → Minio V
with_message m status message = record m {
  status = record m.status { status = status; message = message };
}

module _ {V : Values} (K : Cluster V) where
  open K use {State, Error}

  -- A call through `KubeClient`.
  abbrev pub with_kube : {A : Type 0} → MinioReconciler → Exec State Error A → Exec State Error A
  with_kube r m = if r.kube_client then m else crash

  -- `r.Recorder.Event(minio, …)`
  abbrev pub record_event :
      MinioReconciler → Minio V → String → String → String → Exec State Error (Unit {0})
  record_event r m kind reason message =
      if r.recorder then (λ s. (ok tt, K.event m kind reason message s)) else crash

  -- `r.updateMinIOStatusWithRetry(ctx, minio, true)`
  abbrev pub update_status : ℕ → Minio V → Exec State Error (Unit {0})
  update_status fuel m = update_minio_status_with_retry K fuel m true

  -- A nil pointer that was dereferenced in pure code panics here.
  abbrev pub or_panic : {A : Type 0} → Option A → Exec State Error A
  or_panic none = crash
  or_panic (some a) = pure a

  -- Inversion of steps that succeeded.
  pub with_kube-eq-ok :
      {A : Type 0} (r : MinioReconciler) (m : Exec State Error A) {s s' : State} {a : A}
      → with_kube r m s ≡ (ok a, s')
      → m s ≡ (ok a, s')
  with_kube-eq-ok r m {s} {s'} {a} =
      elim r.kube_client as (λ b. (if b then m else crash) s ≡ (ok a, s') → m s ≡ (ok a, s')) [
        | true ↦ λ h. h
        | false ↦ λ h. cc
      ]

  pub with_kube-call-eq-ok :
      {A : Type 0} (r : MinioReconciler) (op : Op State Error A) (s : State) {s' : State}
      {reply : Reply Error A}
      → with_kube r (call op) s ≡ (ok reply, s')
      → op s ≡ (reply, s')
  with_kube-call-eq-ok r op s h = call-eq-ok {F = Error} op {s = s} (with_kube-eq-ok r (call op) h)

  if_recorder-eq-ok :
      (b : Bool) (f : State → State) {s s' : State} {u : Unit {0}}
      → (if◌then◌else◌ {A = Exec State Error (Unit {0})} b (λ t. (ok tt, f t)) crash) s ≡ (ok u, s')
      → f s ≡ s'
  if_recorder-eq-ok true f h = ap (λ p. p.1) h
  if_recorder-eq-ok false f h = cc

  pub record_event-eq-ok :
      (r : MinioReconciler) (m : Minio V) (kind reason message : String) {s s' : State}
      {u : Unit {0}}
      → record_event r m kind reason message s ≡ (ok u, s')
      → K.event m kind reason message s ≡ s'
  record_event-eq-ok r m kind reason message =
      if_recorder-eq-ok r.recorder (K.event m kind reason message)

  pub or_panic-eq-ok :
      {A : Type 0} (o : Option A) {a : A} {s s' : State}
      → or_panic o s ≡ (ok a, s')
      → (o ≡ some a) × (s ≡ s')
  or_panic-eq-ok none h = cc
  or_panic-eq-ok (some a) h = let (p, q) = pure-eq-ok h in (ap some p, q)
