-- ===== src/Reconcile/Services/Keeps.antt =====
-- What a check of a service keeps, and that it ends. `R` is what is to be known of the resource: it has
-- a version, and a change of its status does not matter.
use minio_operator.Base.{ℕ, suc, String, Option, none, some, ◌≡◌, refl, sym}
use mathlib.Core.Path.{subst}
use minio_operator.Base.Exec.{Reply, value, failure, call, raise}
use minio_operator.Base.Ensures.{Ensures, >>=-Ensures, if-Ensures}
use minio_operator.Api.Values.{Values}
use minio_operator.Api.Objects.{Service}
use minio_operator.Api.Types.{Minio, DeployStatus}
use minio_operator.Service.{Mismatch, minio_svc_matches_specification}
use minio_operator.Cluster.{Cluster}
use minio_operator.StatusUpdate.Server.{IsOptimistic}
use minio_operator.Reconcile.Steps.{
  MinioReconciler, with_status, with_message, with_kube, record_event, update_status,
}
use minio_operator.Reconcile.Steps.Keeps.{
  Stable, HasVersion, update_status-Ensures, with_kube-Ensures, record_event-Ensures,
}
use minio_operator.Reconcile.Services.{
  ServiceCheck, overwritten, give_up, after_create, create_checked, after_update, if_mismatch,
  update_checked, after_get, check_service,
}
use minio_operator.Reconcile.Services.Laws.{KeepsServices}

module _ {V : Values} (K : Cluster V) {P : K.State → Type 0} {May : String → Type 0}
    (T : Stable K P May) (L : IsOptimistic K) (S : KeepsServices K) (fuel : ℕ) (r : MinioReconciler)
    (R : Minio V → Type 0) (R-version : (m : Minio V) → R m → HasVersion m)
    (R-status : (m : Minio V) (d : DeployStatus) → R m → R (with_status m d)) where
  -- A service that is replied has that name.
  abbrev Named : String → Reply K.Error (Service V) → Type 0
  Named name (value svc) = svc.name ≡ name
  Named name (failure e) = Unit

  get_service-Named :
      (ns name : String) (s : K.State) (x : Reply K.Error (Service V) × K.State)
      → K.get_service ns name s ≡ x
      → Named name x.0
  get_service-Named ns name s (value svc, s') e =
      let (_, _, n) = S.get_value s s' ns name svc e in n
  get_service-Named ns name s (failure _, s') e = tt

  create_service-Named :
      (ns : String) (svc : Service V) (s : K.State) (x : Reply K.Error (Service V) × K.State)
      → K.create_service ns svc s ≡ x
      → Named svc.name x.0
  create_service-Named ns svc s (value stored, s') e =
      let (_, n) = S.create_value s s' ns svc stored e in n
  create_service-Named ns svc s (failure _, s') e = tt

  give_up-Ensures :
      {A : Type 0} (m : Minio V) (message : String) (e : K.Error) (Q : A → Type 0)
      → R m
      → Ensures ⊥ (Unit {0}) P (give_up K (suc (suc fuel)) r m message e) Q
  unfolding give_up
  give_up-Ensures m message e Q w =
      >>=-Ensures ⊥ (Unit {0}) P
        (update_status K (suc (suc fuel)) (with_message m DeployStatus.failed message)) _
        (λ _. Unit) Q
        (update_status-Ensures K T L fuel r (with_message m DeployStatus.failed message)
          (R-version m w))
        (λ _ _ s p. (tt, p))

  after_update-Ensures :
      (c : ServiceCheck V) (m : Minio V) (reply : Reply K.Error (Service V))
      → R m
      → Ensures ⊥ (Unit {0}) P (after_update K (suc (suc fuel)) r c m reply) R
  after_update-Ensures c m (failure e) w = give_up-Ensures m c.update_failed e R w
  after_update-Ensures c m (value _) w =
      >>=-Ensures ⊥ (Unit {0}) P (record_event K r m "Normal" c.updated_reason c.updated_message) _
        (λ _. Unit) R
        (record_event-Ensures K T L fuel r m "Normal" c.updated_reason c.updated_message)
        (λ _ _ s p. (w, p))

  if_mismatch-Ensures :
      (x : Option Mismatch) (c : ServiceCheck V) (m : Minio V) (svc : Service V)
      → R m
      → May svc.name
      → Ensures ⊥ (Unit {0}) P (if_mismatch K (suc (suc fuel)) r x c m svc) R
  if_mismatch-Ensures none c m svc w may = λ s p. (w, p)
  if_mismatch-Ensures (some _) c m svc w may =
      let op = K.update_service m.namespace (overwritten svc c.expected) in
      >>=-Ensures ⊥ (Unit {0}) P (with_kube K r (call op)) _ (λ _. Unit) R
        (with_kube-Ensures K T L fuel r op (λ _. Unit)
          (λ s p. (tt, T.update_service m.namespace (overwritten svc c.expected) s may p)))
        (λ reply _. after_update-Ensures c m reply w)

  update_checked-Ensures :
      (c : ServiceCheck V) (m : Minio V) (svc : Service V)
      → R m
      → May svc.name
      → Ensures ⊥ (Unit {0}) P (update_checked K (suc (suc fuel)) r c m svc) R
  unfolding update_checked
  update_checked-Ensures c m svc w may =
      if_mismatch-Ensures (minio_svc_matches_specification V svc c.expected) c m svc w may

  -- A resource as `R` says, and a service that may be written.
  abbrev Ready : Minio V × Service V → Type 0
  Ready (m, svc) = R m × May svc.name

  after_create-Ensures :
      (c : ServiceCheck V) (m : Minio V) (reply : Reply K.Error (Service V))
      → R m
      → May c.created.name
      → Named c.created.name reply
      → Ensures ⊥ (Unit {0}) P (after_create K (suc (suc fuel)) r c m reply) Ready
  after_create-Ensures c m (failure e) w may n = give_up-Ensures m c.create_failed e Ready w
  after_create-Ensures c m (value svc) w may n =
      >>=-Ensures ⊥ (Unit {0}) P (record_event K r m "Normal" c.created_reason c.created_message) _
        (λ _. Unit) Ready
        (record_event-Ensures K T L fuel r m "Normal" c.created_reason c.created_message)
        (λ _ _ s p. ((w, subst May (sym n) may), p))

  create_checked-Ensures :
      (c : ServiceCheck V) (m : Minio V)
      → R m
      → May c.created.name
      → Ensures ⊥ (Unit {0}) P (create_checked K (suc (suc fuel)) r c m) Ready
  unfolding create_checked
  create_checked-Ensures c m w may =
      let running = with_status m DeployStatus.running in
      let op = K.create_service m.namespace c.created in
      >>=-Ensures ⊥ (Unit {0}) P (update_status K (suc (suc fuel)) running) _ (λ _. Unit) Ready
        (update_status-Ensures K T L fuel r running (R-version m w))
        (λ _ _.
          >>=-Ensures ⊥ (Unit {0}) P (with_kube K r (call op)) _ (Named c.created.name) Ready
            (with_kube-Ensures K T L fuel r op (Named c.created.name) (λ s p. (
              create_service-Named m.namespace c.created s (op s) refl,
              T.create_service m.namespace c.created s may p,
            )))
            (λ reply n.
              after_create-Ensures c running reply (R-status m DeployStatus.running w) may n))

  after_get-Ensures :
      (c : ServiceCheck V) (m : Minio V) (reply : Reply K.Error (Service V))
      → R m
      → May c.service_name
      → c.created.name ≡ c.service_name
      → Named c.service_name reply
      → Ensures ⊥ (Unit {0}) P (after_get K (suc (suc fuel)) r c m reply) R
  after_get-Ensures c m (value svc) w may same n =
      update_checked-Ensures c m svc w (subst May (sym n) may)
  after_get-Ensures c m (failure e) w may same n =
      if-Ensures ⊥ (Unit {0}) P (K.is_not_found e) _ (raise e) R
        (>>=-Ensures ⊥ (Unit {0}) P (create_checked K (suc (suc fuel)) r c m) _ Ready R
          (create_checked-Ensures c m w (subst May (sym same) may))
          (λ (q, svc) (v, now). update_checked-Ensures c q svc v now))
        (λ s p. (tt, p))

  -- A check keeps what is stable under the writing of its service, ends with the fuel that a status
  -- update needs, and returns a resource that has a version.
  pub check_service-Ensures :
      (c : ServiceCheck V) (m : Minio V)
      → R m
      → May c.service_name
      → c.created.name ≡ c.service_name
      → Ensures ⊥ (Unit {0}) P (check_service K (suc (suc fuel)) r c m) R
  unfolding check_service
  check_service-Ensures c m w may same =
      let op = K.get_service m.namespace c.service_name in
      >>=-Ensures ⊥ (Unit {0}) P (with_kube K r (call op)) _ (Named c.service_name) R
        (with_kube-Ensures K T L fuel r op (Named c.service_name) (λ s p. (
          get_service-Named m.namespace c.service_name s (op s) refl,
          T.get_service m.namespace c.service_name s p,
        )))
        (λ reply n. after_get-Ensures c m reply w may same n)
