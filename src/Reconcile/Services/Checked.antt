-- ===== src/Reconcile/Services/Checked.antt =====
-- What a check of a service that succeeds leaves behind, on a server that stores services.
use mathlib.Core.Path.{subst}
use minio_operator.Base.{
  ℕ, String, Bool, true, false, Option, none, some, ◌≡◌, refl, sym, ap, ◌∙◌, if◌then◌else◌,
}
use minio_operator.Base.Exec.{
  Exec, raise, ◌>>=◌, Reply, value, failure, ok, call, >>=-eq-ok, pure-eq-ok,
}
use minio_operator.Api.Values.{Values}
use minio_operator.Api.Objects.{Service}
use minio_operator.Api.Types.{Minio}
use minio_operator.Service.{Mismatch, minio_svc_matches_specification}
use minio_operator.Service.Matching.{minio_svc_matches_specification_iff}
use minio_operator.Cluster.{Cluster}
use minio_operator.Reconcile.Steps.{
  MinioReconciler, update_status, with_kube, record_event, with_kube-call-eq-ok, record_event-eq-ok,
}
use minio_operator.Reconcile.Services.{
  ServiceCheck, overwritten, if_mismatch, after_update, after_create, after_get, give_up,
  create_checked, update_checked, check_service,
}
use minio_operator.Reconcile.Services.Laws.{IsComplete, KeepsServices, Installed}

-- The service that is sent is complete if the expected one is.
overwritten-IsComplete :
    {V : Values} (svc expected : Service V)
    → IsComplete expected
    → IsComplete (overwritten svc expected)
overwritten-IsComplete svc expected (ports, own) = (
  ports,
  record {
    labels = own.labels;
    annotations = own.annotations;
    ports = own.ports;
    selector = own.selector;
    type = own.type;
  },
)

module _ {V : Values} (K : Cluster V) (L : KeepsServices K) (fuel : ℕ) (r : MinioReconciler) where
  give_up-ne-ok :
      {A : Type 0} (m : Minio V) (message : String) (e : K.Error) (s : K.State) {s' : K.State}
      {a : A}
      → give_up K fuel r m message e s ≡ (ok a, s')
      → ⊥
  unfolding give_up
  give_up-ne-ok m message e s h =
      let (_, s₁, _, h') = >>=-eq-ok (update_status K fuel _) _ h in cc h'

  -- The reply to an update.
  updated-Installed :
      (c : ServiceCheck V) (m m' : Minio V) (svc : Service V) (s s₁ s' : K.State)
      (reply : Reply K.Error (Service V))
      → IsComplete c.expected
      → svc.name ≡ c.service_name
      → K.update_service m.namespace (overwritten svc c.expected) s ≡ (reply, s₁)
      → after_update K fuel r c m reply s₁ ≡ (ok m', s')
      → Installed K L s' m.namespace c.service_name c.expected
  updated-Installed c m m' svc s s₁ s' (failure e) full named u h =
      absurd (give_up-ne-ok m c.update_failed e s₁ h)
  updated-Installed c m m' svc s s₁ s' (value stored) full named u h =
      let (_, s₂, e₁, e₂) = >>=-eq-ok (record_event K r m _ _ _) _ h in
      let seen = record_event-eq-ok K r m "Normal" c.updated_reason c.updated_message e₁ in
      let (kept, matches) =
        L.update_value s s₁ m.namespace (overwritten svc c.expected) stored
          (overwritten-IsComplete svc c.expected full) u in
      let now =
        subst (λ t. L.service t m.namespace c.service_name ≡ some stored) (seen ∙ (pure-eq-ok e₂).1)
          (ap (λ f. f m.namespace c.service_name)
              (L.event_services s₁ m "Normal" c.updated_reason c.updated_message)
            ∙ subst (λ n. L.service s₁ m.namespace n ≡ some stored) named kept) in
      (
        stored,
        now,
        record {
          labels = matches.labels;
          annotations = matches.annotations;
          ports = matches.ports;
          selector = matches.selector;
          type = matches.type;
        },
      )

  mismatch-Installed :
      (c : ServiceCheck V) (m m' : Minio V) (svc : Service V) (s s' : K.State) (x : Option Mismatch)
      → IsComplete c.expected
      → L.service s m.namespace c.service_name ≡ some svc
      → svc.name ≡ c.service_name
      → minio_svc_matches_specification V svc c.expected ≡ x
      → if_mismatch K fuel r x c m svc s ≡ (ok m', s')
      → Installed K L s' m.namespace c.service_name c.expected
  mismatch-Installed c m m' svc s s' none full stored named e h =
      subst (λ t. Installed K L t m.namespace c.service_name c.expected) (pure-eq-ok h).1
        (svc, stored, (minio_svc_matches_specification_iff V svc c.expected).0 e)
  mismatch-Installed c m m' svc s s' (some x) full stored named e h =
      let (reply, s₁, e₁, e₂) =
        >>=-eq-ok (with_kube K r (call (K.update_service m.namespace (overwritten svc c.expected))))
          _ h in
      let u =
        with_kube-call-eq-ok K r (K.update_service m.namespace (overwritten svc c.expected)) s e₁ in
      updated-Installed c m m' svc s s₁ s' reply full named u e₂

  after_create-stored :
      (c : ServiceCheck V) (m m' : Minio V) (svc : Service V) (s s₁ s' : K.State)
      (reply : Reply K.Error (Service V))
      → c.created.name ≡ c.service_name
      → K.create_service m.namespace c.created s ≡ (reply, s₁)
      → after_create K fuel r c m reply s₁ ≡ (ok (m', svc), s')
      → (m' ≡ m)
        × (L.service s' m.namespace c.service_name ≡ some svc)
        × (svc.name ≡ c.service_name)
  after_create-stored c m m' svc s s₁ s' (failure e) named u h =
      absurd (give_up-ne-ok m c.create_failed e s₁ h)
  after_create-stored c m m' svc s s₁ s' (value stored) named u h =
      let (_, s₂, e₁, e₂) = >>=-eq-ok (record_event K r m _ _ _) _ h in
      let seen = record_event-eq-ok K r m "Normal" c.created_reason c.created_message e₁ in
      let (kept, called) = L.create_value s s₁ m.namespace c.created stored u in
      let p = pure-eq-ok e₂ in
      let same : stored ≡ svc = ap (λ q. q.1) p.0 in
      let now =
        subst (λ t. L.service t m.namespace c.service_name ≡ some stored) (seen ∙ p.1)
          (ap (λ f. f m.namespace c.service_name)
              (L.event_services s₁ m "Normal" c.created_reason c.created_message)
            ∙ subst (λ n. L.service s₁ m.namespace n ≡ some stored) named kept) in
      (
        sym (ap (λ q. q.0) p.0),
        now ∙ ap some same,
        ap (λ (x : Service V). x.name) (sym same) ∙ called ∙ named,
      )

  create_checked-stored :
      (c : ServiceCheck V) (m m' : Minio V) (svc : Service V) (s s' : K.State)
      → c.created.name ≡ c.service_name
      → create_checked K fuel r c m s ≡ (ok (m', svc), s')
      → (m'.namespace ≡ m.namespace)
        × (L.service s' m.namespace c.service_name ≡ some svc)
        × (svc.name ≡ c.service_name)
  unfolding create_checked
  create_checked-stored c m m' svc s s' named h =
      let (_, s₁, _, h₁) = >>=-eq-ok (update_status K fuel _) _ h in
      let (reply, s₂, e₁, e₂) =
        >>=-eq-ok (with_kube K r (call (K.create_service m.namespace c.created))) _ h₁ in
      let u = with_kube-call-eq-ok K r (K.create_service m.namespace c.created) s₁ e₁ in
      let (same, kept, called) = after_create-stored c _ m' svc s₁ s₂ s' reply named u e₂ in
      (ap (λ (x : Minio V). x.namespace) same, kept, called)

  update_checked-Installed :
      (c : ServiceCheck V) (m m' : Minio V) (svc : Service V) (s s' : K.State)
      → IsComplete c.expected
      → L.service s m.namespace c.service_name ≡ some svc
      → svc.name ≡ c.service_name
      → update_checked K fuel r c m svc s ≡ (ok m', s')
      → Installed K L s' m.namespace c.service_name c.expected
  unfolding update_checked
  update_checked-Installed c m m' svc s s' full stored named h =
      mismatch-Installed c m m' svc s s' _ full stored named refl h

  -- The service is created first.
  created-Installed :
      (c : ServiceCheck V) (m m' : Minio V) (s s' : K.State)
      → IsComplete c.expected
      → c.created.name ≡ c.service_name
      → (create_checked K fuel r c m >>= (λ (q, svc). update_checked K fuel r c q svc)) s
        ≡ (ok m', s')
      → Installed K L s' m.namespace c.service_name c.expected
  created-Installed c m m' s s' full named h =
      let ((q, svc), s₁, e₁, e₂) = >>=-eq-ok (create_checked K fuel r c m) _ h in
      let (same, stored, called) = create_checked-stored c m q svc s s₁ named e₁ in
      subst (λ ns. Installed K L s' ns c.service_name c.expected) same
        (update_checked-Installed c q m' svc s₁ s' full (rw same stored) called e₂)

  if_not_found-Installed :
      (b : Bool) (c : ServiceCheck V) (m m' : Minio V) (e : K.Error) (s s' : K.State)
      → IsComplete c.expected
      → c.created.name ≡ c.service_name
      → (if◌then◌else◌ {A = Exec K.State K.Error (Minio V)} b
            (create_checked K fuel r c m >>= (λ (q, svc). update_checked K fuel r c q svc))
            (raise e))
          s
        ≡ (ok m', s')
      → Installed K L s' m.namespace c.service_name c.expected
  if_not_found-Installed true c m m' e s s' full named h =
      created-Installed c m m' s s' full named h
  if_not_found-Installed false c m m' e s s' full named h = cc

  after_get-Installed :
      (c : ServiceCheck V) (m m' : Minio V) (s s₁ s' : K.State) (reply : Reply K.Error (Service V))
      → IsComplete c.expected
      → c.created.name ≡ c.service_name
      → K.get_service m.namespace c.service_name s ≡ (reply, s₁)
      → after_get K fuel r c m reply s₁ ≡ (ok m', s')
      → Installed K L s' m.namespace c.service_name c.expected
  after_get-Installed c m m' s s₁ s' (value svc) full named g h =
      let (same, stored, called) = L.get_value s s₁ m.namespace c.service_name svc g in
      update_checked-Installed c m m' svc s₁ s' full (rw same stored) called h
  after_get-Installed c m m' s s₁ s' (failure e) full named g h =
      if_not_found-Installed (K.is_not_found e) c m m' e s₁ s' full named h

  -- A check that succeeds leaves a stored service that is as expected.
  pub check_service-Installed :
      (c : ServiceCheck V) (m m' : Minio V) (s s' : K.State)
      → IsComplete c.expected
      → c.created.name ≡ c.service_name
      → check_service K fuel r c m s ≡ (ok m', s')
      → Installed K L s' m.namespace c.service_name c.expected
  unfolding check_service
  check_service-Installed c m m' s s' full named h =
      let (reply, s₁, e₁, e₂) =
        >>=-eq-ok (with_kube K r (call (K.get_service m.namespace c.service_name))) _ h in
      let g = with_kube-call-eq-ok K r (K.get_service m.namespace c.service_name) s e₁ in
      after_get-Installed c m m' s s₁ s' reply full named g e₂
