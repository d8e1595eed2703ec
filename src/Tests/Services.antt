-- ===== src/Tests/Services.antt =====
-- The server in memory keeps services as the checks of services rely on.
use minio_operator.Base.{
  String, false, ◌&&◌, ◌==◌, ◌≢◌, Option, none, some, List, [], ◌∷◌, Bool-cases, inl, inr, ◌≡◌,
  refl, sym, ap, ◌∙◌, arith, eq_iff, eq_refl,
}
use mathlib.Core.Path.{subst}
use minio_operator.Base.Exec.{Reply, value}
use minio_operator.Api.Objects.{Service}
use minio_operator.Service.Matching.{Matches}
use minio_operator.Reconcile.Services.Laws.{KeepsServices, KeepsOthers}
use minio_operator.Tests.Data.{plain}
use minio_operator.Tests.Server.{Kept, found_service, server, reply_of, found_minio, status_written}
use minio_operator.Api.Types.{Minio}

found_service-name :
    (kept : List (String × Service plain)) (ns name : String) (svc : Service plain)
    → found_service kept ns name ≡ some svc
    → svc.name ≡ name
found_service-name [] ns name svc h = cc
found_service-name ((at, x) ∷ kept) ns name svc h =
    elim (Bool-cases ((at == ns) && (x.name == name))) [
      | inl e ↦ ground (arith, eq_iff at ns, eq_iff x.name name)
      | inr e ↦ found_service-name kept ns name svc (skipped e)
    ]
  where
    skipped : (((at == ns) && (x.name == name)) ≡ false) → found_service kept ns name ≡ some svc
    skipped e = sym (rw e refl) ∙ h

reply_of-eq-value :
    (o : Option (Service plain)) (svc : Service plain) (s s' : Kept)
    → ◌≡◌ {A = Reply server.Error (Service plain) × Kept} (reply_of o, s) (value svc, s')
    → (s' ≡ s) × (o ≡ some svc)
reply_of-eq-value none svc s s' h = cc
reply_of-eq-value (some x) svc s s' h = (cc, cc)

pub found_service-eq-some :
    (kept : List (String × Service plain)) (ns name : String) (svc : Service plain) (s s' : Kept)
    → ◌≡◌ {A = Reply server.Error (Service plain) × Kept}
        (reply_of (found_service kept ns name), s)
        (value svc, s')
    → (s' ≡ s) × (found_service kept ns name ≡ some svc) × (svc.name ≡ name)
found_service-eq-some kept ns name svc s s' h =
    let (p, e) = reply_of-eq-value (found_service kept ns name) svc s s' h in
    (p, e, found_service-name kept ns name svc e)

module _ (ns : String) (svc stored : Service plain) (s s' : Kept)
    (h : ◌≡◌ {A = Reply server.Error (Service plain) × Kept}
      (value svc, record s { service = (ns, svc) ∷ s.service })
      (value stored, s')) where
  pub stored-same : svc ≡ stored
  stored-same = cc

  pub stored-found : (found_service s'.service ns svc.name ≡ some stored) × (stored.name ≡ svc.name)
  stored-found = (
    rw (ap (λ (x : Kept). x.service) (sym (ap (λ p. p.1) h)), eq_refl ns, eq_refl svc.name)
        (ap some stored-same),
    ap (λ (x : Service plain). x.name) (sym stored-same),
  )

abbrev pub server-KeepsServices : KeepsServices server
server-KeepsServices = record {
  service = λ s. found_service s.service;
  get_value = λ s s' ns name svc h. found_service-eq-some s.service ns name svc s s' h;
  get_some = λ s ns name svc h. rw h refl;
  create_value = λ s s' ns svc stored h. stored-found ns svc stored s s' h;
  update_value = λ s s' ns svc stored full h.
      let (e, q) = stored-found ns svc stored s s' h in
      (e, subst (λ x. Matches plain x svc) (stored-same ns svc stored s s' h) full.1);
  event_services = λ s m kind reason message. refl;
}

-- A write under one name does not show under another.
pub found_service_apart :
    (at ns name : String) (svc : Service plain) (kept : List (String × Service plain))
    → name ≢ svc.name
    → found_service ((at, svc) ∷ kept) ns name ≡ found_service kept ns name
found_service_apart at ns name svc kept h =
    ground (arith, eq_iff at ns, eq_iff svc.name name, eq_iff name svc.name)

pub status_written_lem :
    (o : Option (Minio plain)) (m : Minio plain) (s : Kept)
    → (status_written o m s).1.service ≡ s.service
status_written_lem none m s = refl
status_written_lem (some c) m s = elim (Bool-cases (m.resource_version == c.resource_version)) [
  | inl e ↦ rw e refl
  | inr e ↦ rw e refl
]

abbrev pub server-KeepsOthers : KeepsOthers server server-KeepsServices
server-KeepsOthers = record {
  get_minio = λ _ _ _. refl;
  update_minio_status =
      λ m s. ap found_service (status_written_lem (found_minio s.minio m.namespace m.name) m s);
  get_revision = λ _ _ _. refl;
  create_revision = λ _ _. refl;
  delete_revision = λ _ _. refl;
  list_claims = λ _ _ _. refl;
  create_claim = λ _ _. refl;
  get_service = λ _ _ _. refl;
  create_pod = λ _ _ _. refl;
  update_pod = λ _ _ _. refl;
  create_service = λ ns svc s ns' name h. found_service_apart ns ns' name svc s.service h;
  update_service = λ ns svc s ns' name h. found_service_apart ns ns' name svc s.service h;
}
