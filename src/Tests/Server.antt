-- ===== src/Tests/Server.antt =====
-- A server in memory that keeps one resource, one revision, services, claims and the names of pods.
use text.Mathlib.TextLemmas.{append_cancel_left, append-nil}
use minio_operator.Base.{
  ℕ, String, ◌<>◌, Bool, true, false, ◌&&◌, Option, none, some, List, [], ◌∷◌, ◌++◌, ◌==◌, ◌≡◌, ◌≢◌,
  refl, sym, ap, ◌∙◌, arith, eq_iff, eq_refl, if◌then◌else◌,
}
use minio_operator.Base.Exec.{Reply, value, failure}
use minio_operator.Api.Objects.{Service, Claim}
use minio_operator.Api.Types.{Minio}
use minio_operator.Cluster.{Cluster, Revision}
use minio_operator.StatusUpdate.Server.{IsOptimistic}
use minio_operator.Tests.Data.{plain, resource}
use minio_operator.Api.Types.{MinioSpec}

pub data Refusal : Type 0 where
  missing conflict : Refusal

-- A service is kept with the namespace of the call.
pub record Kept : Type 0 where
  pub minio : Option (Minio plain)
  pub revision : Option (Revision plain (MinioSpec plain))
  pub service : List (String × Service plain)
  pub claims : List (Claim plain)
  pub events : ℕ
  pub pods : List (String × String)

abbrev pub found_minio : Option (Minio plain) → String → String → Option (Minio plain)
found_minio none ns name = none
found_minio (some m) ns name = if (m.namespace == ns) && (m.name == name) then some m else none

-- The newest entry counts.
abbrev pub found_service : List (String × Service plain) → String → String → Option (Service plain)
found_service [] ns name = none
found_service ((at, svc) ∷ kept) ns name =
    if (at == ns) && (svc.name == name) then some svc else found_service kept ns name

abbrev pub reply_of : {A : Type 0} → Option A → Reply Refusal A
reply_of none = failure missing
reply_of (some a) = value a

-- The stored object after a write of the status.
abbrev pub written : Option (Minio plain) → Minio plain → Option (Minio plain)
written none m = none
written (some c) m =
    some (record c { resource_version = c.resource_version <> "1"; status = m.status })

abbrev pub write : Kept → Minio plain → Kept
write s m = record s { minio = written s.minio m }

abbrev pub status_written :
    Option (Minio plain) → Minio plain → Kept → Reply Refusal (Unit {0}) × Kept
status_written none m s = (failure missing, s)
status_written (some c) m s =
    if m.resource_version == c.resource_version
    then (value tt, write s m)
    else (failure conflict, s)

abbrev pub is_missing : Refusal → Bool
is_missing missing = true
is_missing conflict = false

abbrev pub is_stale : Refusal → Bool
is_stale missing = false
is_stale conflict = true

abbrev pub server : Cluster plain
server = record {
  State = Kept;
  Error = Refusal;
  is_not_found = is_missing;
  is_conflict = is_stale;
  error_text = λ e. if is_missing e then "not found" else "conflict";
  get_minio = λ ns name s. (reply_of (found_minio s.minio ns name), s);
  update_minio_status = λ m s. status_written (found_minio s.minio m.namespace m.name) m s;
  Raw = MinioSpec plain;
  marshal = λ spec. spec;
  unmarshal = λ spec. value spec;
  get_revision = λ ns name s. (reply_of s.revision, s);
  create_revision = λ cr s. (value tt, record s { revision = some cr });
  delete_revision = λ cr s. (value tt, record s { revision = none });
  set_controller_reference = λ m cr. value (record cr { owner_references = m.uid ∷ [] });
  ClaimItem = Claim plain;
  list_claims = λ ns label s. (value s.claims, s);
  create_claim = λ claim s. (value tt, record s { claims = s.claims ++ claim ∷ [] });
  get_service = λ ns name s. (reply_of (found_service s.service ns name), s);
  create_service = λ ns svc s. (value svc, record s { service = (ns, svc) ∷ s.service });
  update_service = λ ns svc s. (value svc, record s { service = (ns, svc) ∷ s.service });
  create_pod = λ ns pod s. (value pod, record s { pods = (ns, pod.name) ∷ s.pods });
  update_pod = λ ns pod s. (value pod, s);
  event = λ m kind reason message s. record s { events = s.events };
}

abbrev pub newer : Option (Minio plain) → String
newer none = ""
newer (some c) = c.resource_version <> "1"

pub longer_version : (v : String) → v <> "1" ≢ v
longer_version v e =
    ground (arith, append_cancel_left v "1" "" (e ∙ sym (append-nil v)), eq_iff "1" "")

pub found-eq-some :
    (o : Option (Minio plain)) (ns name : String) (c : Minio plain)
    → found_minio o ns name ≡ some c
    → (o ≡ some c) × (c.namespace ≡ ns) × (c.name ≡ name)
found-eq-some none ns name c h = cc
found-eq-some (some m) ns name c h =
    let (p, a, b) : (m ≡ c) × (m.namespace ≡ ns) × (m.name ≡ name) =
      ground (arith, eq_iff m.namespace ns, eq_iff m.name name) in
    (
      ap some p,
      ap (λ (x : Minio plain). x.namespace) (sym p) ∙ a,
      ap (λ (x : Minio plain). x.name) (sym p) ∙ b,
    )

pub stored-write :
    (o : Option (Minio plain)) (m c : Minio plain)
    → found_minio o m.namespace m.name ≡ some c
    → found_minio (written o m) m.namespace m.name
      ≡ some (record c { resource_version = newer o; status = m.status })
stored-write o m c h =
    let (p, a, b) = found-eq-some o m.namespace m.name c h in
    rw p (rw (a, b) (rw (eq_refl m.namespace, eq_refl m.name) refl))

module _ (c m : Minio plain) (s : Kept) where
  pub stale_refused :
      m.resource_version ≢ c.resource_version → status_written (some c) m s ≡ (failure conflict, s)
  stale_refused v = ground (arith, eq_iff m.resource_version c.resource_version)

  pub fresh_written :
      m.resource_version ≡ c.resource_version → status_written (some c) m s ≡ (value tt, write s m)
  fresh_written v = ground (arith, eq_iff m.resource_version c.resource_version)

abbrev pub server-IsOptimistic : IsOptimistic server
server-IsOptimistic = record {
  stored = λ s. found_minio s.minio;
  stored_key = λ s ns name c h. let (_, a, b) = found-eq-some s.minio ns name c h in (a, b);
  missing = missing;
  missing_not_found = refl;
  missing_not_conflict = refl;
  conflict = conflict;
  conflict_is_conflict = refl;
  get_stored = λ s ns name c h. rw h refl;
  update_missing = λ s m h. rw h refl;
  update_stale = λ s m c w h v. rw h (stale_refused c m s v);
  write = write;
  version_after = λ s m. newer s.minio;
  update_fresh = λ s m c h v. rw h (fresh_written c m s v);
  stored_write = λ s m c h. stored-write s.minio m c h;
  version_changes = λ s m c h d e.
      longer_version c.resource_version
        (sym (ap newer (found-eq-some s.minio m.namespace m.name c h).0) ∙ e);
}

-- A server that holds one resource and nothing else.
abbrev pub stored_state : Kept
stored_state = record {
  minio = some resource;
  revision = none;
  service = [];
  claims = [];
  events = 0;
  pods = [];
}
