-- ===== src/Tests/Revisions.antt =====
-- The revisions on the server in memory.
use minio_operator.Base.{String, ◌==◌, Bool-cases, inl, inr, Option, none, some, ◌≡◌, refl, sym, ap}
use minio_operator.Base.Exec.{Reply, value, failure}
use minio_operator.Api.Types.{Minio, MinioSpec}
use minio_operator.Cluster.{Revision}
use minio_operator.Revision.Laws.{KeepsRevisions}
use minio_operator.Tests.Data.{plain}
use minio_operator.Tests.Server.{Refusal, Kept, server, found_minio, status_written, reply_of}

abbrev pub Recorded : Type 0
Recorded = Revision plain (MinioSpec plain)

pub revision_read :
    (o : Option Recorded) (cr : Recorded) (s s' : Kept)
    → ◌≡◌ {A = Reply Refusal Recorded × Kept} (reply_of o, s) (value cr, s')
    → (s' ≡ s) × (o ≡ some cr)
revision_read none cr s s' h = cc
revision_read (some x) cr s s' h = (cc, cc)

pub revision_missing :
    (o : Option Recorded) (e : Refusal) (s s' : Kept)
    → ◌≡◌ {A = Reply Refusal Recorded × Kept} (reply_of o, s) (failure e, s')
    → (s' ≡ s) × (o ≡ none)
revision_missing none e s s' h = (cc, refl)
revision_missing (some x) e s s' h = cc

pub revision_created :
    (cr : Recorded) (s s' : Kept)
    → ◌≡◌ {A = Reply Refusal (Unit {0}) × Kept}
        (value tt, record s { revision = some cr })
        (value tt, s')
    → s'.revision ≡ some cr
revision_created cr s s' h = ap (λ (x : Kept). x.revision) (sym (ap (λ p. p.1) h))

pub reference_set :
    (owner : Minio plain) (cr owned : Recorded)
    → server.set_controller_reference owner cr ≡ value owned
    → (owned.namespace ≡ cr.namespace) × (owned.name ≡ cr.name) × (owned.raw ≡ cr.raw)
reference_set owner cr owned h = (cc, cc, cc)

pub status_written_revision :
    (o : Option (Minio plain)) (m : Minio plain) (s : Kept)
    → (status_written o m s).1.revision ≡ s.revision
status_written_revision none m s = refl
status_written_revision (some c) m s =
    elim (Bool-cases (m.resource_version == c.resource_version)) [
      | inl e ↦ rw e refl
      | inr e ↦ rw e refl
    ]

abbrev pub server-KeepsRevisions : KeepsRevisions server
server-KeepsRevisions = record {
  revision = λ s ns name. s.revision;
  get_value = λ s s' ns name cr h. revision_read s.revision cr s s' h;
  get_missing = λ s s' ns name e n h. revision_missing s.revision e s s' h;
  get_some = λ s ns name cr h. rw h refl;
  create_value = λ s s' cr h. revision_created cr s s' h;
  reference = reference_set;
  get_minio = λ _ _ _. refl;
  update_minio_status = λ m s.
      ap (λ x (_ _ : String). x)
        (status_written_revision (found_minio s.minio m.namespace m.name) m s);
  list_claims = λ _ _ _. refl;
  create_claim = λ _ _. refl;
  get_service = λ _ _ _. refl;
  create_service = λ _ _ _. refl;
  update_service = λ _ _ _. refl;
  create_pod = λ _ _ _. refl;
  update_pod = λ _ _ _. refl;
  event = λ _ _ _ _ _. refl;
}
