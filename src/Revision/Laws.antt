-- ===== src/Revision/Laws.antt =====
-- What the record of a specification relies on of the server, and what the operations of
-- utils/controllerrevision.go then do.
use mathlib.Core.Path.{subst}
use minio_operator.Base.{String, true, Option, none, some, ◌≡◌, refl, ap, ◌∙◌, ◌⊎◌, inl, inr}
use minio_operator.Base.Exec.{Exec, Reply, value, failure, Outcome, ok, must, raise, reply_outcome}
use minio_operator.Api.Values.{Values}
use minio_operator.Api.Objects.{Service, Pod, Claim}
use minio_operator.Api.Types.{Minio, MinioSpec}
use minio_operator.Cluster.{Cluster, Revision}
use minio_operator.Revision.{new_controller_revision, create_controller_revision}

-- What the server documents of revisions, where no other client changes them: a read gives what is
-- stored, a create stores the revision, and no call on other objects changes one. The owner's
-- reference is all that `SetControllerReference` changes.
pub record KeepsRevisions {V : Values} (K : Cluster V) : Type 0 where
  pub revision : K.State → String → String → Option (Revision V K.Raw)
  pub get_value :
      (s s' : K.State) (ns name : String) (cr : Revision V K.Raw)
      → K.get_revision ns name s ≡ (value cr, s')
      → (s' ≡ s) × (revision s ns name ≡ some cr)
  pub get_missing :
      (s s' : K.State) (ns name : String) (e : K.Error)
      → K.is_not_found e ≡ true
      → K.get_revision ns name s ≡ (failure e, s')
      → (s' ≡ s) × (revision s ns name ≡ none)
  pub get_some :
      (s : K.State) (ns name : String) (cr : Revision V K.Raw)
      → revision s ns name ≡ some cr
      → K.get_revision ns name s ≡ (value cr, s)
  pub create_value :
      (s s' : K.State) (cr : Revision V K.Raw)
      → K.create_revision cr s ≡ (value tt, s')
      → revision s' cr.namespace cr.name ≡ some cr
  pub reference :
      (owner : Minio V) (cr owned : Revision V K.Raw)
      → K.set_controller_reference owner cr ≡ value owned
      → (owned.namespace ≡ cr.namespace) × (owned.name ≡ cr.name) × (owned.raw ≡ cr.raw)
  pub get_minio : (ns name : String) (s : K.State) → revision (K.get_minio ns name s).1 ≡ revision s
  pub update_minio_status :
      (m : Minio V) (s : K.State) → revision (K.update_minio_status m s).1 ≡ revision s
  pub list_claims :
      (ns : String) (l : String × String) (s : K.State)
      → revision (K.list_claims ns l s).1 ≡ revision s
  pub create_claim :
      (claim : Claim V) (s : K.State) → revision (K.create_claim claim s).1 ≡ revision s
  pub get_service :
      (ns name : String) (s : K.State) → revision (K.get_service ns name s).1 ≡ revision s
  pub create_service :
      (ns : String) (svc : Service V) (s : K.State)
      → revision (K.create_service ns svc s).1 ≡ revision s
  pub update_service :
      (ns : String) (svc : Service V) (s : K.State)
      → revision (K.update_service ns svc s).1 ≡ revision s
  pub create_pod :
      (ns : String) (pod : Pod V) (s : K.State) → revision (K.create_pod ns pod s).1 ≡ revision s
  pub update_pod :
      (ns : String) (pod : Pod V) (s : K.State) → revision (K.update_pod ns pod s).1 ≡ revision s
  pub event :
      (m : Minio V) (kind reason message : String) (s : K.State)
      → revision (K.event m kind reason message s) ≡ revision s

module _ {V : Values} (K : Cluster V) (W : KeepsRevisions K) where
  -- The specification that the revision of a name holds.
  abbrev pub Holds : K.State → String → String → MinioSpec V → Type 0
  Holds s ns name spec =
      (cr : Revision V K.Raw) × (W.revision s ns name ≡ some cr) × (K.unmarshal cr.raw ≡ value spec)

  -- The revision of a name records a specification: its text is the JSON of it, or is read as it. JSON
  -- is not read back as it was written where it leaves out an empty slice, or writes a quantity in
  -- another form.
  abbrev pub Records : K.State → String → String → MinioSpec V → Type 0
  Records s ns name spec =
      (cr : Revision V K.Raw) × (W.revision s ns name ≡ some cr)
      × ((cr.raw ≡ K.marshal spec) ⊎ (K.unmarshal cr.raw ≡ value spec))

  pub Records-Holds :
      (s : K.State) (ns name : String) (spec : MinioSpec V)
      → K.unmarshal (K.marshal spec) ≡ value spec
      → Records s ns name spec
      → Holds s ns name spec
  Records-Holds s ns name spec back (cr, q, inl u) = (cr, q, ap K.unmarshal u ∙ back)
  Records-Holds s ns name spec back (cr, q, inr u) = (cr, q, u)

  -- What a call of the server replied, where the code does not return its error.
  must_lem :
      (x : Reply K.Error (Unit {0}) × K.State) (s' : K.State)
      → ◌≡◌ {A = Outcome K.Error (Unit {0}) × K.State} (reply_outcome x.0, x.1) (ok tt, s')
      → x ≡ (value tt, s')
  must_lem (value tt, s) s' h = cc
  must_lem (failure e, s) s' h = cc

  -- `CreateControllerRevision`, once the owner has been set.
  created_lem :
      (m : Minio V) (s s' : K.State) (x : Reply K.Error (Revision V K.Raw))
      → K.set_controller_reference m (new_controller_revision K m) ≡ x
      → (elim x as (λ _. Exec K.State K.Error (Unit {0})) [
        | failure e ↦ raise e
        | value owned ↦ must (K.create_revision owned)
      ])
          s
        ≡ (ok tt, s')
      → Records s' m.namespace m.name m.spec
  unfolding new_controller_revision
  created_lem m s s' (failure e) q h = cc
  created_lem m s s' (value owned) q h =
      let (a, b, c) = W.reference m (new_controller_revision K m) owned q in
      let stored = W.create_value s s' owned (must_lem (K.create_revision owned s) s' h) in
      (
        owned,
        subst (λ ns. W.revision s' ns m.name ≡ some owned) a
            (subst (λ name. W.revision s' owned.namespace name ≡ some owned) b stored),
        inl c,
      )

  -- `CreateControllerRevision` of a new revision records the specification.
  pub create_controller_revision-Records :
      (m : Minio V) (s s' : K.State)
      → create_controller_revision K m (new_controller_revision K m) s ≡ (ok tt, s')
      → Records s' m.namespace m.name m.spec
  unfolding create_controller_revision
  create_controller_revision-Records m s s' h =
      created_lem m s s' (K.set_controller_reference m (new_controller_revision K m)) refl h
