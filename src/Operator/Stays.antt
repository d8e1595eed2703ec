-- ===== src/Operator/Stays.antt =====
-- What stays while the operator has nothing to write: a resource but for its status and version, and
-- every service.
use mathlib.Core.Path.{subst}
use minio_operator.Base.{String, Option, some, ◌≡◌, ◌≢◌, sym, ap, ◌∙◌}
use minio_operator.Api.Values.{Values}
use minio_operator.Api.Objects.{Service}
use minio_operator.Api.Types.{Minio, MinioStatus, DeployStatus}
use minio_operator.Cluster.{Cluster}
use minio_operator.StatusUpdate.Server.{IsOptimistic}
use minio_operator.Reconcile.Steps.{with_status}
use minio_operator.Reconcile.Steps.Keeps.{Stable, HasVersion}
use minio_operator.Reconcile.Services.Laws.{KeepsServices, KeepsOthers}
use minio_operator.Reconcile.Main.Begins.{RevisionStable}
use minio_operator.Operator.Laws.{KeepsResources}

module _ {V : Values} (m : Minio V) where
  -- The resource, but for its status and its version.
  abbrev pub Alike : Minio V → Type 0
  Alike x =
      (st : MinioStatus) × (v : String) × (v ≢ "")
      × (x ≡ record m { resource_version = v; status = st })

  pub Alike-HasVersion : (x : Minio V) → Alike x → HasVersion x
  Alike-HasVersion x (st, v, w, e) = subst HasVersion (sym e) w

  pub Alike-status : (x : Minio V) (d : DeployStatus) → Alike x → Alike (with_status x d)
  Alike-status x d (st, v, w, e) = (record st { status = d }, v, w, ap (λ y. with_status y d) e)

module _ {V : Values} (K : Cluster V) (L : IsOptimistic K) (C : KeepsResources K L) (m : Minio V)
    (namespace name : String) where
  -- The resource is stored.
  abbrev pub StoredAlike : K.State → Type 0
  StoredAlike s = (x : Minio V) × (L.stored s namespace name ≡ some x) × Alike m x

  StoredAlike-unchanged : (s t : K.State) → L.stored t ≡ L.stored s → StoredAlike s → StoredAlike t
  StoredAlike-unchanged s t e (x, stored, alike) = (x, ap (λ f. f namespace name) e ∙ stored, alike)

  StoredAlike-update_minio_status :
      (c : Minio V) (s : K.State) → StoredAlike s → StoredAlike (K.update_minio_status c s).1
  StoredAlike-update_minio_status c s (x, stored, (st, v, w, e)) =
      let (st', v', w', after) =
        C.update_minio_status c s namespace name x stored (Alike-HasVersion m x (st, v, w, e)) in
      (
        record x { resource_version = v'; status = st' },
        after,
        (st', v', w', ap (λ (y : Minio V). record y { resource_version = v'; status = st' }) e),
      )

  pub stored_stays : Stable K StoredAlike (λ _. Unit)
  stored_stays = record {
    get_minio = λ a b s. StoredAlike-unchanged s (K.get_minio a b s).1 (C.get_minio a b s);
    update_minio_status = λ c s. StoredAlike-update_minio_status c s;
    list_claims = λ a l s. StoredAlike-unchanged s (K.list_claims a l s).1 (C.list_claims a l s);
    create_claim = λ c s. StoredAlike-unchanged s (K.create_claim c s).1 (C.create_claim c s);
    get_service = λ a b s. StoredAlike-unchanged s (K.get_service a b s).1 (C.get_service a b s);
    create_service =
        λ a c s _. StoredAlike-unchanged s (K.create_service a c s).1 (C.create_service a c s);
    update_service =
        λ a c s _. StoredAlike-unchanged s (K.update_service a c s).1 (C.update_service a c s);
    create_pod = λ a p s. StoredAlike-unchanged s (K.create_pod a p s).1 (C.create_pod a p s);
    update_pod = λ a p s. StoredAlike-unchanged s (K.update_pod a p s).1 (C.update_pod a p s);
    event = λ c k re me s. StoredAlike-unchanged s (K.event c k re me s) (C.event c k re me s);
  }

  pub stored_stays_revision : RevisionStable K StoredAlike
  stored_stays_revision = record {
    get_revision = λ a b s. StoredAlike-unchanged s (K.get_revision a b s).1 (C.get_revision a b s);
    create_revision =
        λ c s. StoredAlike-unchanged s (K.create_revision c s).1 (C.create_revision c s);
    delete_revision =
        λ c s. StoredAlike-unchanged s (K.delete_revision c s).1 (C.delete_revision c s);
  }

  module _ (S : KeepsServices K) (O : KeepsOthers K S)
      (before : String → String → Option (Service V)) where
    -- The resource is stored, and the services are those of `before`.
    abbrev pub Steady : K.State → Type 0
    Steady s = (S.service s ≡ before) × StoredAlike s

    -- No service is written.
    pub Steady-stays : Stable K Steady (λ _. ⊥)
    Steady-stays = record {
      get_minio = λ a b s p. (O.get_minio a b s ∙ p.0, stored_stays.get_minio a b s p.1);
      update_minio_status =
          λ c s p. (O.update_minio_status c s ∙ p.0, stored_stays.update_minio_status c s p.1);
      list_claims = λ a l s p. (O.list_claims a l s ∙ p.0, stored_stays.list_claims a l s p.1);
      create_claim = λ c s p. (O.create_claim c s ∙ p.0, stored_stays.create_claim c s p.1);
      get_service = λ a b s p. (O.get_service a b s ∙ p.0, stored_stays.get_service a b s p.1);
      create_service = λ a c s no p. elim no [ ];
      update_service = λ a c s no p. elim no [ ];
      create_pod = λ a c s p. (O.create_pod a c s ∙ p.0, stored_stays.create_pod a c s p.1);
      update_pod = λ a c s p. (O.update_pod a c s ∙ p.0, stored_stays.update_pod a c s p.1);
      event =
          λ c k re me s p. (S.event_services s c k re me ∙ p.0, stored_stays.event c k re me s p.1);
    }

    pub Steady-stays_revision : RevisionStable K Steady
    Steady-stays_revision = record {
      get_revision =
          λ a b s p. (O.get_revision a b s ∙ p.0, stored_stays_revision.get_revision a b s p.1);
      create_revision =
          λ c s p. (O.create_revision c s ∙ p.0, stored_stays_revision.create_revision c s p.1);
      delete_revision =
          λ c s p. (O.delete_revision c s ∙ p.0, stored_stays_revision.delete_revision c s p.1);
    }
