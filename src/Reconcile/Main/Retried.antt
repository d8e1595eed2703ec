-- ===== src/Reconcile/Main/Retried.antt =====
-- What the rest of `Reconcile` leaves of the recorded specification, and what the next run makes of it.
use mathlib.Core.Path.{subst}
use minio_operator.Base.{items, ℕ, suc, String, false, Option, some, [], ◌≡◌, refl, sym, ap, ◌∙◌}
use minio_operator.Base.Exec.{value, ok, ◌>>=◌, >>=-ok}
use minio_operator.Api.Values.{Values}
use minio_operator.Api.Types.{Minio, MinioSpec}
use minio_operator.Cluster.{Cluster, Revision}
use minio_operator.Revision.Laws.{KeepsRevisions, Holds, Records, Records-Holds}
use minio_operator.StatusUpdate.Server.{IsOptimistic}
use minio_operator.Reconcile.Steps.{MinioReconciler}
use minio_operator.Reconcile.Steps.Keeps.{Stable, HasVersion}
use minio_operator.Reconcile.Services.Laws.{KeepsServices}
use minio_operator.Reconcile.Plan.{add_pools}
use minio_operator.Reconcile.Plan.Changes.{same_spec, unchanged_pools}
use minio_operator.Reconcile.Main.{initial_status, sync_revision, sync_resources, reconcile}
use minio_operator.Reconcile.Main.Tail.{sync_resources-Ensures}
use minio_operator.Reconcile.Main.Outcomes.{reconcile_live_lem}
use minio_operator.Reconcile.Main.Recorded.{sync_revision-Records, sync_revision-same}
use minio_operator.Reconcile.Main.Same.{Same, Same-status, Same-HasVersion}
use minio_operator.Reconcile.Main.Ends.{anything}
use minio_operator.Reconcile.Main.Begins.{initial_status-Ensures}
use minio_operator.Base.Ensures.{Post}

module _ {V : Values} (K : Cluster V) (W : KeepsRevisions K) where
  module _ (ns name : String) (spec : MinioSpec V) where
    held_by :
        {f g : String → String → Option (Revision V K.Raw)}
        → g ≡ f
        → ((cr : Revision V K.Raw) × (f ns name ≡ some cr) × (K.unmarshal cr.raw ≡ value spec))
        → (cr : Revision V K.Raw) × (g ns name ≡ some cr) × (K.unmarshal cr.raw ≡ value spec)
    held_by e (cr, q, u) = (cr, ap (λ h. h ns name) e ∙ q, u)

    -- What is recorded stays while `Reconcile` goes on.
    held_stays : Stable K (λ s. Holds K W s ns name spec) (λ _. Unit)
    held_stays = record {
      get_minio = λ a b s p. held_by (W.get_minio a b s) p;
      update_minio_status = λ m s p. held_by (W.update_minio_status m s) p;
      list_claims = λ a l s p. held_by (W.list_claims a l s) p;
      create_claim = λ c s p. held_by (W.create_claim c s) p;
      get_service = λ a b s p. held_by (W.get_service a b s) p;
      create_service = λ a x s other p. held_by (W.create_service a x s) p;
      update_service = λ a x s other p. held_by (W.update_service a x s) p;
      create_pod = λ a pod s p. held_by (W.create_pod a pod s) p;
      update_pod = λ a pod s p. held_by (W.update_pod a pod s) p;
      event = λ m k re me s p. held_by (W.event m k re me s) p;
    }

  module _ (L : IsOptimistic K) (S : KeepsServices K) (fuel : ℕ) (r : MinioReconciler) where
    abbrev f : ℕ
    f = suc (suc fuel)

    rest-Holds :
        (old_minio m : Minio V) (s : K.State) (ns name : String) (spec : MinioSpec V)
        → HasVersion m
        → Holds K W s ns name spec
        → Holds K W (sync_resources K f r old_minio m s).1 ns name spec
    rest-Holds old_minio m s ns name spec w held =
        (sync_resources-Ensures K (held_stays ns name spec) L S fuel r HasVersion (λ _ v. v)
          (λ _ _ v. v) old_minio (λ _ _. tt) (λ _ _. tt) m w tt s held).1

    after_status :
        (m m' : Minio V) (s s₁ : K.State)
        → HasVersion m
        → initial_status K f r m s ≡ (ok m', s₁)
        → Same m m'
    after_status m m' s s₁ w e =
        subst (λ x. Post ⊥ (Unit {0}) (Same m) x.0) e
          (initial_status-Ensures K (anything K) L fuel r (Same m) (Same-HasVersion m w)
            (Same-status m) m (m.status, refl) s tt).0

    -- The resource as the next run reads it: with whatever version and status.
    abbrev pub ReadAgain : Minio V → Minio V → Type 0
    ReadAgain m x = (x.namespace ≡ m.namespace) × (x.name ≡ m.name) × (x.spec ≡ m.spec)

    again :
        (m x : Minio V) (s : K.State)
        → ReadAgain m x
        → Holds K W s m.namespace m.name m.spec
        → Holds K W s x.namespace x.name x.spec
    again m x s (a, b, c) held =
        subst (λ ns. Holds K W s ns x.name x.spec) (sym a)
          (subst (λ name. Holds K W s m.namespace name x.spec) (sym b)
            (subst (Holds K W s m.namespace m.name) (sym c) held))

    -- On a server with optimistic concurrency that no other client writes to and that keeps services
    -- and revisions: once `Reconcile` of a stored resource that has a version, is not being deleted and
    -- whose own specification JSON reads back as it was written has passed its first status update and
    -- the ControllerRevision, then however it ends, be it that a pod could not be created, a next run
    -- with the same specification takes it for the one that was seen before, writes no revision, and
    -- adds no pool.
    pub reconcile_never_retries :
        (m m' old_minio : Minio V) (namespace name : String) (s s₁ s₂ : K.State) (x : Minio V)
        → L.stored s namespace name ≡ some m
        → m.deleting ≡ false
        → HasVersion m
        → K.unmarshal (K.marshal m.spec) ≡ value m.spec
        → initial_status K f r m s ≡ (ok m', s₁)
        → sync_revision K f r m' s₁ ≡ (ok old_minio, s₂)
        → ReadAgain m x
        → let t = (reconcile K f r namespace name s).1 in
          (sync_revision K f r x t ≡ (ok (same_spec x), t))
          × (add_pools (items (same_spec x).spec.pools) (items x.spec.pools) ≡ [])
    reconcile_never_retries m m' old_minio namespace name s s₁ s₂ x e live w back h₁ h₂ same =
        let run =
          reconcile_live_lem K f r m namespace name s s (L.get_stored s namespace name m e) live
          ∙ >>=-ok (initial_status K f r m)
              (λ y. sync_revision K f r y >>= λ old. sync_resources K f r old y) h₁
              (>>=-ok (sync_revision K f r m') (λ old. sync_resources K f r old m') h₂ refl) in
        let (st, q) = after_status m m' s s₁ w h₁ in
        let held' = (sync_revision-Records K W f r m' old_minio s₁ s₂ h₂).0 in
        let recorded = subst (λ y. Records K W s₂ y.namespace y.name y.spec) q held' in
        let held = Records-Holds K W s₂ m.namespace m.name m.spec back recorded in
        let left =
          rest-Holds old_minio m' s₂ m.namespace m.name m.spec (Same-HasVersion m w m' (st, q))
            held in
        (
          sync_revision-same K W f r x (reconcile K f r namespace name s).1 (
              again m x (reconcile K f r namespace name s).1 same (
                subst (λ t. Holds K W t m.namespace m.name m.spec) (sym (ap (λ y. y.1) run)) left)),
          (unchanged_pools x).0,
        )
