-- ===== src/Reconcile/Main/Populated.antt =====
-- A `Reconcile` that succeeds has created the pods of the pools that it adds.
use mathlib.Core.Path.{subst}
use minio_operator.Base.{
  items, ℕ, suc, ◌<◌, String, ◌<>◌, false, none, some, List, [], get_elem?, All, ◌≡◌, ◌≢◌, ◌⊎◌, inl,
  inr, refl, sym, ap, ◌∙◌,
}
use minio_operator.Base.Decimal.{itoa}
use minio_operator.Base.Partial.{some_eq}
use minio_operator.Base.Exec.{Exec, value_eq, ok, ◌>>=◌, >>=-eq-ok}
use minio_operator.Base.Ensures.{Ensures, ok-Post}
use minio_operator.Api.Values.{Values}
use minio_operator.Api.Types.{Pool, Minio, MinioSpec, DeployStatus, pos_part}
use minio_operator.Cluster.{Cluster, Revision}
use minio_operator.Revision.Laws.{KeepsRevisions, Holds}
use minio_operator.Reconcile.Plan.{add_pools, pods_of}
use minio_operator.Reconcile.Main.Added.{add_pools-IsServed}
use minio_operator.Reconcile.Main.Revisions.{same_revisions}
use minio_operator.Reconcile.Main.Recorded.{Before, sync_revision-Records}
use minio_operator.StatusUpdate.Server.{IsOptimistic}
use minio_operator.Reconcile.Steps.{MinioReconciler, with_status, update_status}
use minio_operator.Reconcile.Steps.Keeps.{HasVersion, update_status-Ensures}
use minio_operator.Reconcile.Services.{check_minio_svc, check_console_svc, check_minio_hl_svc}
use minio_operator.Reconcile.Services.Laws.{KeepsServices}
use minio_operator.Reconcile.Volumes.{check_pvc}
use minio_operator.Reconcile.Volumes.Keeps.{check_pvc-Ensures}
use minio_operator.Reconcile.Main.{
  initial_status, sync_revision, sync_pods, sync_resources, reconcile,
}
use minio_operator.Reconcile.Main.Begins.{initial_status-Ensures}
use minio_operator.Reconcile.Main.Ends.{anything}
use minio_operator.Reconcile.Main.Keeps.{
  check_minio_svc-Ensures, check_console_svc-Ensures, check_minio_hl_svc-Ensures,
}
use minio_operator.Reconcile.Main.Outcomes.{reconcile_live_lem}
use minio_operator.Reconcile.Main.Same.{Same, Same-status, Same-HasVersion}
use minio_operator.Reconcile.Main.Created.{
  KeepsPods, Created, HasPods, pods_of-status, pods_stay, sync_pods-Created,
}

module _ {V : Values} (K : Cluster V) (L : IsOptimistic K) (S : KeepsServices K) (Q : KeepsPods K)
    (fuel : ℕ) (r : MinioReconciler) where
  abbrev f : ℕ
  f = suc (suc fuel)

  module _ (old_minio m : Minio V) (w : HasVersion m) where
    -- What is created for the resource under another status is created for the resource.
    Created-Same :
        (x : Minio V) (s : K.State)
        → Same m x
        → Created K L S Q fuel r s old_minio x
        → Created K L S Q fuel r s old_minio m
    Created-Same x s (st, e) h =
        let (pods, p, there) = subst (Created K L S Q fuel r s old_minio) e h in
        (pods, sym (pods_of-status m st _) ∙ p, there)

    -- A step that succeeds returns the resource under some status.
    step-Same :
        (step : Exec K.State K.Error (Minio V)) (y : Minio V) (s s' : K.State)
        → Ensures ⊥ (Unit {0}) (λ (_ : K.State). Unit {0}) step (Same m)
        → step s ≡ (ok y, s')
        → Same m y
    step-Same step y s s' h e = (ok-Post (λ _. Unit {0}) (Same m) e (h s tt)).0

    from_pvc-Created :
        (x : Minio V) (s s' : K.State)
        → Same m x
        → (check_pvc K f r x >>= λ y. sync_pods K f r old_minio y >>= λ _.
              update_status K f (with_status y DeployStatus.running))
            s
          ≡ (ok tt, s')
        → Created K L S Q fuel r s' old_minio m
    from_pvc-Created x s s' same h =
        let (y, s₁, e₁, h₁) = >>=-eq-ok (check_pvc K f r x) _ h in
        let same_y =
          step-Same (check_pvc K f r x) y s s₁
            (check_pvc-Ensures K (anything K) L fuel r (Same m) (Same-HasVersion m w)
              (Same-status m) x same)
            e₁ in
        let wy = Same-HasVersion m w y same_y in
        let (_, s₂, e₂, h₂) = >>=-eq-ok (sync_pods K f r old_minio y) _ h₁ in
        let (pods, p, there) = sync_pods-Created K L S Q fuel r old_minio y s₁ s₂ wy e₂ in
        let T = pods_stay K L S Q fuel r y.namespace pods in
        let kept =
          (ok-Post (λ t. HasPods K L S Q fuel r t y.namespace pods) (λ _. Unit) h₂
            (update_status-Ensures K T L fuel r (with_status y DeployStatus.running) wy s₂
              there)).1 in
        Created-Same y s' same_y (pods, p, kept)

    sync_resources-Created :
        (x : Minio V) (s s' : K.State)
        → Same m x
        → sync_resources K f r old_minio x s ≡ (ok tt, s')
        → Created K L S Q fuel r s' old_minio m
    unfolding sync_resources
    sync_resources-Created x s s' same h =
        let v = Same-HasVersion m w in
        let u = Same-status m in
        let (x₁, s₁, e₁, h₁) = >>=-eq-ok (check_minio_svc K f r x) _ h in
        let same₁ =
          step-Same (check_minio_svc K f r x) x₁ s s₁
            (check_minio_svc-Ensures K (anything K) L S fuel r (Same m) v u x same tt) e₁ in
        let (x₂, s₂, e₂, h₂) = >>=-eq-ok (check_console_svc K f r x₁) _ h₁ in
        let same₂ =
          step-Same (check_console_svc K f r x₁) x₂ s₁ s₂
            (check_console_svc-Ensures K (anything K) L S fuel r (Same m) v u x₁ same₁ tt) e₂ in
        let (x₃, s₃, e₃, h₃) = >>=-eq-ok (check_minio_hl_svc K f r x₂) _ h₂ in
        let same₃ =
          step-Same (check_minio_hl_svc K f r x₂) x₃ s₂ s₃
            (check_minio_hl_svc-Ensures K (anything K) L S fuel r (Same m) v u x₂ same₂ tt) e₃ in
        from_pvc-Created x₃ s₃ s' same₃ h₃

  -- What `Reconcile` of a live resource that succeeds has done for the pods.
  reconcile_pods :
      (m : Minio V) (namespace name : String) (s s' : K.State)
      → L.stored s namespace name ≡ some m
      → HasVersion m
      → m.deleting ≡ false
      → reconcile K f r namespace name s ≡ (ok tt, s')
      → (m' : Minio V) × (old_minio : Minio V) × (s₁ : K.State) × (s₂ : K.State) × (initial_status K
            f r m s
          ≡ (ok m', s₁))
        × (sync_revision K f r m' s₁ ≡ (ok old_minio, s₂))
        × Created K L S Q fuel r s' old_minio m
  reconcile_pods m namespace name s s' e w live h =
      let run =
        reconcile_live_lem K f r m namespace name s s (L.get_stored s namespace name m e) live in
      let (m', s₁, e₁, h₁) = >>=-eq-ok (initial_status K f r m) _ (sym run ∙ h) in
      let (old_minio, s₂, e₂, h₂) = >>=-eq-ok (sync_revision K f r m') _ h₁ in
      let same =
        step-Same m m w (initial_status K f r m) m' s s₁
          (initial_status-Ensures K (anything K) L fuel r (Same m) (Same-HasVersion m w)
            (Same-status m) m (m.status, refl))
          e₁ in
      (m', old_minio, s₁, s₂, e₁, e₂, sync_resources-Created old_minio m w m' s₂ s' same h₂)

  module _ (W : KeepsRevisions K) where
    -- The pools that the revision of a name is read as; none where there is no revision.
    abbrev pub RecordedPools : K.State → String → String → List (Pool V) → Type 0
    RecordedPools s ns name recorded =
        ((W.revision s ns name ≡ none) × (recorded ≡ []))
        ⊎ ((spec : MinioSpec V) × Holds K W s ns name spec × (recorded ≡ items spec.pools))

    -- The first status update changes no revision.
    revision_kept :
        (m m' : Minio V) (s s₁ : K.State)
        → HasVersion m
        → initial_status K f r m s ≡ (ok m', s₁)
        → Same m m' × (W.revision s₁ ≡ W.revision s)
    revision_kept m m' s s₁ w e =
        ok-Post (λ t. W.revision t ≡ W.revision s) (Same m) e
          (initial_status-Ensures K (same_revisions K W (W.revision s)) L fuel r (Same m)
            (Same-HasVersion m w) (Same-status m) m (m.status, refl) s refl)

    -- Both tell what was recorded.
    recorded_pools :
        (old_minio : Minio V) (s s₁ : K.State) (ns name : String) (recorded : List (Pool V))
        → W.revision s₁ ≡ W.revision s
        → Before K W f r s₁ ns name old_minio
        → RecordedPools s ns name recorded
        → items old_minio.spec.pools ≡ recorded
    recorded_pools old_minio s s₁ ns name recorded e (inl (_, o)) (inl (_, q)) =
        ap (λ (x : Minio V). items x.spec.pools) o ∙ sym q
    recorded_pools old_minio s s₁ ns name recorded e (inl (n, _)) (inr (_, (cr, q, _), _)) =
        let same = ap (λ g. g ns name) e in cc
    recorded_pools old_minio s s₁ ns name recorded e (inr (_, (cr, q, _), _)) (inl (n, _)) =
        let same = ap (λ g. g ns name) e in cc
    recorded_pools old_minio s s₁ ns name recorded e (inr (a, (cr, q, u), o))
          (inr (b, (cr', q', u'), p)) =
        let same = some_eq (sym q ∙ ap (λ g. g ns name) e ∙ q') in
        let raw = ap (λ (x : Revision V K.Raw). K.unmarshal x.raw) same in
        let spec = value_eq (sym u ∙ raw ∙ u') in
        ap (λ (x : Minio V). items x.spec.pools) o
        ∙ ap (λ (x : MinioSpec V). items x.pools) spec
        ∙ sym p

    -- On a server with optimistic concurrency that no other client writes to and that keeps services,
    -- pods and revisions: where `Reconcile` of a stored resource that has a version and is not being
    -- deleted returns no error, each pool of the specification that is not called like any pool of the
    -- specification that the revision was read as when the run began, or of none where there was no
    -- revision, has a pod for each of its servers at the end, called like the pool and the number of
    -- the server with a dash between them.
    pub reconcile-Created :
        (m : Minio V) (namespace name : String) (s s' : K.State) (recorded : List (Pool V))
        (pool : Pool V) (j i : ℕ)
        → L.stored s namespace name ≡ some m
        → HasVersion m
        → m.deleting ≡ false
        → RecordedPools s m.namespace m.name recorded
        → get_elem? (items m.spec.pools) j ≡ some pool
        → All (λ (p : Pool V). pool.name ≢ p.name) recorded
        → i < pos_part pool.servers
        → reconcile K f r namespace name s ≡ (ok tt, s')
        → Q.Has s' m.namespace (pool.name <> ("-" <> itoa i))
    reconcile-Created m namespace name s s' recorded pool j i e w live was at new less h =
        let (m', old_minio, s₁, s₂, e₁, e₂, (pods, made, there)) =
          reconcile_pods m namespace name s s' e w live h in
        let ((st, q), kept) = revision_kept m m' s s₁ w e₁ in
        let (_, found) = sync_revision-Records K W f r m' old_minio s₁ s₂ e₂ in
        let before =
          subst (λ (x : Minio V). Before K W f r s₁ x.namespace x.name old_minio) q found in
        let old = recorded_pools old_minio s s₁ m.namespace m.name recorded kept before was in
        add_pools-IsServed (Q.Has s' m.namespace) m recorded (items m.spec.pools) j pool pods at new
          (subst (λ l. pods_of m (add_pools l (items m.spec.pools)) ≡ some pods) old made) there i
          less
