-- ===== src/StatusUpdate/Retry.antt =====
-- What becomes of a status update, on a server with optimistic concurrency.
use mathlib.Core.Option
use mathlib.Core.Path.{subst₂}
use minio_operator.Base.{
  ℕ, suc, Bool, true, none, some, ◌≡◌, ◌≢◌, refl, ap, sym, ◌∙◌, arith, ◌⊎◌, inl, inr, Option-cases,
  Bool-cases, ◌==◌, eq_iff,
}
use minio_operator.Base.Exec.{ok, err}
use minio_operator.Api.Values.{Values}
use minio_operator.Api.Types.{Minio, MinioStatus}
use minio_operator.Cluster.{Cluster}
use minio_operator.StatusUpdate.{minio_copy, update_minio_status_with_retry}
use minio_operator.StatusUpdate.Server.{IsOptimistic}

module _ {V : Values} (K : Cluster V) (L : IsOptimistic K) where
  -- The object that the operator holds is the stored one: the status is written at once.
  pub update_fresh_lem :
      (fuel : ℕ) (s : K.State) (m c : Minio V) (retry : Bool)
      → L.stored s m.namespace m.name ≡ some c
      → m.resource_version ≡ c.resource_version
      → update_minio_status_with_retry K (suc fuel) m retry s ≡ (ok tt, L.write s (minio_copy m))
  unfolding update_minio_status_with_retry
  update_fresh_lem fuel s m c retry e v = rw (L.update_fresh s (minio_copy m) c e v)

  pub update_stale_lem :
      (fuel : ℕ) (s : K.State) (m c : Minio V)
      → m.resource_version ≢ ""
      → L.stored s m.namespace m.name ≡ some c
      → m.resource_version ≢ c.resource_version
      → update_minio_status_with_retry K (suc (suc fuel)) m true s
        ≡ (ok tt, L.write s (minio_copy c))
  unfolding update_minio_status_with_retry
  update_stale_lem fuel s m c w e v =
      let (ns, name) = L.stored_key s m.namespace m.name c e in
      let here = subst₂ (λ a b. L.stored s a b ≡ some c) (sym ns) (sym name) e in
      rw (L.update_stale s (minio_copy m) c w e v, L.conflict_is_conflict, L.get_stored s _ _ c e)
        (rw (L.update_fresh s (minio_copy c) c here refl))

  -- On a server with optimistic concurrency that no other client writes to, where the object that
  -- the operator holds has a version and is out of date: after the conflict the update returns no
  -- error, and the status that is stored is the one that was stored before.
  pub update_stale-keeps_status :
      (fuel : ℕ) (s : K.State) (m c : Minio V)
      → m.resource_version ≢ ""
      → L.stored s m.namespace m.name ≡ some c
      → m.resource_version ≢ c.resource_version
      → let r = update_minio_status_with_retry K (suc (suc fuel)) m true s in
        (r.0 ≡ ok tt)
        × (Option.map (λ (x : Minio V). x.status) (L.stored r.1 m.namespace m.name) ≡ some c.status)
  update_stale-keeps_status fuel s m c w e v =
      let (ns, name) = L.stored_key s m.namespace m.name c e in
      let here = subst₂ (λ a b. L.stored s a b ≡ some c) (sym ns) (sym name) e in
      let written =
        subst₂
          (λ a b.
            L.stored (L.write s (minio_copy c)) a b
            ≡ some (record c {
              resource_version = L.version_after s (minio_copy c);
              status = c.status;
            }))
          ns name (L.stored_write s (minio_copy c) c here) in
      rw (update_stale_lem fuel s m c w e v)
        (refl, ap (Option.map (λ (x : Minio V). x.status)) written)

  update_missing_lem :
      (fuel : ℕ) (s : K.State) (m : Minio V) (retry : Bool)
      → L.stored s m.namespace m.name ≡ none
      → update_minio_status_with_retry K (suc fuel) m retry s ≡ (err L.missing, s)
  unfolding update_minio_status_with_retry
  update_missing_lem fuel s m retry e =
      rw (L.update_missing s (minio_copy m) e, L.missing_not_conflict)

  -- On a server with optimistic concurrency that no other client writes to, two status updates are
  -- made with one object, as `Reconcile` makes them. The object has a version, the stored one, and
  -- a status that differs from the stored one. The first update is stored, the second returns no
  -- error, and the status of the first stays.
  pub second_update_dropped :
      (fuel : ℕ) (s : K.State) (m c : Minio V) (later : MinioStatus)
      → m.resource_version ≢ ""
      → L.stored s m.namespace m.name ≡ some c
      → m.resource_version ≡ c.resource_version
      → m.status ≢ c.status
      → let first = update_minio_status_with_retry K (suc (suc fuel)) m true s in
        let second =
          update_minio_status_with_retry K
            (suc (suc fuel))
            (record m { status = later })
            true
            first.1 in
        (first.0 ≡ ok tt)
        × (second.0 ≡ ok tt)
        × (Option.map (λ (x : Minio V). x.status) (L.stored second.1 m.namespace m.name)
            ≡ some m.status)
  second_update_dropped fuel s m c later w e v d =
      let c₁ = record c {
        resource_version = L.version_after s (minio_copy m);
        status = m.status;
      } in
      let k =
        update_stale-keeps_status fuel (L.write s (minio_copy m)) (record m { status = later }) c₁ w
          (L.stored_write s (minio_copy m) c e)
          (λ q. L.version_changes s (minio_copy m) c e d (sym q ∙ v)) in
      rw (update_fresh_lem (suc fuel) s m c true e v) (refl, k.0, k.1)

  -- On a server with optimistic concurrency that no other client writes to, two units of fuel are
  -- enough for an object with a version, whether the object is stored, out of date or gone: the
  -- update ends without an error, or with the one that says that the object is missing.
  pub update_ends :
      (fuel : ℕ) (s : K.State) (m : Minio V)
      → m.resource_version ≢ ""
      → let o = (update_minio_status_with_retry K (suc (suc fuel)) m true s).0 in
        (o ≡ ok tt) ⊎ (o ≡ err L.missing)
  update_ends fuel s m w = elim (Option-cases (L.stored s m.namespace m.name)) [
    | inl e ↦ inr (ap (λ r. r.0) (update_missing_lem (suc fuel) s m true e))
    | inr (c, e) ↦ elim (Bool-cases (m.resource_version == c.resource_version)) [
      | inl same ↦ inl (
          ap (λ r. r.0)
            (update_fresh_lem (suc fuel) s m c true e
              ((eq_iff m.resource_version c.resource_version).0 same)))
      | inr other ↦
          inl
            (update_stale-keeps_status fuel s m c w e
              (λ q. ground (arith, eq_iff m.resource_version c.resource_version))).0
    ]
  ]
