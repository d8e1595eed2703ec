-- ===== src/Operator/Contended.antt =====
-- Status updates while another client writes to the server, too.
use mathlib.Core.Path.{subst₂}
use minio_operator.Base.{
  ℕ, suc, true, List, [], ◌∷◌, length, some, ◌≡◌, ◌≢◌, refl, sym, Bool-cases, inl, inr, ◌==◌, arith,
  eq_iff,
}
use minio_operator.Base.Exec.{Op, ok}
use minio_operator.Api.Values.{Values}
use minio_operator.Api.Types.{Minio}
use minio_operator.Cluster.{Cluster}
use minio_operator.StatusUpdate.{minio_copy, update_minio_status_with_retry}
use minio_operator.StatusUpdate.Server.{IsOptimistic}
use minio_operator.Reconcile.Steps.Keeps.{HasVersion}
use minio_operator.Operator.Laws.{KeepsResources}

module _ {V : Values} (K : Cluster V) where
  -- The state, and the status updates that the other client will make, one before each of ours.
  abbrev pub Contended : Type 0
  Contended = K.State × List (Minio V)

  abbrev aside : {A : Type 0} → Op K.State K.Error A → Op Contended K.Error A
  aside op (s, script) = let (reply, s') = op s in (reply, (s', script))

  abbrev update_after_other : Minio V → Op Contended K.Error (Unit {0})
  update_after_other m (s, []) = aside (K.update_minio_status m) (s, [])
  update_after_other m (s, x ∷ script) =
      aside (K.update_minio_status m) ((K.update_minio_status x s).1, script)

  -- The server, with another client.
  abbrev pub contended : Cluster V
  contended = record {
    State = Contended;
    Error = K.Error;
    is_not_found = K.is_not_found;
    is_conflict = K.is_conflict;
    error_text = K.error_text;
    get_minio = λ ns name. aside (K.get_minio ns name);
    update_minio_status = update_after_other;
    Raw = K.Raw;
    marshal = K.marshal;
    unmarshal = K.unmarshal;
    get_revision = λ ns name. aside (K.get_revision ns name);
    create_revision = λ cr. aside (K.create_revision cr);
    delete_revision = λ cr. aside (K.delete_revision cr);
    set_controller_reference = K.set_controller_reference;
    ClaimItem = K.ClaimItem;
    list_claims = λ ns label. aside (K.list_claims ns label);
    create_claim = λ claim. aside (K.create_claim claim);
    get_service = λ ns name. aside (K.get_service ns name);
    create_service = λ ns svc. aside (K.create_service ns svc);
    update_service = λ ns svc. aside (K.update_service ns svc);
    create_pod = λ ns pod. aside (K.create_pod ns pod);
    update_pod = λ ns pod. aside (K.update_pod ns pod);
    event = λ m kind reason message (s, script). (K.event m kind reason message s, script);
  }

module _ {V : Values} (K : Cluster V) (L : IsOptimistic K) (C : KeepsResources K L) where
  -- The last attempt, with the object that was read and nothing to come in between.
  last_attempt :
      (fuel : ℕ) (s : K.State) (c : Minio V)
      → L.stored s c.namespace c.name ≡ some c
      → (update_minio_status_with_retry (contended K) (suc fuel) c true (s, [])).0 ≡ ok tt
  unfolding update_minio_status_with_retry
  last_attempt fuel s c e = rw (L.update_fresh s (minio_copy c) c e refl)

  -- An attempt, where the other client has written: it succeeds, or the object is read anew and the
  -- next attempt follows.
  attempt :
      (fuel : ℕ) (before : Contended K) (s : K.State) (script : List (Minio V)) (m c : Minio V)
      → update_after_other K (minio_copy m) before
        ≡ aside K (K.update_minio_status (minio_copy m)) (s, script)
      → L.stored s m.namespace m.name ≡ some c
      → HasVersion m
      → ((L.stored s c.namespace c.name ≡ some c)
          → (update_minio_status_with_retry (contended K) fuel c true (s, script)).0 ≡ ok tt)
      → (update_minio_status_with_retry (contended K) (suc fuel) m true before).0 ≡ ok tt
  unfolding update_minio_status_with_retry
  attempt fuel before s script m c h e w next_attempt =
      let (ns, name) = L.stored_key s m.namespace m.name c e in
      let here = subst₂ (λ a b. L.stored s a b ≡ some c) (sym ns) (sym name) e in
      elim (Bool-cases (m.resource_version == c.resource_version)) [
        | inl same ↦
            let v = (eq_iff m.resource_version c.resource_version).0 same in
            rw (h, L.update_fresh s (minio_copy m) c e v) refl
        | inr other ↦
            let v : m.resource_version ≢ c.resource_version =
              λ q. ground (arith, eq_iff m.resource_version c.resource_version) in
            rw
              (
                h,
                L.update_stale s (minio_copy m) c w e v,
                L.conflict_is_conflict,
                L.get_stored s m.namespace m.name c e,
              )
              (next_attempt here)
      ]

  -- On a server with optimistic concurrency that keeps resources, while another client makes any
  -- number of status updates, one before each of the operator's: two units of fuel more than these
  -- are enough for a status update of a stored resource, both of the operator's object and the stored
  -- one having a version, and it returns no error.
  pub contended_update_succeeds :
      (script : List (Minio V)) (s : K.State) (m c : Minio V)
      → L.stored s m.namespace m.name ≡ some c
      → HasVersion c
      → HasVersion m
      → (update_minio_status_with_retry
          (contended K)
          (suc (suc (length script)))
          m
          true
          (s, script)).0
        ≡ ok tt
  contended_update_succeeds [] s m c e wc w =
      attempt 1 (s, []) s [] m c refl e w (last_attempt 0 s c)
  contended_update_succeeds (x ∷ script) s m c e wc w =
      let (st, v, wv, e') = C.update_minio_status x s m.namespace m.name c e wc in
      let c' = record c { resource_version = v; status = st } in
      attempt (suc (suc (length script))) (s, x ∷ script) (K.update_minio_status x s).1 script m c'
        refl e' w
        (λ here. contended_update_succeeds script (K.update_minio_status x s).1 c' c' here wv wv)
