-- ===== src/Reconcile/Main/Recorded.antt =====
-- What the step on the ControllerRevision records.
use mathlib.Core.Path.{subst}
use minio_operator.Base.{
  ℕ, String, Option, none, some, ◌≡◌, ◌⊎◌, inl, inr, refl, sym, ap, ◌∙◌, Bool-cases, if◌then◌else◌,
}
use minio_operator.Base.Exec.{
  Exec, Reply, value, failure, ok, pure, raise, ◌>>=◌, >>=-eq-ok, pure-eq-ok,
}
use minio_operator.Api.Values.{Values}
use minio_operator.Api.Types.{Minio, MinioSpec, zero_minio}
use minio_operator.Api.Types.Equal.{deep_equal_spec, deep_equal_spec_iff}
use minio_operator.Cluster.{Cluster, Revision}
use minio_operator.Revision.{
  new_controller_revision, exist_controller_revision, create_controller_revision,
  delete_controller_revision,
}
use minio_operator.Revision.Laws.{
  KeepsRevisions, Holds, Records, create_controller_revision-Records,
}
use minio_operator.Reconcile.Steps.{MinioReconciler}
use minio_operator.Reconcile.Plan.Changes.{same_spec}
use minio_operator.Reconcile.Main.{old_minio_of, replace_revision, compare_revision, sync_revision}

module _ {V : Values} (K : Cluster V) (W : KeepsRevisions K) where
  exist_reply :
      (ns name : String) (s s₁ : K.State) (found : Option (Revision V K.Raw))
      (x : Reply K.Error (Revision V K.Raw) × K.State)
      → K.get_revision ns name s ≡ x
      → (elim x.0 as (λ _. Exec K.State K.Error (Option (Revision V K.Raw))) [
        | failure e ↦ if K.is_not_found e then pure none else raise e
        | value cr ↦ pure (some cr)
      ])
          x.1
        ≡ (ok found, s₁)
      → (s₁ ≡ s) × (W.revision s ns name ≡ found)
  exist_reply ns name s s₁ found (value cr, s') q h =
      let (a, b) = pure-eq-ok h in let (c, d) = W.get_value s s' ns name cr q in (sym b ∙ c, d ∙ a)
  exist_reply ns name s s₁ found (failure e, s') q h = elim (Bool-cases (K.is_not_found e)) [
    | inl n ↦
        let (a, b) = pure-eq-ok (sym (ap (λ c. (if c then pure none else raise e) s') n) ∙ h) in
        let (c, d) = W.get_missing s s' ns name e n q in (sym b ∙ c, d ∙ a)
    | inr n ↦ cc (
        sym (ap (λ c. (if c then pure {A = Option (Revision V K.Raw)} none else raise e) s') n) ∙ h)
  ]

  -- `ExistControllerRevision` finds what is stored, and changes nothing.
  exist_controller_revision-eq-ok :
      (ns name : String) (s s₁ : K.State) (found : Option (Revision V K.Raw))
      → exist_controller_revision K name ns s ≡ (ok found, s₁)
      → (s₁ ≡ s) × (W.revision s ns name ≡ found)
  unfolding exist_controller_revision
  exist_controller_revision-eq-ok ns name s s₁ found h =
      exist_reply ns name s s₁ found (K.get_revision ns name s) refl h

  module _ (fuel : ℕ) (r : MinioReconciler) where
    -- What `oldMinio` is: the specification that was recorded before, if there was one.
    abbrev pub Before : K.State → String → String → Minio V → Type 0
    Before s ns name old_minio =
        ((W.revision s ns name ≡ none) × (old_minio ≡ zero_minio V))
        ⊎ ((spec : MinioSpec V) × Holds K W s ns name spec
            × (old_minio ≡ old_minio_of K fuel r spec))

    replace_revision-Records :
        (m old_minio : Minio V) (cr : Revision V K.Raw) (spec : MinioSpec V) (s s' : K.State)
        → Holds K W s m.namespace m.name spec
        → replace_revision K fuel r m cr spec s ≡ (ok old_minio, s')
        → Records K W s' m.namespace m.name m.spec × (old_minio ≡ old_minio_of K fuel r spec)
    unfolding replace_revision
    replace_revision-Records m old_minio cr spec s s' held h =
        elim (Bool-cases (deep_equal_spec V spec m.spec)) [
          | inl same ↦
              let (a, b) = pure-eq-ok (sym (rw same refl) ∙ h) in
              (
                subst (λ t. Records K W t m.namespace m.name m.spec) b
                    (let (cr', q, u) =
                        subst (Holds K W s m.namespace m.name)
                          ((deep_equal_spec_iff V spec m.spec).0 same) held in
                      (cr', q, inr u)),
                sym a,
              )
          | inr differ ↦
              let h₀ : (delete_controller_revision K cr >>= (λ _. recreate)) s
                  ≡ (ok old_minio, s') =
                sym (rw differ refl) ∙ h in
              let (_, s₁, _, h₁) = >>=-eq-ok (delete_controller_revision K cr) (λ _. recreate) h₀ in
              let (_, s₂, e₂, h₂) =
                >>=-eq-ok (create_controller_revision K m (new_controller_revision K m)) _ h₁ in
              let (a, b) = pure-eq-ok h₂ in
              (
                subst (λ t. Records K W t m.namespace m.name m.spec) b
                    (create_controller_revision-Records K W m s₁ s₂ e₂),
                sym a,
              )
        ]
      where
        recreate : Exec K.State K.Error (Minio V)
        recreate = create_controller_revision K m (new_controller_revision K m) >>= λ _.
            pure (old_minio_of K fuel r spec)

    unmarshal_reply :
        (m old_minio : Minio V) (cr : Revision V K.Raw) (s s' : K.State)
        (x : Reply K.Error (MinioSpec V))
        → K.unmarshal cr.raw ≡ x
        → W.revision s m.namespace m.name ≡ some cr
        → (elim x as (λ _. Exec K.State K.Error (Minio V)) [
          | failure e ↦ raise e
          | value spec ↦ replace_revision K fuel r m cr spec
        ])
            s
          ≡ (ok old_minio, s')
        → Records K W s' m.namespace m.name m.spec × Before s m.namespace m.name old_minio
    unmarshal_reply m old_minio cr s s' (failure e) q stored h = cc
    unmarshal_reply m old_minio cr s s' (value spec) q stored h =
        let held : Holds K W s m.namespace m.name spec = (cr, stored, q) in
        let (a, b) = replace_revision-Records m old_minio cr spec s s' held h in
        (a, inr (spec, held, b))

    compare_revision-Records :
        (m old_minio : Minio V) (found : Option (Revision V K.Raw)) (s s' : K.State)
        → W.revision s m.namespace m.name ≡ found
        → compare_revision K fuel r m found s ≡ (ok old_minio, s')
        → Records K W s' m.namespace m.name m.spec × Before s m.namespace m.name old_minio
    compare_revision-Records m old_minio none s s' q h =
        let (_, s₁, e₁, h₁) =
          >>=-eq-ok (create_controller_revision K m (new_controller_revision K m)) _ h in
        let (a, b) = pure-eq-ok h₁ in
        (
          subst (λ t. Records K W t m.namespace m.name m.spec) b
              (create_controller_revision-Records K W m s s₁ e₁),
          inl (q, sym a),
        )
    compare_revision-Records m old_minio (some cr) s s' q h =
        unmarshal_reply m old_minio cr s s' (K.unmarshal cr.raw) refl q h

    -- Where the server keeps revisions and the step on the ControllerRevision returns no error, the
    -- revision records the specification of the resource afterwards, its text being the JSON of it or
    -- one that is read as it; and `oldMinio` has the specification that the revision was read as
    -- before, or none if there was no revision.
    pub sync_revision-Records :
        (m old_minio : Minio V) (s s' : K.State)
        → sync_revision K fuel r m s ≡ (ok old_minio, s')
        → Records K W s' m.namespace m.name m.spec × Before s m.namespace m.name old_minio
    unfolding sync_revision
    sync_revision-Records m old_minio s s' h =
        let (found, s₁, e₁, h₁) = >>=-eq-ok (exist_controller_revision K m.name m.namespace) _ h in
        let (a, b) = exist_controller_revision-eq-ok m.namespace m.name s s₁ found e₁ in
        compare_revision-Records m old_minio found s s' b
          (subst (λ t. compare_revision K fuel r m found t ≡ (ok old_minio, s')) a h₁)

    found_again :
        (m : Minio V) (s : K.State) (cr : Revision V K.Raw)
        → W.revision s m.namespace m.name ≡ some cr
        → sync_revision K fuel r m s ≡ compare_revision K fuel r m (some cr) s
    unfolding sync_revision exist_controller_revision
    found_again m s cr q = rw (W.get_some s m.namespace m.name cr q) refl

    replace_same :
        (m : Minio V) (cr : Revision V K.Raw) (s : K.State)
        → replace_revision K fuel r m cr m.spec s ≡ (ok (same_spec m), s)
    unfolding replace_revision
    replace_same m cr s = rw ((deep_equal_spec_iff V m.spec m.spec).1 refl) refl

    -- A revision that holds the specification is left alone.
    pub sync_revision-same :
        (m : Minio V) (s : K.State)
        → Holds K W s m.namespace m.name m.spec
        → sync_revision K fuel r m s ≡ (ok (same_spec m), s)
    sync_revision-same m s (cr, q, u) =
        found_again m s cr q
        ∙ ap
            (λ x.
              (elim x as (λ _. Exec K.State K.Error (Minio V)) [
                | failure e ↦ raise e
                | value spec ↦ replace_revision K fuel r m cr spec
              ])
                s)
            u
        ∙ replace_same m cr s
