-- ===== src/Reconcile/Volumes/Tried.antt =====
-- Which claims a `checkPVC` that succeeds has tried to create.
use mathlib.Core.Path.{subst}
use minio_operator.Base.{
  arith, ℕ, zero, suc, ◌+◌, ◌<◌, String, ◌<>◌, Option, some, items, List, [], ◌∷◌, All, append-All,
  get_elem?, ◌≡◌, refl, sym, ap, ◌∙◌,
}
use minio_operator.Base.Decimal.{itoa}
use minio_operator.Base.Exec.{value, ok, call, call-eq-ok, ◌>>=◌, >>=-eq-ok, pure-eq-ok}
use minio_operator.Base.Ensures.{ok-Post}
use minio_operator.Base.Dict.{insert}
use minio_operator.Base.Equality.{string_eq}
use minio_operator.Api.Helper.{minio_pod_labels}
use minio_operator.Base.Partial.{
  ◌>>=◌ as ◌>>=?◌, >>=-eq-some, some_eq, for_range, for_range-each, for_range_flat-each,
}
use minio_operator.Api.Constants.{minio_label, pool_label}
use minio_operator.Api.Values.{Values}
use minio_operator.Api.Objects.{Claim}
use minio_operator.Api.Types.{Pool, Minio, ClaimTemplate, DeployStatus, pos_part}
use minio_operator.Claims.{claim_name, new_claim, new_persistent_volume_claim_for_minio_pool}
use minio_operator.Cluster.{Cluster}
use minio_operator.StatusUpdate.Server.{IsOptimistic}
use minio_operator.Reconcile.Steps.{
  MinioReconciler, with_status, update_status, or_panic, or_panic-eq-ok,
}
use minio_operator.Reconcile.Steps.Keeps.{Stable, HasVersion}
use minio_operator.Reconcile.Volumes.{after_claim, create_claims, claims_of, if_none, check_pvc}
use minio_operator.Reconcile.Volumes.Keeps.{after_claim-Ensures, create_claims-Ensures}

-- The requests that a server has had for claims: a request is noted whatever the answer is, and none
-- is forgotten.
pub record NotesRequests {V : Values} (K : Cluster V) : Type 1 where
  pub Tried : K.State → String → String → Type 0
  pub tries :
      (claim : Claim V) (s : K.State) → Tried (K.create_claim claim s).1 claim.namespace claim.name
  pub stays : (ns name : String) → Stable K (λ s. Tried s ns name) (λ _. Unit)

module _ {V : Values} (P : Claim V → Type 0) (m : Minio V) where
  -- What holds of the claims of all pools holds of those of each.
  claims_of-each :
      (pools : List (Pool V)) (j : ℕ) (pool : Pool V) (pvcs : List (Claim V))
      → get_elem? pools j ≡ some pool
      → claims_of m pools ≡ some pvcs
      → All P pvcs
      → (own : List (Claim V)) × (new_persistent_volume_claim_for_minio_pool m pool ≡ some own)
        × All P own
  unfolding claims_of
  claims_of-each [] j pool pvcs g e all = cc
  claims_of-each (p ∷ pools) zero pool pvcs g e all =
      let (own, e₁, h₁) = >>=-eq-some (new_persistent_volume_claim_for_minio_pool m p) _ e in
      let (rest, e₂, h₂) = >>=-eq-some (claims_of m pools) _ h₁ in
      let (a, _) = append-All P own rest (subst (All P) (sym (some_eq h₂)) all) in
      (
        own,
        subst (λ q. new_persistent_volume_claim_for_minio_pool m q ≡ some own) (some_eq g) e₁,
        a,
      )
  claims_of-each (p ∷ pools) (suc j) pool pvcs g e all =
      let (own, e₁, h₁) = >>=-eq-some (new_persistent_volume_claim_for_minio_pool m p) _ e in
      let (rest, e₂, h₂) = >>=-eq-some (claims_of m pools) _ h₁ in
      let (_, b) = append-All P own rest (subst (All P) (sym (some_eq h₂)) all) in
      claims_of-each pools j pool rest g e₂ b

  -- The claim of a server and a volume of a pool.
  new_claims-each :
      (pool : Pool V) (own : List (Claim V)) (i v : ℕ)
      → i < pos_part pool.servers
      → v < pos_part pool.volumes_per_server
      → new_persistent_volume_claim_for_minio_pool m pool ≡ some own
      → All P own
      → (claim : Claim V) × (new_claim m pool i v ≡ some claim) × P claim
  unfolding new_persistent_volume_claim_for_minio_pool
  new_claims-each pool own i v less lower e all =
      let volumes = pos_part pool.volumes_per_server in
      let (some_own, e₁, h₁) =
        for_range_flat-each P (pos_part pool.servers) 0
          (λ k. for_range volumes 0 (new_claim m pool k)) own i less e all in
      let (claim, e₂, p) =
        for_range-each P volumes 0 (new_claim m pool (0 + i)) some_own v lower e₁ h₁ in
      let at_i : 0 + i ≡ i = omega arith in
      let at_v : 0 + v ≡ v = omega arith in
      (
        claim,
        subst (λ k. new_claim m pool k v ≡ some claim) at_i
            (subst (λ k. new_claim m pool (0 + i) k ≡ some claim) at_v e₂),
        p,
      )

module _ {V : Values} where
  new_claim-key :
      (m : Minio V) (pool : Pool V) (t : ClaimTemplate V) (i v : ℕ) (claim : Claim V)
      → pool.volume_claim_template ≡ some t
      → new_claim m pool i v ≡ some claim
      → (claim.namespace ≡ m.namespace) × (claim.name ≡ claim_name m pool t i v)
  unfolding new_claim minio_pod_labels
  new_claim-key m pool t i v claim has e =
      let of = λ (o : Option (ClaimTemplate V)). o >>=? λ t. some (the_claim t) in
      let e' = some_eq (ap of (sym has) ∙ e) in
      (ap (λ (c : Claim V). c.namespace) (sym e'), ap (λ (c : Claim V). c.name) (sym e'))
    where
      the_claim : ClaimTemplate V → Claim V
      the_claim t = record {
        name = claim_name m pool t i v;
        namespace = m.namespace;
        labels = insert string_eq pool_label pool.name (minio_pod_labels m);
        resources = m.spec.resources;
        storage_class_name = t.storage_class_name;
      }

module _ {V : Values} (K : Cluster V) (L : IsOptimistic K) (N : NotesRequests K) (fuel : ℕ)
    (r : MinioReconciler) where
  abbrev f : ℕ
  f = suc (suc fuel)

  -- There was a request for the claim.
  abbrev Asked : K.State → Claim V → Type 0
  Asked s claim = N.Tried s claim.namespace claim.name

  create_claims-Asked :
      (m : Minio V) (pvcs : List (Claim V)) (s s' : K.State)
      → HasVersion m
      → create_claims K f r m pvcs s ≡ (ok tt, s')
      → All (Asked s') pvcs
  unfolding create_claims
  create_claims-Asked m [] s s' w h = tt
  create_claims-Asked m (pvc ∷ pvcs) s s' w h =
      let T = N.stays pvc.namespace pvc.name in
      let rest = λ (_ : Unit {0}). create_claims K f r m pvcs in
      let (reply, s₁, e₁, h₁) =
        >>=-eq-ok (call (K.create_claim pvc)) (λ x. after_claim K f r m x >>= rest) h in
      let asked =
        subst (λ t. Asked t pvc) (ap (λ x. x.1) (call-eq-ok {F = K.Error} (K.create_claim pvc) e₁))
          (N.tries pvc s) in
      let (_, s₂, e₂, h₂) = >>=-eq-ok (after_claim K f r m reply) rest h₁ in
      let v = λ (x : Minio V) (y : HasVersion x). y in
      let kept =
        (ok-Post (λ t. Asked t pvc) (λ _. Unit) e₂
          (after_claim-Ensures K T L fuel r HasVersion v (λ _ _ y. y) m reply s₁ asked)).1 in
      (
        (ok-Post (λ t. Asked t pvc) (λ _. Unit) h₂
            (create_claims-Ensures K T L fuel r HasVersion v (λ _ _ y. y) m pvcs s₂ kept)).1,
        create_claims-Asked m pvcs s₂ s' w h₂,
      )

  if_none-eq-ok :
      (m m' : Minio V) (s s' : K.State)
      → if_none K f r m [] s ≡ (ok m', s')
      → let running = with_status m DeployStatus.running in
        (pvcs : List (Claim V)) × (s₁ : K.State) × (claims_of running (items m.spec.pools)
          ≡ some pvcs)
        × (create_claims K f r running pvcs s₁ ≡ (ok tt, s'))
  if_none-eq-ok m m' s s' h =
      let running = with_status m DeployStatus.running in
      let (_, s₁, _, h₁) = >>=-eq-ok (update_status K f running) _ h in
      let (pvcs, s₂, e₂, h₂) =
        >>=-eq-ok (or_panic K (claims_of running (items m.spec.pools))) _ h₁ in
      let (_, s₃, e₃, h₃) = >>=-eq-ok (create_claims K f r running pvcs) _ h₂ in
      let (_, q) = pure-eq-ok h₃ in
      (
        pvcs,
        s₂,
        (or_panic-eq-ok K (claims_of running (items m.spec.pools)) e₂).0,
        subst (λ t. create_claims K f r running pvcs s₂ ≡ (ok tt, t)) q e₃,
      )

  nothing_listed :
      (m : Minio V) (s s₁ : K.State)
      → K.list_claims m.namespace (minio_label, m.name) s ≡ (value [], s₁)
      → check_pvc K f r m s ≡ if_none K f r m [] s₁
  unfolding check_pvc
  nothing_listed m s s₁ l = rw l refl

  -- On a server with optimistic concurrency that no other client writes to and that notes the requests
  -- that it has had: where no claim of the resource is listed and `checkPVC` returns no error, for every
  -- pool of the specification that has a template, each server and each volume of it, there was a
  -- request to create the claim called like the resource, the pool, the number of the server, the
  -- template and the number of the volume with dashes between them; so a claim that the server
  -- refuses keeps no other one from being tried.
  pub check_pvc_tries :
      (m m' : Minio V) (s s₁ s' : K.State) (pool : Pool V) (t : ClaimTemplate V) (j i v : ℕ)
      → HasVersion m
      → K.list_claims m.namespace (minio_label, m.name) s ≡ (value [], s₁)
      → check_pvc K f r m s ≡ (ok m', s')
      → get_elem? (items m.spec.pools) j ≡ some pool
      → pool.volume_claim_template ≡ some t
      → i < pos_part pool.servers
      → v < pos_part pool.volumes_per_server
      → N.Tried s' m.namespace (
          m.name
          <> ("-" <> (pool.name <> ("-" <> (itoa i <> ("-" <> (t.name <> ("-" <> itoa v))))))))
  unfolding claim_name
  check_pvc_tries m m' s s₁ s' pool t j i v w l h at has less lower =
      let running = with_status m DeployStatus.running in
      let (pvcs, s₂, made, e) = if_none-eq-ok m m' s₁ s' (sym (nothing_listed m s s₁ l) ∙ h) in
      let (own, q, all) =
        claims_of-each (Asked s') running (items m.spec.pools) j pool pvcs at made
          (create_claims-Asked running pvcs s₂ s' w e) in
      let (claim, made_so, asked) =
        new_claims-each (Asked s') running pool own i v less lower q all in
      let (a, b) = new_claim-key running pool t i v claim has made_so in
      subst (λ ns. N.Tried s' ns (claim_name running pool t i v)) a
        (subst (N.Tried s' claim.namespace) b asked)
