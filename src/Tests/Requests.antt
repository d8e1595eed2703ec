-- ===== src/Tests/Requests.antt =====
-- The claims on the server in memory.
use mathlib.Core.Path.{subst}
use minio_operator.Base.{
  arith, String, ◌<>◌, List, [], ◌∷◌, ◌++◌, Option, none, some, Bool-cases, ◌==◌, ◌≡◌, ◌⊎◌, inl,
  inr, refl, sym,
}
use minio_operator.Base.Decimal.{itoa}
use minio_operator.Base.Exec.{ok}
use minio_operator.Base.Partial.{for_range, for_range_flat}
use minio_operator.Api.Objects.{Claim}
use minio_operator.Api.Types.{Minio, DeployStatus}
use minio_operator.Claims.{new_claim, new_persistent_volume_claim_for_minio_pool}
use minio_operator.StatusUpdate.{update_minio_status_with_retry}
use minio_operator.Reconcile.Steps.{with_status}
use minio_operator.Reconcile.Volumes.{claims_of, create_claims, check_pvc}
use minio_operator.Reconcile.Volumes.Tried.{NotesRequests, check_pvc_tries}
use minio_operator.Tests.Data.{plain, pool, template, resource}
use minio_operator.Tests.Server.{
  Kept, server, server-IsOptimistic, stored_state, found_minio, status_written,
}
use minio_operator.Tests.Whole.{complete, version_given}

abbrev HasClaim : List (Claim plain) → String → String → Type 0
HasClaim [] ns name = ⊥
HasClaim (c ∷ claims) ns name = ((c.namespace ≡ ns) × (c.name ≡ name)) ⊎ HasClaim claims ns name

last-HasClaim :
    (claims : List (Claim plain)) (c : Claim plain) → HasClaim (claims ++ c ∷ []) c.namespace c.name
last-HasClaim [] c = inl (refl, refl)
last-HasClaim (_ ∷ claims) c = inr (last-HasClaim claims c)

longer-HasClaim :
    (claims : List (Claim plain)) (c : Claim plain) (ns name : String)
    → HasClaim claims ns name
    → HasClaim (claims ++ c ∷ []) ns name
longer-HasClaim [] c ns name h = elim h [ ]
longer-HasClaim (_ ∷ claims) c ns name (inl h) = inl h
longer-HasClaim (_ ∷ claims) c ns name (inr h) = inr (longer-HasClaim claims c ns name h)

status_written_claims :
    (o : Option (Minio plain)) (m : Minio plain) (s : Kept)
    → (status_written o m s).1.claims ≡ s.claims
status_written_claims none m s = refl
status_written_claims (some c) m s = elim (Bool-cases (m.resource_version == c.resource_version)) [
  | inl e ↦ rw e refl
  | inr e ↦ rw e refl
]

server-NotesRequests : NotesRequests server
server-NotesRequests = record {
  Tried = λ s. HasClaim s.claims;
  tries = λ claim s. last-HasClaim s.claims claim;
  stays = λ ns name. record {
    get_minio = λ _ _ s p. p;
    update_minio_status = λ m s p.
        subst (λ l. HasClaim l ns name)
          (sym (status_written_claims (found_minio s.minio m.namespace m.name) m s)) p;
    list_claims = λ _ _ s p. p;
    create_claim = λ c s p. longer-HasClaim s.claims c ns name p;
    get_service = λ _ _ s p. p;
    create_service = λ _ _ s _ p. p;
    update_service = λ _ _ s _ p. p;
    create_pod = λ _ _ s p. p;
    update_pod = λ _ _ s p. p;
    event = λ _ _ _ _ s p. p;
  };
}

abbrev after_claims : Kept
after_claims = (check_pvc server 2 complete resource stored_state).1

claims_created :
    check_pvc server 2 complete resource stored_state
    ≡ (ok (with_status resource DeployStatus.running), after_claims)
unfolding check_pvc create_claims claims_of update_minio_status_with_retry
    new_persistent_volume_claim_for_minio_pool new_claim for_range_flat for_range
claims_created = refl

-- The claim of the second server and the first volume.
check_pvc_tries_example :
    server-NotesRequests.Tried after_claims "apps"
      ("store" <> ("-" <> ("pool" <> ("-" <> (itoa 1 <> ("-" <> ("data" <> ("-" <> itoa 0))))))))
check_pvc_tries_example =
    check_pvc_tries server server-IsOptimistic server-NotesRequests 0 complete resource
      (with_status resource DeployStatus.running) stored_state stored_state after_claims pool
      template 0 1 0 version_given refl claims_created refl refl (omega arith) (omega arith)
