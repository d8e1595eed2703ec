-- ===== src/Tests/Populated.antt =====
-- The pods on the server in memory.
use minio_operator.Base.{
  arith, String, ◌<>◌, List, [], ◌∷◌, Option, none, some, Bool-cases, ◌==◌, ◌≡◌, ◌⊎◌, inl, inr,
  refl, sym, ap,
}
use mathlib.Core.Path.{subst}
use minio_operator.Base.Exec.{Reply, value}
use minio_operator.Api.Objects.{Pod}
use minio_operator.Api.Types.{Minio}
use minio_operator.Reconcile.Main.Created.{KeepsPods}
use minio_operator.Reconcile.Main.Populated.{reconcile-Created}
use minio_operator.Tests.Data.{plain, pool, resource}
use minio_operator.Tests.Server.{
  Kept, server, server-IsOptimistic, stored_state, found_minio, status_written,
}
use minio_operator.Tests.Services.{server-KeepsServices}
use minio_operator.Base.Decimal.{itoa}
use minio_operator.Tests.Revisions.{server-KeepsRevisions}
use minio_operator.Tests.Succeeding.{after_run, run_succeeds}
use minio_operator.Tests.Whole.{complete, version_given}

abbrev HasPod : List (String × String) → String → String → Type 0
HasPod [] ns name = ⊥
HasPod (pod ∷ pods) ns name = (pod ≡ (ns, name)) ⊎ HasPod pods ns name

status_written_pods :
    (o : Option (Minio plain)) (m : Minio plain) (s : Kept) → (status_written o m s).1.pods ≡ s.pods
status_written_pods none m s = refl
status_written_pods (some c) m s = elim (Bool-cases (m.resource_version == c.resource_version)) [
  | inl e ↦ rw e refl
  | inr e ↦ rw e refl
]

pod_created :
    (ns : String) (pod stored : Pod plain) (s s' : Kept)
    → ◌≡◌ {A = Reply server.Error (Pod plain) × Kept}
        (value pod, record s { pods = (ns, pod.name) ∷ s.pods })
        (value stored, s')
    → HasPod s'.pods ns pod.name
pod_created ns pod stored s s' h =
    subst (λ (t : Kept). HasPod t.pods ns pod.name) (ap (λ p. p.1) h) (inl refl)

server-KeepsPods : KeepsPods server
server-KeepsPods = record {
  Has = λ s. HasPod s.pods;
  create_value = λ ns pod stored s s' h. pod_created ns pod stored s s' h;
  stays = λ ns name. record {
    get_minio = λ _ _ s p. p;
    update_minio_status = λ m s p.
        subst (λ l. HasPod l ns name)
          (sym (status_written_pods (found_minio s.minio m.namespace m.name) m s)) p;
    list_claims = λ _ _ s p. p;
    create_claim = λ _ s p. p;
    get_service = λ _ _ s p. p;
    create_service = λ _ _ s _ p. p;
    update_service = λ _ _ s _ p. p;
    create_pod = λ _ _ s p. inr p;
    update_pod = λ _ _ s p. p;
    event = λ _ _ _ _ s p. p;
  };
}

-- The second pod of the pool.
reconcile-Created_example : server-KeepsPods.Has after_run "apps" (pool.name <> ("-" <> itoa 1))
reconcile-Created_example =
    reconcile-Created server server-IsOptimistic server-KeepsServices server-KeepsPods 0 complete
      server-KeepsRevisions resource "apps" "store" stored_state after_run [] pool 0 1 refl
      version_given refl (inl (refl, refl)) refl tt (omega arith) run_succeeds
