-- ===== src/Reconcile/Main/Revisions.antt =====
-- What no call of `Reconcile` but those on revisions changes.
use minio_operator.Base.{String, Option, ◌≡◌, ◌∙◌}
use minio_operator.Api.Values.{Values}
use minio_operator.Cluster.{Cluster, Revision}
use minio_operator.Revision.Laws.{KeepsRevisions}
use minio_operator.Reconcile.Steps.Keeps.{Stable}

-- The revisions of a state stay what they are.
pub same_revisions :
    {V : Values} (K : Cluster V) (W : KeepsRevisions K)
    (g : String → String → Option (Revision V K.Raw))
    → Stable K (λ s. W.revision s ≡ g) (λ _. Unit)
same_revisions K W g = record {
  get_minio = λ a b s p. W.get_minio a b s ∙ p;
  update_minio_status = λ m s p. W.update_minio_status m s ∙ p;
  list_claims = λ a l s p. W.list_claims a l s ∙ p;
  create_claim = λ c s p. W.create_claim c s ∙ p;
  get_service = λ a b s p. W.get_service a b s ∙ p;
  create_service = λ a x s other p. W.create_service a x s ∙ p;
  update_service = λ a x s other p. W.update_service a x s ∙ p;
  create_pod = λ a pod s p. W.create_pod a pod s ∙ p;
  update_pod = λ a pod s p. W.update_pod a pod s ∙ p;
  event = λ m k re me s p. W.event m k re me s ∙ p;
}
