-- ===== src/Reconcile/Main/Same.antt =====
-- The resource under other statuses, and what stays stored while `Reconcile` writes other services.
use mathlib.Core.Path.{subst}
use minio_operator.Base.{String, ◌<>◌, some, ◌≡◌, ◌≢◌, sym, ap, ◌∙◌}
use minio_operator.Api.Values.{Values}
use minio_operator.Api.Objects.{Service}
use minio_operator.Api.Types.{Minio, MinioStatus, DeployStatus}
use minio_operator.Api.Helper.{
  minio_ci_service_name, minio_hl_service_name, minio_console_service_name, minio_pod_labels,
  owner_ref, expose_minio_svc, expose_minio_console_svc, tls,
}
use minio_operator.Api.Helper.Names.{service_names_distinct}
use minio_operator.Service.{new_service_for_minio, new_console_service_for_minio}
use minio_operator.Cluster.{Cluster}
use minio_operator.Reconcile.Steps.{with_status}
use minio_operator.Reconcile.Steps.Keeps.{Stable, HasVersion}
use minio_operator.Reconcile.Services.Laws.{KeepsServices, KeepsOthers, Installed}

module _ {V : Values} (m : Minio V) where
  -- The resource, but for its status.
  abbrev pub Same : Minio V → Type 0
  Same x = (st : MinioStatus) × (x ≡ record m { status = st })

  pub Same-status : (x : Minio V) (d : DeployStatus) → Same x → Same (with_status x d)
  Same-status x d (st, e) = (record st { status = d }, ap (λ y. with_status y d) e)

  pub Same-HasVersion : HasVersion m → (x : Minio V) → Same x → HasVersion x
  Same-HasVersion w x (st, e) = subst HasVersion (sym e) w

  Same-name : (x : Minio V) → Same x → x.name ≡ m.name
  Same-name x (st, e) = ap (λ (y : Minio V). y.name) e

  -- The names of the three services differ, whatever the status.
  pub hl_apart :
      (x : Minio V)
      → Same x
      → (y : Minio V) → Same y
      → minio_console_service_name x ≢ minio_hl_service_name y
  unfolding minio_console_service_name minio_hl_service_name
  hl_apart x p y q e =
      let (_, _, apart) = service_names_distinct m in
      apart (
        sym (
          ap (λ n. n <> "console") (sym (Same-name x p)) ∙ e ∙ ap (λ n. n <> "hl") (Same-name y q)))

  pub ci_hl_apart :
      (x : Minio V)
      → Same x
      → (y : Minio V) → Same y
      → minio_ci_service_name x ≢ minio_hl_service_name y
  unfolding minio_ci_service_name minio_hl_service_name
  ci_hl_apart x p y q e =
      (service_names_distinct m).0 (sym (Same-name x p) ∙ e ∙ ap (λ n. n <> "hl") (Same-name y q))

  pub ci_console_apart :
      (x : Minio V)
      → Same x
      → (y : Minio V) → Same y
      → minio_ci_service_name x ≢ minio_console_service_name y
  unfolding minio_ci_service_name minio_console_service_name
  ci_console_apart x p y q e =
      (service_names_distinct m).1
        (sym (Same-name x p) ∙ e ∙ ap (λ n. n <> "console") (Same-name y q))

  module _ (K : Cluster V) (S : KeepsServices K) where
    -- What is installed for the resource with another status is installed for the resource.
    pub minio_of :
        (x : Minio V) (s : K.State)
        → Same x
        → Installed K S s x.namespace (minio_ci_service_name x) (new_service_for_minio x)
        → Installed K S s m.namespace (minio_ci_service_name m) (new_service_for_minio m)
    unfolding minio_ci_service_name new_service_for_minio minio_pod_labels owner_ref
        expose_minio_svc tls
    minio_of x s (st, e) =
        subst (λ y. Installed K S s y.namespace (minio_ci_service_name y) (new_service_for_minio y))
          e

    pub console_of :
        (x : Minio V) (s : K.State)
        → Same x
        → Installed K S s x.namespace
            (minio_console_service_name x)
            (new_console_service_for_minio x)
        → Installed K S s m.namespace
            (minio_console_service_name m)
            (new_console_service_for_minio m)
    unfolding minio_console_service_name new_console_service_for_minio minio_pod_labels owner_ref
        expose_minio_console_svc
    console_of x s (st, e) =
        subst
          (λ y.
            Installed K S s y.namespace (minio_console_service_name y)
              (new_console_service_for_minio y))
          e

    pub hl_of :
        (x : Minio V) (s : K.State)
        → Same x
        → Installed K S s x.namespace (minio_hl_service_name x) (new_console_service_for_minio x)
        → Installed K S s m.namespace (minio_hl_service_name m) (new_console_service_for_minio m)
    unfolding minio_hl_service_name new_console_service_for_minio minio_pod_labels owner_ref
        expose_minio_console_svc
    hl_of x s (st, e) =
        subst
          (λ y.
            Installed K S s y.namespace (minio_hl_service_name y) (new_console_service_for_minio y))
          e

module _ {V : Values} (K : Cluster V) (S : KeepsServices K) (O : KeepsOthers K S) (ns name : String)
    (svc : Service V) where
  -- A stored service stays while other services are written.
  pub stored_stays : Stable K (λ s. S.service s ns name ≡ some svc) (λ n. name ≢ n)
  stored_stays = record {
    get_minio = λ a b s p. ap (λ f. f ns name) (O.get_minio a b s) ∙ p;
    update_minio_status = λ m s p. ap (λ f. f ns name) (O.update_minio_status m s) ∙ p;
    list_claims = λ a l s p. ap (λ f. f ns name) (O.list_claims a l s) ∙ p;
    create_claim = λ c s p. ap (λ f. f ns name) (O.create_claim c s) ∙ p;
    get_service = λ a b s p. ap (λ f. f ns name) (O.get_service a b s) ∙ p;
    create_service = λ a x s other p. O.create_service a x s ns name other ∙ p;
    update_service = λ a x s other p. O.update_service a x s ns name other ∙ p;
    create_pod = λ a pod s p. ap (λ f. f ns name) (O.create_pod a pod s) ∙ p;
    update_pod = λ a pod s p. ap (λ f. f ns name) (O.update_pod a pod s) ∙ p;
    event = λ m k re me s p. ap (λ f. f ns name) (S.event_services s m k re me) ∙ p;
  }
