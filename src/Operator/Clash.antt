-- ===== src/Operator/Clash.antt =====
-- Two resources of one namespace, where a service of the one has the name of a service of the other.
use mathlib.Core.Path.{ap₂, subst, subst₂}
use minio_operator.Base.{
  ℕ, suc, String, Bool, false, true, some, List, [], ◌∷◌, map, refl, ◌≡◌, ◌≢◌, sym, ◌∙◌,
  if◌then◌else◌, arith,
}
use minio_operator.Base.Partial.{some_eq}
use minio_operator.Base.Exec.{ok}
use minio_operator.Api.Constants.{minio_port, console_port, minio_tls_port_svc, minio_port_svc}
use minio_operator.Api.Values.{Values}
use minio_operator.Api.Objects.{Service, ServicePort}
use minio_operator.Api.Types.{Minio}
use minio_operator.Api.Helper.{tls, minio_ci_service_name, minio_console_service_name}
use minio_operator.Service.{new_service_for_minio, new_console_service_for_minio}
use minio_operator.Service.Matching.{IsDeepDerivative, Matches, SamePorts}
use minio_operator.Cluster.{Cluster}
use minio_operator.StatusUpdate.Server.{IsOptimistic}
use minio_operator.Reconcile.Steps.{MinioReconciler}
use minio_operator.Reconcile.Steps.Keeps.{HasVersion}
use minio_operator.Reconcile.Services.Laws.{KeepsServices, KeepsOthers, Installed}
use minio_operator.Reconcile.Main.{reconcile}
use minio_operator.Reconcile.Main.Installed.{reconcile-Installed}

-- The port of the service of a resource is never the console's.
port_apart : (b : Bool) → (if b then minio_tls_port_svc else minio_port_svc) ≢ console_port
port_apart true e = omega (arith, e)
port_apart false e = omega (arith, e)

module _ {V : Values} where
  abbrev numbers : List (ServicePort V) → List ℕ
  numbers = map (λ p. p.port)

  same_numbers :
      (xs ys ports : List (ServicePort V))
      → SamePorts V xs ports
      → SamePorts V ys ports
      → numbers xs ≡ numbers ys
  same_numbers [] [] ports h h' = refl
  same_numbers [] (y ∷ ys) [] h h' = absurd h'
  same_numbers [] (y ∷ ys) (p ∷ ports) h h' = absurd h
  same_numbers (x ∷ xs) [] [] h h' = absurd h
  same_numbers (x ∷ xs) [] (p ∷ ports) h h' = absurd h'
  same_numbers (x ∷ xs) (y ∷ ys) [] h h' = absurd h
  same_numbers (x ∷ xs) (y ∷ ys) (p ∷ ports) ((_, e, _), es) ((_, e', _), es') =
      ap₂ ◌∷◌ (e ∙ sym e') (same_numbers xs ys ports es es')

  -- No service is what both the service of one resource and the console service of another should be.
  Matches-apart :
      (m m' : Minio V) (svc : Service V)
      → Matches V svc (new_console_service_for_minio m)
      → Matches V svc (new_service_for_minio m')
      → ⊥
  unfolding new_service_for_minio new_console_service_for_minio
  Matches-apart m m' svc h h' =
      let same =
        same_numbers (new_service_for_minio m').spec.ports
          (new_console_service_for_minio m).spec.ports svc.spec.ports h'.ports h.ports in
      port_apart (tls m') cc

  module _ (K : Cluster V) (S : KeepsServices K) where
    Installed-apart :
        (m m' : Minio V) (s : K.State)
        → m'.namespace ≡ m.namespace
        → minio_ci_service_name m' ≡ minio_console_service_name m
        → Installed K S s m'.namespace (minio_ci_service_name m') (new_service_for_minio m')
        → Installed K S s m.namespace
            (minio_console_service_name m)
            (new_console_service_for_minio m)
        → ⊥
    Installed-apart m m' s e n (svc', stored', matches') (svc, stored, matches) =
        let found = subst₂ (λ a b. S.service s a b ≡ some svc') e n stored' in
        Matches-apart m m' svc matches (
          subst (λ x. Matches V x (new_service_for_minio m')) (some_eq (sym found ∙ stored))
            matches')

module _ {V : Values} (K : Cluster V) (L : IsOptimistic K) (S : KeepsServices K)
    (O : KeepsOthers K S) (fuel : ℕ) (r : MinioReconciler) where
  -- On a server with optimistic concurrency that no other client writes to and that keeps services,
  -- given `DeepDerivative` as documented and the target ports not zero, where a resource's name is
  -- the name of another resource's console service, in one namespace: a `Reconcile` of the
  -- first that returns no error, from a stored resource that has a version and is not being
  -- deleted, never leaves the console service of the other as it should be.
  pub reconcile_undoes :
      (m m' : Minio V) (namespace name : String) (s s' : K.State)
      → L.stored s namespace name ≡ some m'
      → HasVersion m'
      → m'.deleting ≡ false
      → IsDeepDerivative V
      → V.from_int minio_port ≢ V.int_or_string_zero
      → V.from_int console_port ≢ V.int_or_string_zero
      → m'.namespace ≡ m.namespace
      → minio_ci_service_name m' ≡ minio_console_service_name m
      → reconcile K (suc (suc fuel)) r namespace name s ≡ (ok tt, s')
      → ¬ Installed K S s' m.namespace
          (minio_console_service_name m)
          (new_console_service_for_minio m)
  reconcile_undoes m m' namespace name s s' e w live d p q same n h =
      Installed-apart K S m m' s' same n
        (reconcile-Installed K L S O fuel r m' namespace name s s' e w live d p q h).0
