-- ===== src/Reconcile/Main/Installed.antt =====
-- What a `Reconcile` that succeeds leaves behind.
use minio_operator.Base.{ℕ, suc, String, false, some, ◌≡◌, ◌≢◌, refl, sym, ◌∙◌}
use minio_operator.Base.Exec.{ok, >>=-eq-ok}
use minio_operator.Base.Ensures.{ok-Post}
use minio_operator.Api.Constants.{minio_port, console_port}
use minio_operator.Api.Values.{Values}
use minio_operator.Api.Types.{Minio}
use minio_operator.Api.Helper.{
  minio_ci_service_name, minio_hl_service_name, minio_console_service_name,
}
use minio_operator.Service.{new_service_for_minio, new_console_service_for_minio}
use minio_operator.Service.Matching.{IsDeepDerivative}
use minio_operator.Cluster.{Cluster}
use minio_operator.StatusUpdate.Server.{IsOptimistic}
use minio_operator.Reconcile.Steps.{MinioReconciler}
use minio_operator.Reconcile.Steps.Keeps.{HasVersion}
use minio_operator.Reconcile.Services.{check_minio_svc, check_console_svc, check_minio_hl_svc}
use minio_operator.Reconcile.Services.Laws.{KeepsServices, KeepsOthers, Installed}
use minio_operator.Reconcile.Services.Installed.{
  check_minio_svc-Installed, check_console_svc-Installed, check_minio_hl_svc-Installed,
}
use minio_operator.Reconcile.Main.{initial_status, sync_revision, sync_resources, reconcile}
use minio_operator.Reconcile.Main.Keeps.{
  check_minio_svc-Ensures, check_console_svc-Ensures, check_minio_hl_svc-Ensures,
}
use minio_operator.Reconcile.Main.Tail.{
  from_minio_hl_svc, from_console_svc, from_pvc-Ensures, from_minio_hl_svc-Ensures,
  from_console_svc-Ensures,
}
use minio_operator.Reconcile.Main.Ends.{anything}
use minio_operator.Reconcile.Main.Begins.{initial_status-Ensures}
use minio_operator.Reconcile.Main.Outcomes.{reconcile_live_lem}
use minio_operator.Reconcile.Main.Same.{
  Same, Same-status, Same-HasVersion, hl_apart, ci_hl_apart, ci_console_apart, minio_of, console_of,
  hl_of, stored_stays,
}

module _ {V : Values} (K : Cluster V) (L : IsOptimistic K) (S : KeepsServices K)
    (O : KeepsOthers K S) (fuel : ℕ) (r : MinioReconciler) (old_minio m : Minio V)
    (w : HasVersion m) (d : IsDeepDerivative V)
    (minio_given : V.from_int minio_port ≢ V.int_or_string_zero)
    (console_given : V.from_int console_port ≢ V.int_or_string_zero) where
  abbrev f : ℕ
  f = suc (suc fuel)

  abbrev Anywhere : K.State → Type 0
  Anywhere _ = Unit

  -- From the check of the headless service on.
  hl_part :
      (x : Minio V) (s s' : K.State)
      → Same m x
      → from_minio_hl_svc K f r old_minio x s ≡ (ok tt, s')
      → Installed K S s' m.namespace (minio_hl_service_name m) (new_console_service_for_minio m)
  hl_part x s s' same h =
      let (y, s₁, e₁, e₂) = >>=-eq-ok (check_minio_hl_svc K f r x) _ h in
      let (svc, stored, matches) =
        check_minio_hl_svc-Installed K S f r x y s s₁ console_given d e₁ in
      let same_y =
        (ok-Post Anywhere (Same m) e₁ (
          check_minio_hl_svc-Ensures K (anything K) L S fuel r (Same m) (Same-HasVersion m w)
            (Same-status m) x same tt s tt)).0 in
      let stays = stored_stays K S O x.namespace (minio_hl_service_name x) svc in
      let kept =
        (ok-Post (λ t. S.service t x.namespace (minio_hl_service_name x) ≡ some svc) (λ _. Unit) e₂
          (from_pvc-Ensures K stays L S fuel r (Same m) (Same-HasVersion m w) (Same-status m)
            old_minio y same_y s₁ stored)).1 in
      hl_of m K S x s' same (svc, kept, matches)

  -- From the check of the console service on.
  console_part :
      (x : Minio V) (s s' : K.State)
      → Same m x
      → from_console_svc K f r old_minio x s ≡ (ok tt, s')
      → Installed K S s' m.namespace
          (minio_console_service_name m)
          (new_console_service_for_minio m)
        × Installed K S s' m.namespace (minio_hl_service_name m) (new_console_service_for_minio m)
  console_part x s s' same h =
      let (y, s₁, e₁, e₂) = >>=-eq-ok (check_console_svc K f r x) _ h in
      let (svc, stored, matches) =
        check_console_svc-Installed K S f r x y s s₁ console_given d e₁ in
      let same_y =
        (ok-Post Anywhere (Same m) e₁ (
          check_console_svc-Ensures K (anything K) L S fuel r (Same m) (Same-HasVersion m w)
            (Same-status m) x same tt s tt)).0 in
      let stays = stored_stays K S O x.namespace (minio_console_service_name x) svc in
      let kept =
        (ok-Post (λ t. S.service t x.namespace (minio_console_service_name x) ≡ some svc)
          (λ _. Unit) e₂
          (from_minio_hl_svc-Ensures K stays L S fuel r (Same m) (Same-HasVersion m w)
            (Same-status m) old_minio (hl_apart m x same) y same_y s₁ stored)).1 in
      (console_of m K S x s' same (svc, kept, matches), hl_part y s₁ s' same_y e₂)

  -- From the check of the service on.
  pub sync_resources-Installed :
      (x : Minio V) (s s' : K.State)
      → Same m x
      → sync_resources K f r old_minio x s ≡ (ok tt, s')
      → Installed K S s' m.namespace (minio_ci_service_name m) (new_service_for_minio m)
        × Installed K S s' m.namespace
            (minio_console_service_name m)
            (new_console_service_for_minio m)
        × Installed K S s' m.namespace (minio_hl_service_name m) (new_console_service_for_minio m)
  unfolding sync_resources
  sync_resources-Installed x s s' same h =
      let (y, s₁, e₁, e₂) = >>=-eq-ok (check_minio_svc K f r x) _ h in
      let (svc, stored, matches) = check_minio_svc-Installed K S f r x y s s₁ minio_given d e₁ in
      let same_y =
        (ok-Post Anywhere (Same m) e₁ (
          check_minio_svc-Ensures K (anything K) L S fuel r (Same m) (Same-HasVersion m w)
            (Same-status m) x same tt s tt)).0 in
      let stays = stored_stays K S O x.namespace (minio_ci_service_name x) svc in
      let kept =
        (ok-Post (λ t. S.service t x.namespace (minio_ci_service_name x) ≡ some svc) (λ _. Unit) e₂
          (from_console_svc-Ensures K stays L S fuel r (Same m) (Same-HasVersion m w)
            (Same-status m) old_minio (ci_hl_apart m x same) (ci_console_apart m x same) y same_y s₁
            stored)).1 in
      let (console, headless) = console_part y s₁ s' same_y e₂ in
      (minio_of m K S x s' same (svc, kept, matches), console, headless)

module _ {V : Values} (K : Cluster V) (L : IsOptimistic K) (S : KeepsServices K)
    (O : KeepsOthers K S) (fuel : ℕ) (r : MinioReconciler) where
  -- On a server with optimistic concurrency that no other client writes to and that keeps services,
  -- given `DeepDerivative` as documented and the target ports not zero: where `Reconcile` of a stored
  -- resource that has a version and is not being deleted returns no error, then at its end the three
  -- names hold a service each; the first two match what the operator wants, and the one under the
  -- headless service's name matches the console service.
  pub reconcile-Installed :
      (m : Minio V) (namespace name : String) (s s' : K.State)
      → L.stored s namespace name ≡ some m
      → HasVersion m
      → m.deleting ≡ false
      → IsDeepDerivative V
      → V.from_int minio_port ≢ V.int_or_string_zero
      → V.from_int console_port ≢ V.int_or_string_zero
      → reconcile K (suc (suc fuel)) r namespace name s ≡ (ok tt, s')
      → Installed K S s' m.namespace (minio_ci_service_name m) (new_service_for_minio m)
        × Installed K S s' m.namespace
            (minio_console_service_name m)
            (new_console_service_for_minio m)
        × Installed K S s' m.namespace (minio_hl_service_name m) (new_console_service_for_minio m)
  reconcile-Installed m namespace name s s' e w live d p q h =
      let f = suc (suc fuel) in
      let h₁ =
        sym (reconcile_live_lem K f r m namespace name s s (L.get_stored s namespace name m e) live)
        ∙ h in
      let (m', s₂, e₂, h₂) = >>=-eq-ok (initial_status K f r m) _ h₁ in
      let (old_minio, s₃, _, h₃) = >>=-eq-ok (sync_revision K f r m') _ h₂ in
      let same =
        (ok-Post {S = K.State} (λ _. Unit {0}) (Same m) e₂
          (initial_status-Ensures K (anything K) L fuel r (Same m) (Same-HasVersion m w)
            (Same-status m) m (m.status, refl) s tt)).0 in
      sync_resources-Installed K L S O fuel r old_minio m w d p q m' s₃ s' same h₃
