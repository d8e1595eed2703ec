-- ===== src/Program/Start.antt =====
-- Whether `main` comes to start its manager.
use minio_operator.Base.{◌≡◌, ◌⊎◌, inl, inr, refl, ap, List, [], ◌∷◌}
use mathlib.Core.List.{foldl}
use minio_operator.Base.Exec.{Reply, value, failure}
use minio_operator.Program.{
  Kind, Runtime, exit_one, Flags, options_of, main_reconciler, setup_with_manager,
  status_setup_with_manager, health_setup_with_manager, with_controller, with_manager, main,
}

-- What controller-runtime documents of `For`: it is to be called once. After a second call, and
-- whatever is called behind it, `Complete` returns an error.
pub record ForOnce (C : Runtime) : Type 1 where
  pub second_call :
      {R : Type 0} (b : C.Builder) (k k' : Kind) (more : List Kind) (r : R)
      → (e : C.Error) × (C.complete (foldl C.for_kind (C.for_kind (C.for_kind b k) k') more) r
          ≡ failure e)

module _ (C : Runtime) (F : ForOnce C) where
  -- None of the three functions SetupWithManager succeeds, whatever the reconciler.
  setups_fail :
      {R : Type 0} (r : R) (mgr : C.Manager)
      → ((e : C.Error) × (setup_with_manager C r mgr ≡ failure e))
        × ((e : C.Error) × (status_setup_with_manager C r mgr ≡ failure e))
        × ((e : C.Error) × (health_setup_with_manager C r mgr ≡ failure e))
  setups_fail r mgr =
      let x =
        F.second_call (C.managed_by mgr) Kind.minio_kind Kind.pod_kind (Kind.service_kind ∷ []) r in
      (x, x, x)

  with_manager_lem :
      (reply : Reply C.Error C.Manager)
      → (with_manager C reply ≡ exit_one "unable to start manager")
        ⊎ (with_manager C reply ≡ exit_one "unable to create controller")
  with_manager_lem (failure e) = inl refl
  with_manager_lem (value mgr) =
      let (e, h) = (setups_fail main_reconciler mgr).0 in inr (ap (with_controller C) h)

  -- With a controller-runtime whose `For` may be called once, `main` ends with exit code 1 before any
  -- manager is started, whatever the flags: the manager cannot be made, or the controller cannot.
  pub main_never_starts :
      (flags : Flags)
      → (main C flags ≡ exit_one "unable to start manager")
        ⊎ (main C flags ≡ exit_one "unable to create controller")
  unfolding main
  main_never_starts flags = with_manager_lem (C.new_manager (options_of flags))
