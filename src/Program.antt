-- ===== src/Program.antt =====
-- main.go, and the functions SetupWithManager of the three controllers. controller-runtime is a
-- parameter: its calls return what they have changed.
pub mod Start
pub mod Registration
use minio_operator.Base.{ℕ, String, Bool, true, false}
use minio_operator.Base.Exec.{Reply, value, failure}
use minio_operator.Reconcile.Steps.{MinioReconciler}

-- `ctrl.Options`: what `main` sets of it.
pub record Options : Type 0 where
  pub metrics_bind_address : String
  pub port : ℕ
  pub health_probe_bind_address : String
  pub leader_election : Bool
  pub leader_election_id : String

-- The objects that controllers are set up for.
pub data Kind : Type 0 where
  minio_kind pod_kind service_kind : Kind

-- controller-runtime. `managed_by` is `ctrl.NewControllerManagedBy`; `complete` takes what the
-- reconciler is.
pub record Runtime : Type 1 where
  pub Manager : Type 0
  pub Builder : Type 0
  pub Error : Type 0
  pub new_manager : Options → Reply Error Manager
  pub managed_by : Manager → Builder
  pub for_kind : Builder → Kind → Builder
  pub complete : {R : Type 0} → Builder → R → Reply Error Manager
  pub add_healthz_check : Manager → String → Reply Error Manager
  pub add_readyz_check : Manager → String → Reply Error Manager
  -- `Start` returns when the manager stops.
  pub start : Manager → Reply Error (Unit {0})

-- How `main` ends: with `os.Exit(1)` behind a log entry, or by returning once the manager has run.
pub data Exit : Type 0 where
  exit_one : String → Exit
  returned : Exit

-- The flags of the command line.
pub record Flags : Type 0 where
  pub metrics_addr : String
  pub probe_addr : String
  pub enable_leader_election : Bool

-- The defaults of the flags.
abbrev pub default_flags : Flags
default_flags = record {
  metrics_addr = ":8080";
  probe_addr = ":8081";
  enable_leader_election = false;
}

-- The options that `main` passes to `ctrl.NewManager`.
abbrev pub options_of : Flags → Options
options_of flags = record {
  metrics_bind_address = flags.metrics_addr;
  port = 9443;
  health_probe_bind_address = flags.probe_addr;
  leader_election = flags.enable_leader_election;
  leader_election_id = "41b4c2f6.bob.com";
}

-- The reconciler that `main` sets up: `Client` and `Scheme`, no `KubeClient` and no `Recorder`.
abbrev pub main_reconciler : MinioReconciler
main_reconciler = record { kube_client = false; recorder = false }

module _ (C : Runtime) where
  -- `SetupWithManager` of `MinIOReconciler`; the other two controllers have the same text.
  abbrev pub setup_with_manager : {R : Type 0} → R → C.Manager → Reply C.Error C.Manager
  setup_with_manager r mgr =
      C.complete
        (C.for_kind (C.for_kind (C.for_kind (C.managed_by mgr) Kind.minio_kind) Kind.pod_kind)
          Kind.service_kind)
        r

  -- The one of `MinIOStatusReconciler`
  abbrev pub status_setup_with_manager : {R : Type 0} → R → C.Manager → Reply C.Error C.Manager
  status_setup_with_manager = setup_with_manager

  -- The one of `MinIOHealthCheckerReconciler`
  abbrev pub health_setup_with_manager : {R : Type 0} → R → C.Manager → Reply C.Error C.Manager
  health_setup_with_manager = setup_with_manager

  -- `mgr.Start`
  abbrev pub started : Reply C.Error (Unit {0}) → Exit
  started (value _) = returned
  started (failure _) = exit_one "problem running manager"

  abbrev pub with_readyz : Reply C.Error C.Manager → Exit
  with_readyz (value mgr) = started (C.start mgr)
  with_readyz (failure _) = exit_one "unable to set up ready check"

  abbrev pub with_healthz : Reply C.Error C.Manager → Exit
  with_healthz (value mgr) = with_readyz (C.add_readyz_check mgr "readyz")
  with_healthz (failure _) = exit_one "unable to set up health check"

  abbrev pub with_controller : Reply C.Error C.Manager → Exit
  with_controller (value mgr) = with_healthz (C.add_healthz_check mgr "healthz")
  with_controller (failure _) = exit_one "unable to create controller"

  abbrev pub with_manager : Reply C.Error C.Manager → Exit
  with_manager (value mgr) = with_controller (setup_with_manager main_reconciler mgr)
  with_manager (failure _) = exit_one "unable to start manager"

  -- `main`, from the flags that were parsed
  unfoldable pub main : Flags → Exit
  main flags = with_manager (C.new_manager (options_of flags))
