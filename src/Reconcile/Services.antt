-- ===== src/Reconcile/Services.antt =====
-- `checkMinIOSvc`, `checkConsoleSvc` and `checkMinIOHLSvc`. The three functions of the source are the
-- same text but for the values of a `ServiceCheck`; a check returns the resource, whose status it may
-- have set.
mod Cases
pub mod Laws
pub mod Keeps
pub mod Checked
pub mod Headless
pub mod Installed
use minio_operator.Base.{ℕ, String, Bool, Option, none, some, if◌then◌else◌}
use minio_operator.Base.Exec.{Exec, Reply, value, failure, call, pure, raise, ◌>>=◌, ◌>>◌}
use minio_operator.Api.Values.{Values}
use minio_operator.Api.Objects.{Service}
use minio_operator.Api.Types.{Minio, DeployStatus}
use minio_operator.Api.Helper.{
  minio_ci_service_name, minio_hl_service_name, minio_console_service_name,
}
use minio_operator.Service.{
  new_service_for_minio, new_console_service_for_minio, new_headless_service_for_minio,
  minio_svc_matches_specification, Mismatch,
}
use minio_operator.Cluster.{Cluster}
use minio_operator.Reconcile.Steps.{
  MinioReconciler, with_status, with_message, with_kube, record_event, update_status,
}

-- What tells the three functions apart: the service that is looked up, the one that is created, the
-- one that is compared with, and the texts.
pub record ServiceCheck (V : Values) : Type 0 where
  pub service_name : String
  pub created : Service V
  pub expected : Service V
  pub create_failed : String
  pub created_reason : String
  pub created_message : String
  pub update_failed : String
  pub updated_reason : String
  pub updated_message : String

module _ {V : Values} where
  -- `svc` with the labels, annotations and specification of `expected`
  abbrev pub overwritten : Service V → Service V → Service V
  overwritten svc expected = record svc {
    annotations = expected.annotations;
    labels = expected.labels;
    spec = expected.spec;
  }

  -- The values of `checkMinIOSvc`
  unfoldable pub minio_svc_check : Minio V → ServiceCheck V
  minio_svc_check m = record {
    service_name = minio_ci_service_name m;
    created = new_service_for_minio m;
    expected = new_service_for_minio m;
    create_failed = "MinIO Service Create Failed";
    created_reason = "SvcCreated";
    created_message = "MinIO Service Created";
    update_failed = "MinIO Service Update Failed";
    updated_reason = "SvcUpdated";
    updated_message = "MinIO Service Updated";
  }

  -- The values of `checkConsoleSvc`
  unfoldable pub console_svc_check : Minio V → ServiceCheck V
  console_svc_check m = record {
    service_name = minio_console_service_name m;
    created = new_console_service_for_minio m;
    expected = new_console_service_for_minio m;
    create_failed = "MinIO Console Service Create Failed";
    created_reason = "ConsoleSvcCreated";
    created_message = "MinIO Console Service Created";
    update_failed = "MinIO Console Service Created Failed";
    updated_reason = "ConsoleSvcUpdated";
    updated_message = "MinIO Console Service Updated";
  }

  -- The values of `checkMinIOHLSvc`; the service that it compares with is the console's.
  unfoldable pub minio_hl_svc_check : Minio V → ServiceCheck V
  minio_hl_svc_check m = record {
    service_name = minio_hl_service_name m;
    created = new_headless_service_for_minio m;
    expected = new_console_service_for_minio m;
    create_failed = "MinIO Headless Service Created Failed";
    created_reason = "HLSvcCreated";
    created_message = "MinIO Headless Service Created";
    update_failed = "MinIO Headless Service Created Failed";
    updated_reason = "SvcUpdated";
    updated_message = "MinIO Headless Service Updated";
  }

module _ {V : Values} (K : Cluster V) (fuel : ℕ) (r : MinioReconciler) where
  open K use {State, Error}

  -- A create or update that failed: the status says so, and the error is returned.
  unfoldable pub give_up : {A : Type 0} → Minio V → String → Error → Exec State Error A
  give_up m message e =
      update_status K fuel (with_message m DeployStatus.failed message) >>= λ _. raise e

  -- What follows the creation of a service.
  abbrev pub after_create :
      ServiceCheck V → Minio V → Reply Error (Service V) → Exec State Error (Minio V × Service V)
  after_create c m (failure e) = give_up m c.create_failed e
  after_create c m (value svc) =
      record_event K r m "Normal" c.created_reason c.created_message >>= λ _. pure (m, svc)

  -- The service is not found.
  unfoldable pub create_checked : ServiceCheck V → Minio V → Exec State Error (Minio V × Service V)
  unfolding give_up
  create_checked c m =
      let running = with_status m DeployStatus.running in
      update_status K fuel running >>= λ _.
      with_kube K r (call (K.create_service m.namespace c.created)) >>= λ reply.
      after_create c running reply

  -- What follows the update of a service.
  abbrev pub after_update :
      ServiceCheck V → Minio V → Reply Error (Service V) → Exec State Error (Minio V)
  after_update c m (failure e) = give_up m c.update_failed e
  after_update c m (value _) =
      record_event K r m "Normal" c.updated_reason c.updated_message >>= λ _. pure m

  -- The update of a service that does not match.
  abbrev pub if_mismatch :
      Option Mismatch → ServiceCheck V → Minio V → Service V → Exec State Error (Minio V)
  if_mismatch none c m svc = pure m
  if_mismatch (some _) c m svc =
      with_kube K r (call (K.update_service m.namespace (overwritten svc c.expected))) >>= λ reply.
      after_update c m reply

  -- The service, as it was found or created, is compared and overwritten if need be.
  unfoldable pub update_checked : ServiceCheck V → Minio V → Service V → Exec State Error (Minio V)
  unfolding give_up
  update_checked c m svc = if_mismatch (minio_svc_matches_specification V svc c.expected) c m svc

  -- What follows the look-up of a service.
  abbrev pub after_get :
      ServiceCheck V → Minio V → Reply Error (Service V) → Exec State Error (Minio V)
  after_get c m (value svc) = update_checked c m svc
  after_get c m (failure e) =
      if K.is_not_found e
      then create_checked c m >>= (λ (m', svc). update_checked c m' svc)
      else raise e

  unfoldable pub check_service : ServiceCheck V → Minio V → Exec State Error (Minio V)
  unfolding create_checked update_checked
  check_service c m = with_kube K r (call (K.get_service m.namespace c.service_name)) >>= λ reply.
      after_get c m reply

  -- `checkMinIOSvc`
  unfoldable pub check_minio_svc : Minio V → Exec State Error (Minio V)
  unfolding check_service minio_svc_check
  check_minio_svc m = check_service (minio_svc_check m) m

  -- `checkConsoleSvc`
  unfoldable pub check_console_svc : Minio V → Exec State Error (Minio V)
  unfolding check_service console_svc_check
  check_console_svc m = check_service (console_svc_check m) m

  -- `checkMinIOHLSvc`
  unfoldable pub check_minio_hl_svc : Minio V → Exec State Error (Minio V)
  unfolding check_service minio_hl_svc_check
  check_minio_hl_svc m = check_service (minio_hl_svc_check m) m
