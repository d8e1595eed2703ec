-- ===== src/Health.antt =====
-- `Reconcile` of controllers/minio_health_checker_controller.go. Of its result only `Requeue` is kept,
-- and the error; the probe of the MinIO servers, over the network, is a parameter.
pub mod Reported
pub mod Keeps
use minio_operator.Base.{ℕ, String, some, Bool, true, false, not, if◌then◌else◌}
use minio_operator.Base.Exec.{Exec, value, failure, call, pure, raise, ◌>>=◌}
use minio_operator.Api.Values.{Values}
use minio_operator.Api.Types.{Minio, DeployStatus, HealthStatus, zero_minio}
use minio_operator.Api.Admin.{HttpTransport, Madmin, minio_health_check}
use minio_operator.Cluster.{Cluster}
use minio_operator.StatusUpdate.{update_minio_status}

abbrev pub with_health : {V : Values} → Minio V → HealthStatus → Minio V
with_health m found = record m { status = record m.status { health_status = found } }

abbrev pub is_completed : DeployStatus → Bool
is_completed DeployStatus.completed = true
is_completed _ = false

-- The variable `healthStatus`
abbrev pub health_of : Bool → HealthStatus
health_of h = if h then HealthStatus.health else HealthStatus.un_health

-- `MinIOHealthCheck`, as the parameter `healthy`, sees the servers in the state of the cluster.
module _ {V : Values} (K : Cluster V) (healthy : Minio V → K.State → Bool) (fuel : ℕ) where
  open K use {State, Error}

  -- What follows the probe.
  unfoldable pub report_health : Minio V → Bool → Exec State Error Bool
  report_health m h = update_minio_status K fuel (with_health m (health_of h)) >>= λ _. pure (not h)

  -- `Reconcile`, once the resource has been read.
  unfoldable pub check_health : Minio V → Exec State Error Bool
  unfolding report_health
  check_health m = update_minio_status K fuel (with_health m HealthStatus.unknown) >>= λ _.
      if is_completed m.status.status
      then (λ s.
          report_health (with_health m HealthStatus.unknown)
            (healthy (with_health m HealthStatus.unknown) s) s)
      else pure true

  -- `Reconcile`: NotFound is returned, and after any other error of `Get` the resource is the zero value.
  unfoldable pub reconcile_health : String → String → Exec State Error Bool
  unfolding check_health
  reconcile_health namespace name = call (K.get_minio namespace name) >>= λ reply. elim reply [
    | value m ↦ check_health m
    | failure e ↦ if K.is_not_found e then raise e else check_health (zero_minio V)
  ]

-- `tls.VersionTLS12`
abbrev version_tls12 : ℕ
version_tls12 = 0x0303

-- `createTransport`
abbrev pub create_transport : HttpTransport
create_transport = record {
  proxy_from_environment = true;
  dial_timeout = 15;
  dial_keep_alive = 15;
  max_idle_conns_per_host = 1024;
  idle_conn_timeout = 15;
  response_header_timeout = 900;
  tls_handshake_timeout = 15;
  expect_continue_timeout = 15;
  disable_compression = true;
  tls_client_config = some (record { min_version = version_tls12; insecure_skip_verify = false });
}

-- `Reconcile` with the operator's own probe.
abbrev pub reconcile_health_probed :
    {V : Values} (K : Cluster V) → Madmin K.State → ℕ → String → String → Exec K.State K.Error Bool
reconcile_health_probed K M fuel = reconcile_health K (minio_health_check M create_transport) fuel
