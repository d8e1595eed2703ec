-- ===== src/Api/Helper.antt =====
-- api/v1alpha1/helper.go: names, labels, environment and owner of what belongs to a MinIO resource,
-- and the address under which the operator reaches the MinIO servers.
pub mod Names
use minio_operator.Base.{String, ◌<>◌, ℕ, Bool, Option, none, some, List, [], ◌∷◌, if◌then◌else◌}
use minio_operator.Base.{◌==◌, not}
use minio_operator.Base.Decimal.{itoa}
use minio_operator.Base.Dict.{insert}
use minio_operator.Base.Equality.{string_eq}
use minio_operator.Api.Constants.{
  minio_port_svc, minio_tls_port_svc, minio_label, group, version, minio_crd_resource_kind,
}
use minio_operator.Api.Values.{Values}
use minio_operator.Api.Objects.{Labels, EnvVar}
use minio_operator.Api.Types.{Minio}

-- `GetClusterDomain`
abbrev pub cluster_domain : String
cluster_domain = "cluster.local"

configured : Option String → Bool
configured none = Bool.false
configured (some name) = not (name == "")

-- `net.JoinHostPort`, for a host that holds no colon.
unfoldable pub join_host_port : String → String → String
join_host_port host port = host <> (":" <> port)

module _ {V : Values} where
  -- `HasConfigurationSecret`
  unfoldable pub has_configuration_secret : Minio V → Bool
  unfolding configured
  has_configuration_secret m = configured m.spec.configuration

  -- `GetEnvVars`
  pub get_env_vars : Minio V → Option (List (EnvVar V))
  get_env_vars m = m.spec.env

  -- `TLS`
  unfoldable pub tls : Minio V → Bool
  tls m = m.spec.enable_cert

  -- `MinIOCIServiceName`
  unfoldable pub minio_ci_service_name : Minio V → String
  minio_ci_service_name m = m.name

  -- `MinIOHLServiceName`
  unfoldable pub minio_hl_service_name : Minio V → String
  minio_hl_service_name m = m.name <> "hl"

  -- `MinIOConsoleServiceName`
  unfoldable pub minio_console_service_name : Minio V → String
  minio_console_service_name m = m.name <> "console"

  -- `MinIOFQDNServiceName`
  unfoldable pub minio_fqdn_service_name : Minio V → String
  unfolding minio_ci_service_name
  minio_fqdn_service_name m =
      minio_ci_service_name m <> ("." <> (m.namespace <> (".svc." <> cluster_domain)))

  -- The variable `port` of `MinIOServerHostAddress`.
  unfoldable pub host_port : Minio V → ℕ
  unfolding tls
  host_port m = if tls m then minio_port_svc else minio_tls_port_svc

  -- `MinIOServerHostAddress`
  unfoldable pub minio_server_host_address : Minio V → String
  unfolding minio_fqdn_service_name host_port itoa join_host_port
  minio_server_host_address m = join_host_port (minio_fqdn_service_name m) (itoa (host_port m))

  -- `DefaultPodEnv`
  unfoldable pub default_pod_env : Minio V → List (EnvVar V)
  default_pod_env m =
      record { name = "MINIO_STORAGE_CLASS_STANDARD"; value = "EC:0"; value_from = none } ∷ []

  -- `MinIOPodLabels`
  unfoldable pub minio_pod_labels : Minio V → Labels
  minio_pod_labels m = insert string_eq minio_label m.name []

  -- `OwnerRef`
  unfoldable pub owner_ref : Minio V → List V.OwnerReference
  owner_ref m = V.new_controller_ref group version minio_crd_resource_kind m.name m.uid ∷ []

  -- `ExposeMinIOSvc`
  unfoldable pub expose_minio_svc : Minio V → Bool
  expose_minio_svc m = m.spec.expose_services.minio

  -- `ExposeMinIOConsoleSvc`
  unfoldable pub expose_minio_console_svc : Minio V → Bool
  expose_minio_console_svc m = m.spec.expose_services.console
