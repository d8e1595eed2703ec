-- ===== src/Api/Admin.antt =====
-- The admin client and the probe of api/v1alpha1/helper.go: NewMinIOAdmin, NewMinIOAdminForAddress,
-- getMinIOTenantDetails and MinIOHealthCheck. The madmin library is a parameter.
pub mod Credentials
pub mod Probe
use minio_operator.Base.{ℕ, String, Option, Bool, true, false, none, some, if◌then◌else◌, ◌==◌}
use minio_operator.Base.Exec.{Reply, value, failure}
use minio_operator.Api.Values.{Values}
use minio_operator.Api.Types.{Minio}
use minio_operator.Api.Helper.{tls, minio_server_host_address}
use minio_operator.EnvFile.{Runes, codes, Config, get}

-- `tls.Config`: what the operator sets of it.
pub record TlsConfig : Type 0 where
  pub min_version : ℕ
  pub insecure_skip_verify : Bool

-- `http.Transport`: what the operator sets of it, with times in seconds. `proxy_from_environment` says
-- that `Proxy` is `http.ProxyFromEnvironment`; the dialer has the two fields `dial_timeout` and
-- `dial_keep_alive`.
pub record HttpTransport : Type 0 where
  pub proxy_from_environment : Bool
  pub dial_timeout : ℕ
  pub dial_keep_alive : ℕ
  pub max_idle_conns_per_host : ℕ
  pub idle_conn_timeout : ℕ
  pub response_header_timeout : ℕ
  pub tls_handshake_timeout : ℕ
  pub expect_continue_timeout : ℕ
  pub disable_compression : Bool
  pub tls_client_config : Option TlsConfig

-- madmin. A client is a value; what it is told of the MinIO servers depends on
-- the state `S` of the cluster.
pub record Madmin (S : Type 0) : Type 1 where
  pub Client : Type 0
  pub Error : Type 0
  -- `madmin.NewWithOptions` with an endpoint, `Secure` and static credentials
  pub new_with_options : String → Bool → Runes → Runes → Reply Error Client
  -- `madmin.NewAnonymousClient`
  pub new_anonymous_client : String → Bool → Reply Error Client
  pub set_custom_transport : Client → HttpTransport → Client
  -- the `Healthy` of the result of `Healthy`
  pub healthy : Client → S → Reply Error Bool

abbrev with_config : HttpTransport → Option TlsConfig → HttpTransport
with_config transport none = transport
with_config transport (some config) = record transport {
  tls_client_config = some (record config { insecure_skip_verify = true });
}

-- `if tr.TLSClientConfig != nil { tr.TLSClientConfig.InsecureSkipVerify = true }`
abbrev pub relaxed : HttpTransport → HttpTransport
relaxed transport = with_config transport transport.tls_client_config

-- A text is the error of the operator's own.
pub data AdminError (E : Type 0) : Type 0 where
  refused : String → AdminError E
  library : E → AdminError E

-- The text of an error, or the host and the two keys.
pub data Details : Type 0 where
  rejected : String → Details
  details : String → Runes → Runes → Details

-- The two look-ups, once the host is known.
unfoldable pub credentials_for : String → Config → Details
credentials_for host minio_secret = elim (get (codes "accesskey") minio_secret) [
  | none ↦ rejected "MinIO server accesskey not set"
  | some access_key ↦ elim (get (codes "secretkey") minio_secret) [
    | none ↦ rejected "MinIO server secretkey not set"
    | some secret_key ↦ details host access_key secret_key
  ]
]

-- `getMinIOTenantDetails`
unfoldable pub get_minio_tenant_details : {V : Values} → Minio V → String → Config → Details
unfolding credentials_for minio_server_host_address
get_minio_tenant_details m address minio_secret =
    let host = if address == "" then minio_server_host_address m else address in
    if host == "" then rejected "MinIO server host is empty" else credentials_for host minio_secret

module _ {S : Type 0} (M : Madmin S) where
  abbrev pub with_transport :
      HttpTransport → Reply M.Error M.Client → Reply (AdminError M.Error) M.Client
  with_transport transport (value clnt) = value (M.set_custom_transport clnt transport)
  with_transport transport (failure e) = failure (library e)

  abbrev pub is_healthy : Reply M.Error Bool → Bool
  is_healthy (value healthy) = healthy
  is_healthy (failure e) = false

  abbrev pub probe : HttpTransport → S → Reply M.Error M.Client → Bool
  probe transport s (value clnt) = is_healthy (M.healthy (M.set_custom_transport clnt transport) s)
  probe transport s (failure e) = false

module _ {V : Values} {S : Type 0} (M : Madmin S) where
  -- `NewMinIOAdminForAddress`, once the details are known.
  abbrev pub client_for : Minio V → HttpTransport → Details → Reply (AdminError M.Error) M.Client
  client_for m transport (rejected text) = failure (refused text)
  client_for m transport (details host access_key secret_key) =
      with_transport M transport (M.new_with_options host m.spec.enable_cert access_key secret_key)

  -- `NewMinIOAdminForAddress`
  unfoldable pub new_minio_admin_for_address :
      Minio V → String → Config → HttpTransport → Reply (AdminError M.Error) M.Client
  unfolding get_minio_tenant_details tls
  new_minio_admin_for_address m address minio_secret transport =
      client_for m transport (get_minio_tenant_details m address minio_secret)

  -- `NewMinIOAdmin`
  unfoldable pub new_minio_admin :
      Minio V → Config → HttpTransport → Reply (AdminError M.Error) M.Client
  unfolding new_minio_admin_for_address
  new_minio_admin m minio_secret transport = new_minio_admin_for_address m "" minio_secret transport

  -- `MinIOHealthCheck`
  unfoldable pub minio_health_check : HttpTransport → Minio V → S → Bool
  unfolding minio_server_host_address tls
  minio_health_check transport m s =
      probe M (relaxed transport) s (M.new_anonymous_client (minio_server_host_address m) (tls m))
