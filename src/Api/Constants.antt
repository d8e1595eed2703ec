-- ===== src/Api/Constants.antt =====
-- api/v1alpha1/constants.go: the constants that the operator uses.
use minio_operator.Base.{ℕ, String}

abbrev pub minio_server_name : String
minio_server_name = "minio"

abbrev pub minio_crd_resource_kind : String
minio_crd_resource_kind = "MinIO"

abbrev pub minio_cert_path : String
minio_cert_path = "/tmp/certs"

-- `MinIOLable`
abbrev pub minio_label : String
minio_label = "v1alpha1.bob.com/minio"

-- `PoolLabel`, spelt as in the source
abbrev pub pool_label : String
pool_label = "v1alphal1.bob.com/pool"

abbrev pub minio_port : ℕ
minio_port = 9000

abbrev pub minio_port_svc : ℕ
minio_port_svc = 80

abbrev pub minio_tls_port_svc : ℕ
minio_tls_port_svc = 443

abbrev pub minio_service_http_port_name : String
minio_service_http_port_name = "http-minio"

abbrev pub minio_service_https_port_name : String
minio_service_https_port_name = "https-minio"

abbrev pub console_port : ℕ
console_port = 9090

abbrev pub console_service_port_name : String
console_service_port_name = "http-console"

abbrev pub console_tls_port : ℕ
console_tls_port = 9443

-- `GroupVersion` of groupversion_info.go
abbrev pub group : String
group = "minio.bob.com"

abbrev pub version : String
version = "v1alpha1"
