-- ===== src/Tests/Admins.antt =====
-- An admin client that is told that one address is healthy, and a file with credentials.
use minio_operator.Base.{String, true, none, [], ◌≡◌, ◌==◌, ◌↔◌, refl, arith}
use minio_operator.Base.Exec.{value}
use minio_operator.Api.Helper.{minio_server_host_address}
use minio_operator.Api.Admin.{Madmin, relaxed, with_transport, new_minio_admin, minio_health_check}
use minio_operator.Api.Admin.Probe.{minio_health_check_iff}
use minio_operator.Api.Admin.Credentials.{
  root_user, root_password, credentials_file, new_minio_admin-file,
}
use minio_operator.EnvFile.{Runes, codes, cut_prefix, is_space, parse_raw_configuration}
use minio_operator.EnvFile.Quoting.{IsKey}
use minio_operator.EnvFile.Lines.{IsWritable, render}
use minio_operator.Health.{create_transport}
use minio_operator.Tests.Data.{resource}

-- A client is its endpoint and its two keys; the state is the address that is healthy.
abbrev library : Madmin String
library = record {
  Client = String × Runes × Runes;
  Error = String;
  new_with_options = λ endpoint secure user password. value (endpoint, user, password);
  new_anonymous_client = λ endpoint secure. value (endpoint, [], []);
  set_custom_transport = λ clnt transport. clnt;
  healthy = λ clnt address. value (clnt.0 == address);
}

minio_health_check_iff_example :
    (minio_health_check library create_transport resource "store.apps.svc.cluster.local:443" ≡ true)
    ↔ ((clnt : library.Client) × (library.new_anonymous_client
            (minio_server_host_address resource)
            resource.spec.enable_cert
          ≡ value clnt)
        × (library.healthy
              (library.set_custom_transport clnt (relaxed create_transport))
              "store.apps.svc.cluster.local:443"
            ≡ value true))
minio_health_check_iff_example =
    minio_health_check_iff library create_transport resource "store.apps.svc.cluster.local:443"

abbrev user : Runes
user = codes "admin"

abbrev password : Runes
password = codes "a = b"

user-IsKey : IsKey root_user
unfolding is_space
user-IsKey = ground arith

password-IsKey : IsKey root_password
unfolding is_space
password-IsKey = ground arith

user_not_export : cut_prefix (codes "export") root_user ≡ none
unfolding cut_prefix
user_not_export = refl

password_not_export : cut_prefix (codes "export") root_password ≡ none
unfolding cut_prefix
password_not_export = refl

user-IsWritable : IsWritable (root_user, user)
user-IsWritable = record {
  key = user-IsKey;
  not_export = user_not_export;
  one_line = ground arith;
  fits = omega arith;
}

password-IsWritable : IsWritable (root_password, password)
password-IsWritable = record {
  key = password-IsKey;
  not_export = password_not_export;
  one_line = ground arith;
  fits = omega arith;
}

new_minio_admin-file_example :
    new_minio_admin library resource
      (parse_raw_configuration (render (credentials_file user password)))
      create_transport
    ≡ with_transport library create_transport (
        library.new_with_options
          (minio_server_host_address resource)
          resource.spec.enable_cert
          user
          password)
new_minio_admin-file_example =
    new_minio_admin-file library resource create_transport user password
      (user-IsWritable, (password-IsWritable, tt))
