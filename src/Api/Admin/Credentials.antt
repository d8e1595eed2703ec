-- ===== src/Api/Admin/Credentials.antt =====
-- From the text of a configuration file to the credentials of the admin client.
use mathlib.Core.List.{foldl}
use minio_operator.Base.{String, false, ◌<>◌, List, [], ◌∷◌, All, ◌==◌, ◌≡◌, refl, arith, eq_iff}
use minio_operator.Api.Values.{Values}
use minio_operator.Api.Types.{Minio}
use minio_operator.Api.Helper.{
  tls, minio_fqdn_service_name, host_port, join_host_port, minio_server_host_address,
}
use minio_operator.EnvFile.{Runes, codes, apply_entry, key_value, parse_raw_configuration}
use minio_operator.EnvFile.Lines.{IsWritable, render, parse_raw_configuration-render}
use minio_operator.Api.Admin.{
  HttpTransport, Madmin, details, credentials_for, get_minio_tenant_details, with_transport,
  new_minio_admin, new_minio_admin_for_address,
}
use minio_operator.Base.Decimal.{itoa}
use text.Mathlib.TextLemmas.{append-ne-nil_of_right_ne-nil, append-eq-nil_iff}

-- The keys of the two lines.
abbrev pub root_user : Runes
root_user = codes "MINIO_ROOT_USER"

abbrev pub root_password : Runes
root_password = codes "MINIO_ROOT_PASSWORD"

abbrev pub credentials_file : Runes → Runes → List (Runes × Runes)
credentials_file user password = (root_user, user) ∷ (root_password, password) ∷ []

credentials_for_file :
    (host : String) (user password : Runes)
    → credentials_for host (
        foldl
          (λ config e. apply_entry config (key_value e.0 e.1))
          []
          (credentials_file user password))
      ≡ details host user password
unfolding credentials_for apply_entry
credentials_for_file host user password = refl

host_given : {V : Values} (m : Minio V) → (minio_server_host_address m == "") ≡ false
unfolding minio_server_host_address join_host_port
host_given m =
    let joined =
      append-ne-nil_of_right_ne-nil (minio_fqdn_service_name m) {t = ":" <> itoa (host_port m)}
        (λ e. ground (arith, eq_iff ":" "", (append-eq-nil_iff.0 e).0)) in
    ground (arith, eq_iff (minio_server_host_address m) "")

module _ {V : Values} {S : Type 0} (M : Madmin S) where
  -- A configuration file that sets MINIO_ROOT_USER and MINIO_ROOT_PASSWORD, each on a line that can be
  -- written, makes NewMinIOAdmin build its client from the address of the resource, its use of TLS,
  -- and exactly that user and that password.
  pub new_minio_admin-file :
      (m : Minio V) (transport : HttpTransport) (user password : Runes)
      → All IsWritable (credentials_file user password)
      → new_minio_admin M m
          (parse_raw_configuration (render (credentials_file user password)))
          transport
        ≡ with_transport M transport
            (M.new_with_options (minio_server_host_address m) m.spec.enable_cert user password)
  unfolding new_minio_admin new_minio_admin_for_address get_minio_tenant_details tls
  new_minio_admin-file m transport user password h =
      rw
        (
          host_given m,
          parse_raw_configuration-render (credentials_file user password) h,
          credentials_for_file (minio_server_host_address m) user password,
        )
        refl
