-- ===== src/Api/Helper/Names.antt =====
-- The names that helper.go derives from the name of a MinIO resource do not clash.
use text.Mathlib.TextLemmas.{append_cancel_left, append-nil}
use minio_operator.Base.{String, ◌<>◌, ◌≢◌, sym, ◌∙◌, arith, eq_iff}
use minio_operator.Api.Values.{Values}
use minio_operator.Api.Types.{Minio}
use minio_operator.Api.Helper.{
  minio_ci_service_name, minio_hl_service_name, minio_console_service_name,
}

suffix-ne-nil : (n s : String) → s ≢ "" → n ≢ n <> s
suffix-ne-nil n s h e = h (append_cancel_left n s "" (sym e ∙ sym (append-nil n)))

-- The three services of one MinIO resource have three different names.
pub service_names_distinct :
    {V : Values} (m : Minio V)
    → (minio_ci_service_name m ≢ minio_hl_service_name m)
      × (minio_ci_service_name m ≢ minio_console_service_name m)
      × (minio_hl_service_name m ≢ minio_console_service_name m)
unfolding minio_ci_service_name minio_hl_service_name minio_console_service_name
service_names_distinct m = (
  suffix-ne-nil m.name "hl" (ground (arith, eq_iff "hl" "")),
  suffix-ne-nil m.name "console" (ground (arith, eq_iff "console" "")),
  λ e. ground (arith, eq_iff "hl" "console", append_cancel_left m.name "hl" "console" e),
)
