-- ===== src/StatusUpdate.antt =====
-- `updateMinIOStatusWithRetry` of controllers/minio_controller.go, and `updateMinIOStatus` of the two
-- other controllers. The recursion takes fuel: one more than the conflicts that the server reports.
pub mod Server
pub mod Retry
pub mod Same
use minio_operator.Base.{ℕ, zero, suc, Bool, true, ◌&&◌, if◌then◌else◌}
use minio_operator.Base.Exec.{
  Exec, value, failure, call, must, pure, raise, out_of_fuel, ◌>>=◌, ◌>>◌,
}
use minio_operator.Api.Values.{Values}
use minio_operator.Api.Types.{Minio, zero_spec}
use minio_operator.Cluster.{Cluster}

-- `minioCopy`: the copy that is sent has no specification.
abbrev pub minio_copy : {V : Values} → Minio V → Minio V
minio_copy {V} m = record m { spec = zero_spec V }

module _ {V : Values} (K : Cluster V) where
  open K use {State, Error}

  -- `updateMinIOStatusWithRetry`. On a conflict the object is read anew, and the object that was
  -- read is what the next attempt sends.
  unfoldable pub update_minio_status_with_retry : ℕ → Minio V → Bool → Exec State Error (Unit {0})
  update_minio_status_with_retry zero m retry = out_of_fuel
  update_minio_status_with_retry (suc fuel) m retry =
      call (K.update_minio_status (minio_copy m)) >>= λ reply. elim reply [
        | value _ ↦ pure tt
        | failure e ↦
            if K.is_conflict e && retry
            then must (K.get_minio m.namespace m.name)
              >>= (λ latest. update_minio_status_with_retry fuel latest retry)
            else raise e
      ]

  -- `updateMinIOStatus`, which has no `retry` and behaves as if it were true.
  unfoldable pub update_minio_status : ℕ → Minio V → Exec State Error (Unit {0})
  update_minio_status zero m = out_of_fuel
  update_minio_status (suc fuel) m = call (K.update_minio_status (minio_copy m)) >>= λ reply.
      elim reply [
        | value _ ↦ pure tt
        | failure e ↦
            if K.is_conflict e
            then must (K.get_minio m.namespace m.name)
              >>= (λ latest. update_minio_status fuel latest)
            else raise e
      ]
