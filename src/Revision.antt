-- ===== src/Revision.antt =====
-- utils/controllerrevision.go, and `NewControllerRevision` of api/v1alpha1/helper.go: the record of
-- the specification that the operator has last seen.
pub mod Laws
use minio_operator.Base.{String, Option, none, some, [], if◌then◌else◌}
use minio_operator.Base.Exec.{Exec, value, failure, call, must, pure, raise, ◌>>=◌}
use minio_operator.Api.Values.{Values}
use minio_operator.Api.Types.{Minio}
use minio_operator.Cluster.{Cluster, Revision}

module _ {V : Values} (K : Cluster V) where
  open K use {State, Error, Raw}

  -- `NewControllerRevision`
  unfoldable pub new_controller_revision : Minio V → Revision V Raw
  new_controller_revision m = record {
    name = m.name;
    namespace = m.namespace;
    raw = K.marshal m.spec;
    owner_references = [];
  }

  -- `ExistControllerRevision`: `none` is the result `false, nil, nil`.
  unfoldable pub exist_controller_revision :
      String → String → Exec State Error (Option (Revision V Raw))
  exist_controller_revision name namespace = call (K.get_revision namespace name) >>= λ reply.
      elim reply [
        | failure e ↦ if K.is_not_found e then pure none else raise e
        | value found ↦ pure (some found)
      ]

  -- `CreateControllerRevision`
  unfoldable pub create_controller_revision : Minio V → Revision V Raw → Exec State Error (Unit {0})
  create_controller_revision owner cr = elim (K.set_controller_reference owner cr) [
    | failure e ↦ raise e
    | value owned ↦ must (K.create_revision owned)
  ]

  -- `DeleteControllerRevision`
  unfoldable pub delete_controller_revision : Revision V Raw → Exec State Error (Unit {0})
  delete_controller_revision old_cr = must (K.delete_revision old_cr)

  -- `RebuildControllerRevision`
  unfoldable pub rebuild_controller_revision :
      Minio V → Revision V Raw → Revision V Raw → Exec State Error (Unit {0})
  rebuild_controller_revision owner old_cr new_cr = must (K.delete_revision old_cr) >>= λ _.
      elim (K.set_controller_reference owner new_cr) [
        | failure e ↦ raise e
        | value owned ↦ must (K.create_revision owned)
      ]
