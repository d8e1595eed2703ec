-- ===== src/Api/DeepCopy/Statuses.antt =====
-- The copies of a status are deep.
use minio_operator.Base.{List, ◌++◌}
use minio_operator.Api.Types.{MinioStatus, MinioServer, PvcStatus}
use minio_operator.Api.DeepCopy.{pool_status_deep_copy_into, minio_status_deep_copy_into}
use minio_operator.Api.DeepCopy.Kinds
use minio_operator.Api.DeepCopy.Memory.{copy_pointer, copy_slice, pure}
use minio_operator.Api.DeepCopy.Fresh.{
  Deep, Fresh, Deep-step, flat-Deep, all-Deep, pointer-Deep, pure-Fresh,
}
use minio_operator.Api.DeepCopy.Layout.{Library, MinioStatusAt, Cell}
use minio_operator.Api.DeepCopy.Shown.{
  ServersShow, PoolStatusShows, PoolStatusesShow, PvcStatusesShow, MinioStatusShows,
}

module _ {L : Library} where
  servers-Deep : Deep ServersShow (copy_pointer (Kinds.minio_servers_cell L) pure)
  servers-Deep = pointer-Deep (flat-Deep {A = List MinioServer}) (Kinds.minio_servers_cell L)

  pool_status-Deep : Deep PoolStatusShows (pool_status_deep_copy_into {L = L})
  pool_status-Deep = record {
    grows = λ v h more x r. record {
      name = r.name;
      status = r.status;
      available_replicas = r.available_replicas;
      replicas = r.replicas;
      servers = servers-Deep.grows v.servers h more x.servers r.servers;
    };
    copies = λ h x v r. Deep-step servers-Deep h x.servers v.servers _ _ r.servers (λ y more.
        pure-Fresh _ _ _ (λ g s. record {
          name = r.name;
          status = r.status;
          available_replicas = r.available_replicas;
          replicas = r.replicas;
          servers = s;
        }));
  }

  pool_statuses-Deep :
      Deep PoolStatusesShow (copy_slice (Kinds.pool_statuses_cell L) pool_status_deep_copy_into)
  pool_statuses-Deep = pointer-Deep (all-Deep pool_status-Deep) (Kinds.pool_statuses_cell L)

  pvc_statuses-Deep : Deep PvcStatusesShow (copy_pointer (Kinds.pvc_statuses_cell L) pure)
  pvc_statuses-Deep = pointer-Deep (flat-Deep {A = List PvcStatus}) (Kinds.pvc_statuses_cell L)

  -- The copy of a status reads as the status does, shares nothing with it, and allocates only.
  pub minio_status-Deep : Deep MinioStatusShows (minio_status_deep_copy_into {L = L})
  unfolding minio_status_deep_copy_into
  minio_status-Deep = record { grows = grown; copies = copied }
    where
      grown :
          (v : MinioStatus) (h more : List (Cell L)) (x : MinioStatusAt)
          → MinioStatusShows h x v
          → MinioStatusShows (h ++ more) x v
      grown v h more x r = record {
        status = r.status;
        message = r.message;
        pool_status = pool_statuses-Deep.grows v.pool_status h more x.pool_status r.pool_status;
        health_status = r.health_status;
        service = r.service;
        pvc_status = pvc_statuses-Deep.grows v.pvc_status h more x.pvc_status r.pvc_status;
      }

      copied :
          (h : List (Cell L)) (x : MinioStatusAt) (v : MinioStatus)
          → MinioStatusShows h x v
          → Fresh h (minio_status_deep_copy_into x h) (λ g y. MinioStatusShows g y v)
      copied h x v r =
          Deep-step pool_statuses-Deep h x.pool_status v.pool_status _ _ r.pool_status
            (λ pools more.
              let r₁ = grown v h more x r in
              Deep-step pvc_statuses-Deep (h ++ more) x.pvc_status v.pvc_status _ _ r₁.pvc_status
                (λ pvcs more'. pure-Fresh _ _ _ (λ g p q. record {
                  status = r.status;
                  message = r.message;
                  pool_status = q;
                  health_status = r.health_status;
                  service = r.service;
                  pvc_status = p;
                })))
