-- ===== src/Api/DeepCopy/Kinds.antt =====
-- The objects of each type among all that lies in memory.
use minio_operator.Base.{String, Option, none, some, List, refl}
use minio_operator.Api.Types.{ExposeServices, MinioServer, MinioServiceAddr, PvcStatus}
use minio_operator.Api.DeepCopy.Memory.{Boxing}
use minio_operator.Api.DeepCopy.Layout.{
  Library, PoolStatusAt, MinioStatusAt, PoolAt, MinioSpecAt, MinioAt, MinioListAt, Cell,
}

module _ {L : Library} where
  abbrev as_expose_services : Cell L → Option ExposeServices
  as_expose_services (Cell.expose_services x) = some x
  as_expose_services _ = none

  abbrev as_minio : Cell L → Option (MinioAt L)
  as_minio (Cell.minio x) = some x
  as_minio _ = none

  abbrev as_minios : Cell L → Option (List (MinioAt L))
  as_minios (Cell.minios x) = some x
  as_minios _ = none

  abbrev as_minio_list : Cell L → Option (MinioListAt L)
  as_minio_list (Cell.minio_list x) = some x
  as_minio_list _ = none

  abbrev as_minio_server : Cell L → Option MinioServer
  as_minio_server (Cell.minio_server x) = some x
  as_minio_server _ = none

  abbrev as_minio_servers : Cell L → Option (List MinioServer)
  as_minio_servers (Cell.minio_servers x) = some x
  as_minio_servers _ = none

  abbrev as_minio_service_addr : Cell L → Option MinioServiceAddr
  as_minio_service_addr (Cell.minio_service_addr x) = some x
  as_minio_service_addr _ = none

  abbrev as_minio_spec : Cell L → Option (MinioSpecAt L)
  as_minio_spec (Cell.minio_spec x) = some x
  as_minio_spec _ = none

  abbrev as_minio_status : Cell L → Option MinioStatusAt
  as_minio_status (Cell.minio_status x) = some x
  as_minio_status _ = none

  abbrev as_pvc_status : Cell L → Option PvcStatus
  as_pvc_status (Cell.pvc_status x) = some x
  as_pvc_status _ = none

  abbrev as_pvc_statuses : Cell L → Option (List PvcStatus)
  as_pvc_statuses (Cell.pvc_statuses x) = some x
  as_pvc_statuses _ = none

  abbrev as_pool : Cell L → Option PoolAt
  as_pool (Cell.pool x) = some x
  as_pool _ = none

  abbrev as_pools : Cell L → Option (List PoolAt)
  as_pools (Cell.pools x) = some x
  as_pools _ = none

  abbrev as_pool_status : Cell L → Option PoolStatusAt
  as_pool_status (Cell.pool_status x) = some x
  as_pool_status _ = none

  abbrev as_pool_statuses : Cell L → Option (List PoolStatusAt)
  as_pool_statuses (Cell.pool_statuses x) = some x
  as_pool_statuses _ = none

  abbrev as_env_vars : Cell L → Option (List L.EnvVar)
  as_env_vars (Cell.env_vars x) = some x
  as_env_vars _ = none

  abbrev as_local_object_reference : Cell L → Option String
  as_local_object_reference (Cell.local_object_reference x) = some x
  as_local_object_reference _ = none

  abbrev as_tolerations : Cell L → Option (List L.Toleration)
  as_tolerations (Cell.tolerations x) = some x
  as_tolerations _ = none

  abbrev as_affinity : Cell L → Option L.Affinity
  as_affinity (Cell.affinity x) = some x
  as_affinity _ = none

  abbrev as_probe : Cell L → Option L.Probe
  as_probe (Cell.probe x) = some x
  as_probe _ = none

  abbrev as_lifecycle : Cell L → Option L.Lifecycle
  as_lifecycle (Cell.lifecycle x) = some x
  as_lifecycle _ = none

  abbrev as_persistent_volume_claim : Cell L → Option L.PersistentVolumeClaim
  as_persistent_volume_claim (Cell.persistent_volume_claim x) = some x
  as_persistent_volume_claim _ = none

  abbrev as_string_map : Cell L → Option (List (String × String))
  as_string_map (Cell.string_map x) = some x
  as_string_map _ = none

  abbrev as_pod_security_context : Cell L → Option L.PodSecurityContext
  as_pod_security_context (Cell.pod_security_context x) = some x
  as_pod_security_context _ = none

  abbrev as_security_context : Cell L → Option L.SecurityContext
  as_security_context (Cell.security_context x) = some x
  as_security_context _ = none

module _ (L : Library) where
  abbrev pub expose_services_cell : Boxing (Cell L) ExposeServices
  expose_services_cell = record {
    box = Cell.expose_services;
    unbox = as_expose_services;
    unbox-box = λ x. refl;
  }

  abbrev pub minio_cell : Boxing (Cell L) (MinioAt L)
  minio_cell = record { box = Cell.minio; unbox = as_minio; unbox-box = λ x. refl }

  abbrev pub minios_cell : Boxing (Cell L) (List (MinioAt L))
  minios_cell = record { box = Cell.minios; unbox = as_minios; unbox-box = λ x. refl }

  abbrev pub minio_list_cell : Boxing (Cell L) (MinioListAt L)
  minio_list_cell = record { box = Cell.minio_list; unbox = as_minio_list; unbox-box = λ x. refl }

  abbrev pub minio_server_cell : Boxing (Cell L) MinioServer
  minio_server_cell = record {
    box = Cell.minio_server;
    unbox = as_minio_server;
    unbox-box = λ x. refl;
  }

  abbrev pub minio_servers_cell : Boxing (Cell L) (List MinioServer)
  minio_servers_cell = record {
    box = Cell.minio_servers;
    unbox = as_minio_servers;
    unbox-box = λ x. refl;
  }

  abbrev pub minio_service_addr_cell : Boxing (Cell L) MinioServiceAddr
  minio_service_addr_cell = record {
    box = Cell.minio_service_addr;
    unbox = as_minio_service_addr;
    unbox-box = λ x. refl;
  }

  abbrev pub minio_spec_cell : Boxing (Cell L) (MinioSpecAt L)
  minio_spec_cell = record { box = Cell.minio_spec; unbox = as_minio_spec; unbox-box = λ x. refl }

  abbrev pub minio_status_cell : Boxing (Cell L) MinioStatusAt
  minio_status_cell = record {
    box = Cell.minio_status;
    unbox = as_minio_status;
    unbox-box = λ x. refl;
  }

  abbrev pub pvc_status_cell : Boxing (Cell L) PvcStatus
  pvc_status_cell = record { box = Cell.pvc_status; unbox = as_pvc_status; unbox-box = λ x. refl }

  abbrev pub pvc_statuses_cell : Boxing (Cell L) (List PvcStatus)
  pvc_statuses_cell = record {
    box = Cell.pvc_statuses;
    unbox = as_pvc_statuses;
    unbox-box = λ x. refl;
  }

  abbrev pub pool_cell : Boxing (Cell L) PoolAt
  pool_cell = record { box = Cell.pool; unbox = as_pool; unbox-box = λ x. refl }

  abbrev pub pools_cell : Boxing (Cell L) (List PoolAt)
  pools_cell = record { box = Cell.pools; unbox = as_pools; unbox-box = λ x. refl }

  abbrev pub pool_status_cell : Boxing (Cell L) PoolStatusAt
  pool_status_cell = record {
    box = Cell.pool_status;
    unbox = as_pool_status;
    unbox-box = λ x. refl;
  }

  abbrev pub pool_statuses_cell : Boxing (Cell L) (List PoolStatusAt)
  pool_statuses_cell = record {
    box = Cell.pool_statuses;
    unbox = as_pool_statuses;
    unbox-box = λ x. refl;
  }

  abbrev pub env_vars_cell : Boxing (Cell L) (List L.EnvVar)
  env_vars_cell = record { box = Cell.env_vars; unbox = as_env_vars; unbox-box = λ x. refl }

  abbrev pub local_object_reference_cell : Boxing (Cell L) String
  local_object_reference_cell = record {
    box = Cell.local_object_reference;
    unbox = as_local_object_reference;
    unbox-box = λ x. refl;
  }

  abbrev pub tolerations_cell : Boxing (Cell L) (List L.Toleration)
  tolerations_cell = record {
    box = Cell.tolerations;
    unbox = as_tolerations;
    unbox-box = λ x. refl;
  }

  abbrev pub affinity_cell : Boxing (Cell L) L.Affinity
  affinity_cell = record { box = Cell.affinity; unbox = as_affinity; unbox-box = λ x. refl }

  abbrev pub probe_cell : Boxing (Cell L) L.Probe
  probe_cell = record { box = Cell.probe; unbox = as_probe; unbox-box = λ x. refl }

  abbrev pub lifecycle_cell : Boxing (Cell L) L.Lifecycle
  lifecycle_cell = record { box = Cell.lifecycle; unbox = as_lifecycle; unbox-box = λ x. refl }

  abbrev pub persistent_volume_claim_cell : Boxing (Cell L) L.PersistentVolumeClaim
  persistent_volume_claim_cell = record {
    box = Cell.persistent_volume_claim;
    unbox = as_persistent_volume_claim;
    unbox-box = λ x. refl;
  }

  abbrev pub string_map_cell : Boxing (Cell L) (List (String × String))
  string_map_cell = record { box = Cell.string_map; unbox = as_string_map; unbox-box = λ x. refl }

  abbrev pub pod_security_context_cell : Boxing (Cell L) L.PodSecurityContext
  pod_security_context_cell = record {
    box = Cell.pod_security_context;
    unbox = as_pod_security_context;
    unbox-box = λ x. refl;
  }

  abbrev pub security_context_cell : Boxing (Cell L) L.SecurityContext
  security_context_cell = record {
    box = Cell.security_context;
    unbox = as_security_context;
    unbox-box = λ x. refl;
  }
