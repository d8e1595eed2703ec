-- ===== src/StatusUpdate/Server.antt =====
-- What the API server documents of a resource with a status subresource: optimistic concurrency by
-- the resource version. It is assumed of the server where no other client writes in between.
use minio_operator.Base.{String, true, false, Option, none, some, ◌≡◌, ◌≢◌}
use minio_operator.Base.Exec.{value, failure}
use minio_operator.Api.Values.{Values}
use minio_operator.Api.Types.{Minio}
use minio_operator.Cluster.{Cluster}

pub record IsOptimistic {V : Values} (K : Cluster V) : Type 0 where
  -- the resource that is stored under a namespace and a name
  pub stored : K.State → String → String → Option (Minio V)
  pub stored_key :
      (s : K.State) (ns name : String) (c : Minio V)
      → stored s ns name ≡ some c
      → (c.namespace ≡ ns) × (c.name ≡ name)
  pub missing : K.Error
  pub missing_not_found : K.is_not_found missing ≡ true
  pub missing_not_conflict : K.is_conflict missing ≡ false
  pub conflict : K.Error
  pub conflict_is_conflict : K.is_conflict conflict ≡ true
  pub get_stored :
      (s : K.State) (ns name : String) (c : Minio V)
      → stored s ns name ≡ some c
      → K.get_minio ns name s ≡ (value c, s)
  pub update_missing :
      (s : K.State) (m : Minio V)
      → stored s m.namespace m.name ≡ none
      → K.update_minio_status m s ≡ (failure missing, s)
  -- an object that was read before the last write is refused
  pub update_stale :
      (s : K.State) (m c : Minio V)
      → m.resource_version ≢ ""
      → stored s m.namespace m.name ≡ some c
      → m.resource_version ≢ c.resource_version
      → K.update_minio_status m s ≡ (failure conflict, s)
  -- otherwise the status is written, and nothing else of the object but its version
  pub write : K.State → Minio V → K.State
  pub version_after : K.State → Minio V → String
  pub update_fresh :
      (s : K.State) (m c : Minio V)
      → stored s m.namespace m.name ≡ some c
      → m.resource_version ≡ c.resource_version
      → K.update_minio_status m s ≡ (value tt, write s m)
  pub stored_write :
      (s : K.State) (m c : Minio V)
      → stored s m.namespace m.name ≡ some c
      → stored (write s m) m.namespace m.name
        ≡ some (record c { resource_version = version_after s m; status = m.status })
  pub version_changes :
      (s : K.State) (m c : Minio V)
      → stored s m.namespace m.name ≡ some c
      → m.status ≢ c.status
      → version_after s m ≢ c.resource_version
