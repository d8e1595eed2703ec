-- ===== src/Pods.antt =====
-- utils/pod.go: the pods of a pool, and the test whether the pods of a pool are to be updated.
pub mod Update
pub mod Mounts
pub mod Names
use Prim.Native.Char.{Char, code}
use Prim.Native.String
use minio_operator.Base.{
  ℕ, zero, suc, String, ◌<>◌, Bool, true, false, not, ◌&&◌, ◌||◌, Option, none, some, List, [], ◌∷◌,
  ◌==◌, nat_beq, if◌then◌else◌,
}
use minio_operator.Base.Decimal.{itoa}
use minio_operator.Base.Dict.{insert}
use minio_operator.Base.Equality.{Eq, string_eq}
use minio_operator.Base.Partial.{◌>>=◌, for_range}
use minio_operator.Api.Constants.{
  minio_server_name, minio_cert_path, minio_port, console_port, console_tls_port, pool_label,
}
use minio_operator.Api.Values.{Values}
use minio_operator.Api.Objects.{Labels, Volume, VolumeMount, Container, Pod}
use minio_operator.Api.Types.{ℤ, pos, negsuc, pos_part, ClaimTemplate, Pool, Minio}
use minio_operator.Api.Helper.{
  tls, minio_hl_service_name, minio_pod_labels, owner_ref, default_pod_env,
}

abbrev is_slash : Char → Bool
is_slash c = nat_beq (code c) b'/'

-- `strings.HasSuffix(s, "/")`
unfoldable pub has_slash_suffix : String → Bool
has_slash_suffix String.[] = false
has_slash_suffix (String.◌∷◌ c String.[]) = is_slash c
has_slash_suffix (String.◌∷◌ c (String.◌∷◌ d s)) = has_slash_suffix (String.◌∷◌ d s)

abbrev keep : Char → String → String
keep c String.[] = if is_slash c then String.[] else String.◌∷◌ c String.[]
keep c (String.◌∷◌ d s) = String.◌∷◌ c (String.◌∷◌ d s)

-- `strings.TrimRight(s, "/")`
unfoldable pub trim_right_slashes : String → String
trim_right_slashes String.[] = String.[]
trim_right_slashes (String.◌∷◌ c s) = keep c (trim_right_slashes s)

-- `a != nil && b != nil && !reflect.DeepEqual(a, b)`
abbrev both_differ : {A : Type 0} → Eq A → Option A → Option A → Bool
both_differ e none b = false
both_differ e (some a) none = false
both_differ e (some a) (some b) = not (e.beq a b)

abbrev pub is_one : ℤ → Bool
is_one (pos n) = nat_beq n 1
is_one (negsuc n) = false

module _ {V : Values} where
  -- `MinioServerNeedToUpdate`
  unfoldable pub minio_server_need_to_update : Minio V → Minio V → Pool V → Pool V → Bool
  minio_server_need_to_update old_minio new_minio old_pool new_pool =
      if not (old_minio.spec.image == new_minio.spec.image)
        || not (old_minio.spec.image_pull_policy == new_minio.spec.image_pull_policy)
        || not (old_minio.spec.image_pull_secret == new_minio.spec.image_pull_secret)
        || both_differ V.probe_eq old_minio.spec.liveness new_minio.spec.liveness
        || both_differ V.probe_eq old_minio.spec.readiness new_minio.spec.readiness
        || both_differ V.probe_eq old_minio.spec.startup new_minio.spec.startup
        || both_differ V.affinity_eq old_minio.spec.affinity new_minio.spec.affinity
      then true
      else if not (V.resources_eq.beq old_minio.spec.resources new_minio.spec.resources)
      then true
      else if V.node_selector_eq.beq old_pool.node_selector new_pool.node_selector
      then true
      else false

  -- `minioServerContainer`
  unfoldable pub minio_server_container : Minio V → Pool V → List (VolumeMount V) → Container V
  unfolding tls default_pod_env
  minio_server_container m pool volume_mounts =
      let port = if tls m then console_tls_port else console_port in
      record {
        name = minio_server_name;
        image = m.spec.image;
        ports = minio_port ∷ port ∷ [];
        image_pull_policy = m.spec.image_pull_policy;
        volume_mounts = volume_mounts;
        args =
            "server"
            ∷ "--certs-dir"
            ∷ minio_cert_path
            ∷ "--console-address"
            ∷ (":" <> itoa port)
            ∷ [];
        env = default_pod_env m;
        resources = m.spec.resources;
        liveness_probe = m.spec.liveness;
        readiness_probe = m.spec.readiness;
        startup_probe = m.spec.startup;
        lifecycle = m.spec.lifecycle;
        security_context = pool.container_security_context;
      }

  -- The claim of volume `j` of pod `i`: `ClaimName`.
  unfoldable pub volume_claim_name : Minio V → Pool V → ClaimTemplate V → ℕ → ℕ → String
  volume_claim_name m pool t i j =
      m.name <> ("-" <> (pool.name <> ("-" <> (itoa i <> ("-" <> (t.name <> ("-" <> itoa j)))))))

  -- One round of the loop that sets `volumes`.
  unfoldable pub pod_volume : Minio V → Pool V → ℕ → ℕ → Option (Volume V)
  unfolding volume_claim_name
  pod_volume m pool i j = pool.volume_claim_template >>= λ t.
      some (record { name = t.name <> itoa j; claim_name = volume_claim_name m pool t i j })

  -- The loop that sets `volumes`.
  unfoldable pub pod_volumes : Minio V → Pool V → ℕ → Option (List (Volume V))
  unfolding pod_volume
  pod_volumes m pool i = for_range (pos_part pool.volumes_per_server) 0 (pod_volume m pool i)

  -- The variable `mountPath`.
  unfoldable pub mount_path : Minio V → String
  unfolding has_slash_suffix trim_right_slashes
  mount_path m =
      if has_slash_suffix m.spec.mountpath
      then trim_right_slashes m.spec.mountpath
      else m.spec.mountpath

  -- One round of the loop that sets `volMounts`.
  unfoldable pub pod_volume_mount : Minio V → Pool V → ℕ → Option (VolumeMount V)
  unfolding mount_path
  pod_volume_mount m pool j = pool.volume_claim_template >>= λ t.
      some (record { name = t.name <> itoa j; mount_path = mount_path m <> ("-" <> itoa j) })

  -- The branches that set `volMounts`.
  unfoldable pub pod_volume_mounts : Minio V → Pool V → Option (List (VolumeMount V))
  unfolding pod_volume_mount
  pod_volume_mounts m pool =
      if is_one pool.volumes_per_server
      then pool.volume_claim_template
        >>= (λ t. some (record { name = t.name <> itoa 0; mount_path = mount_path m } ∷ []))
      else for_range (pos_part pool.volumes_per_server) 0 (pod_volume_mount m pool)

  abbrev pub pod_name : Pool V → ℕ → String
  pod_name pool i = pool.name <> ("-" <> itoa i)

  -- One round of the loop over the servers.
  unfoldable pub new_pod : Minio V → Pool V → ℕ → Option (Pod V)
  unfolding minio_server_container minio_pod_labels owner_ref minio_hl_service_name
  new_pod m pool i = pod_volumes m pool i >>= λ volumes. pod_volume_mounts m pool >>= λ vol_mounts.
      some (record {
        name = pod_name pool i;
        namespace = m.namespace;
        labels = insert string_eq pool_label pool.name (minio_pod_labels m);
        owner_references = owner_ref m;
        volumes = volumes;
        containers = minio_server_container m pool vol_mounts ∷ [];
        node_selector = pool.node_selector;
        service_account_name = m.spec.service_account_name;
        hostname = pod_name pool i;
        subdomain = minio_hl_service_name m;
        affinity = m.spec.affinity;
        tolerations = m.spec.tolerations;
      })

  -- `NewPodsForMinIOPool`: `none` where it dereferences a nil `VolumeClaimTemplate`.
  unfoldable pub new_pods_for_minio_pool : Minio V → Pool V → Option (List (Pod V))
  new_pods_for_minio_pool m pool = for_range (pos_part pool.servers) 0 (new_pod m pool)
