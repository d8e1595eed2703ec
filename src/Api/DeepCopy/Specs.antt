-- ===== src/Api/DeepCopy/Specs.antt =====
-- The copies of pools and of a specification are deep.
use minio_operator.Base.{String, List, ◌++◌}
use minio_operator.Api.Values.{Values}
use minio_operator.Api.Types.{Pool, MinioSpec}
use minio_operator.Api.DeepCopy.{DeepCopies, pool_deep_copy_into, minio_spec_deep_copy_into}
use minio_operator.Api.DeepCopy.Kinds
use minio_operator.Api.DeepCopy.Memory.{copy_pointer, copy_slice, copy_all, pure}
use minio_operator.Api.DeepCopy.Fresh.{
  Deep, Fresh, Deep-step, flat-Deep, all-Deep, pointer-Deep, via-Deep, pure-Fresh,
}
use minio_operator.Api.DeepCopy.Layout.{Library, PoolAt, MinioSpecAt, Cell}
use minio_operator.Api.DeepCopy.Shown.{
  Meanings, AreDeep, NodeSelectorShows, PoolShows, PoolsShow, MinioSpecShows,
}

module _ {V : Values} {L : Library} (D : DeepCopies L) (M : Meanings V L) (A : AreDeep D M) where
  node_selector-Deep :
      Deep (NodeSelectorShows M) (copy_pointer (Kinds.string_map_cell L) (copy_all pure))
  node_selector-Deep =
      via-Deep (pointer-Deep (all-Deep (flat-Deep {A = String × String})) (Kinds.string_map_cell L))
        M.node_selector

  -- The copy of a pool.
  pool-Deep : Deep (PoolShows M) (pool_deep_copy_into D)
  unfolding pool_deep_copy_into
  pool-Deep = record { grows = grown; copies = copied }
    where
      grown :
          (v : Pool V) (h more : List (Cell L)) (x : PoolAt)
          → PoolShows M h x v
          → PoolShows M (h ++ more) x v
      grown v h more x r = record {
        name = r.name;
        servers = r.servers;
        volumes_per_server = r.volumes_per_server;
        volume_claim_template =
            (pointer-Deep A.persistent_volume_claim (Kinds.persistent_volume_claim_cell L)).grows
              v.volume_claim_template h more x.volume_claim_template r.volume_claim_template;
        node_selector =
            (node_selector-Deep).grows v.node_selector h more x.node_selector r.node_selector;
        security_context =
            (pointer-Deep A.pod_security_context (Kinds.pod_security_context_cell L)).grows
              v.security_context h more x.security_context r.security_context;
        container_security_context =
            (pointer-Deep A.security_context (Kinds.security_context_cell L)).grows
              v.container_security_context h more x.container_security_context
              r.container_security_context;
      }

      copied :
          (h : List (Cell L)) (x : PoolAt) (v : Pool V)
          → PoolShows M h x v
          → Fresh h (pool_deep_copy_into D x h) (λ g y. PoolShows M g y v)
      copied h x v r =
          Deep-step (pointer-Deep A.persistent_volume_claim (Kinds.persistent_volume_claim_cell L))
            (h) x.volume_claim_template v.volume_claim_template _ _ r.volume_claim_template
            (λ volume_claim_template more0.
              let r0 = grown v (h) more0 x r in
              Deep-step (node_selector-Deep) (h ++ more0) x.node_selector v.node_selector _ _
                r0.node_selector
                (λ node_selector more1.
                  let r1 = grown v (h ++ more0) more1 x r0 in
                  Deep-step
                    (pointer-Deep A.pod_security_context (Kinds.pod_security_context_cell L))
                    (h ++ more0 ++ more1) x.security_context v.security_context _ _
                    r1.security_context
                    (λ security_context more2.
                      let r2 = grown v (h ++ more0 ++ more1) more2 x r1 in
                      Deep-step (pointer-Deep A.security_context (Kinds.security_context_cell L))
                        (h ++ more0 ++ more1 ++ more2) x.container_security_context
                        v.container_security_context _ _ r2.container_security_context
                        (λ container_security_context more3.
                          pure-Fresh _ _ _
                            (λ g is_container_security_context is_security_context is_node_selector
                                is_volume_claim_template.
                              record {
                                name = r.name;
                                servers = r.servers;
                                volumes_per_server = r.volumes_per_server;
                                volume_claim_template = is_volume_claim_template;
                                node_selector = is_node_selector;
                                security_context = is_security_context;
                                container_security_context = is_container_security_context;
                              })))))

  pools-Deep : Deep (PoolsShow M) (copy_slice (Kinds.pools_cell L) (pool_deep_copy_into D))
  pools-Deep = pointer-Deep (all-Deep pool-Deep) (Kinds.pools_cell L)

  -- The copy of a specification reads as the specification does, shares nothing with it, and only
  -- allocates.
  pub minio_spec-Deep : Deep (MinioSpecShows M) (minio_spec_deep_copy_into D)
  unfolding minio_spec_deep_copy_into
  minio_spec-Deep = record { grows = grown; copies = copied }
    where
      grown :
          (v : MinioSpec V) (h more : List (Cell L)) (x : MinioSpecAt L)
          → MinioSpecShows M h x v
          → MinioSpecShows M (h ++ more) x v
      grown v h more x r = record {
        pools = (pools-Deep).grows v.pools h more x.pools r.pools;
        image = r.image;
        image_pull_policy = r.image_pull_policy;
        image_pull_secret = r.image_pull_secret;
        env =
            (pointer-Deep (all-Deep A.env_var) (Kinds.env_vars_cell L)).grows v.env h more x.env
              r.env;
        mountpath = r.mountpath;
        configuration =
            (pointer-Deep (flat-Deep {A = String}) (Kinds.local_object_reference_cell L)).grows
              v.configuration h more x.configuration r.configuration;
        expose_services = r.expose_services;
        enable_cert = r.enable_cert;
        reclaim_storage = r.reclaim_storage;
        service_account_name = r.service_account_name;
        tolerations =
            (pointer-Deep (all-Deep A.toleration) (Kinds.tolerations_cell L)).grows v.tolerations h
              more x.tolerations r.tolerations;
        resources = (A.resources).grows v.resources h more x.resources r.resources;
        affinity =
            (pointer-Deep A.affinity (Kinds.affinity_cell L)).grows v.affinity h more x.affinity
              r.affinity;
        liveness =
            (pointer-Deep A.probe (Kinds.probe_cell L)).grows v.liveness h more x.liveness
              r.liveness;
        readiness =
            (pointer-Deep A.probe (Kinds.probe_cell L)).grows v.readiness h more x.readiness
              r.readiness;
        startup =
            (pointer-Deep A.probe (Kinds.probe_cell L)).grows v.startup h more x.startup r.startup;
        lifecycle =
            (pointer-Deep A.lifecycle (Kinds.lifecycle_cell L)).grows v.lifecycle h more x.lifecycle
              r.lifecycle;
      }

      copied :
          (h : List (Cell L)) (x : MinioSpecAt L) (v : MinioSpec V)
          → MinioSpecShows M h x v
          → Fresh h (minio_spec_deep_copy_into D x h) (λ g y. MinioSpecShows M g y v)
      copied h x v r = Deep-step (pools-Deep) (h) x.pools v.pools _ _ r.pools (λ pools more0.
          let r0 = grown v (h) more0 x r in
          Deep-step (pointer-Deep (all-Deep A.env_var) (Kinds.env_vars_cell L)) (h ++ more0) x.env
            v.env _ _ r0.env
            (λ env more1.
              let r1 = grown v (h ++ more0) more1 x r0 in
              Deep-step
                (pointer-Deep (flat-Deep {A = String}) (Kinds.local_object_reference_cell L))
                (h ++ more0 ++ more1) x.configuration v.configuration _ _ r1.configuration
                (λ configuration more2.
                  let r2 = grown v (h ++ more0 ++ more1) more2 x r1 in
                  Deep-step (pointer-Deep (all-Deep A.toleration) (Kinds.tolerations_cell L))
                    (h ++ more0 ++ more1 ++ more2) x.tolerations v.tolerations _ _ r2.tolerations
                    (λ tolerations more3.
                      let r3 = grown v (h ++ more0 ++ more1 ++ more2) more3 x r2 in
                      Deep-step (A.resources) (h ++ more0 ++ more1 ++ more2 ++ more3) x.resources
                        v.resources _ _ r3.resources
                        (λ resources more4.
                          let r4 = grown v (h ++ more0 ++ more1 ++ more2 ++ more3) more4 x r3 in
                          Deep-step (pointer-Deep A.affinity (Kinds.affinity_cell L))
                            (h ++ more0 ++ more1 ++ more2 ++ more3 ++ more4) x.affinity v.affinity _
                            _ r4.affinity
                            (λ affinity more5.
                              let r5 =
                                grown v (h ++ more0 ++ more1 ++ more2 ++ more3 ++ more4) more5 x
                                  r4 in
                              Deep-step (pointer-Deep A.probe (Kinds.probe_cell L))
                                (h ++ more0 ++ more1 ++ more2 ++ more3 ++ more4 ++ more5) x.liveness
                                v.liveness _ _ r5.liveness
                                (λ liveness more6.
                                  let r6 =
                                    grown v
                                      (h ++ more0 ++ more1 ++ more2 ++ more3 ++ more4 ++ more5)
                                      more6 x r5 in
                                  Deep-step (pointer-Deep A.probe (Kinds.probe_cell L))
                                    (h ++ more0 ++ more1 ++ more2 ++ more3 ++ more4 ++ more5
                                      ++ more6)
                                    x.readiness v.readiness _ _ r6.readiness
                                    (λ readiness more7.
                                      let r7 =
                                        grown v
                                          (h ++ more0 ++ more1 ++ more2 ++ more3 ++ more4 ++ more5
                                            ++ more6)
                                          more7 x r6 in
                                      Deep-step (pointer-Deep A.probe (Kinds.probe_cell L))
                                        (h ++ more0 ++ more1 ++ more2 ++ more3 ++ more4 ++ more5
                                          ++ more6 ++ more7)
                                        x.startup v.startup _ _ r7.startup
                                        (λ startup more8.
                                          let r8 =
                                            grown v
                                              (h ++ more0 ++ more1 ++ more2 ++ more3 ++ more4
                                                ++ more5 ++ more6 ++ more7)
                                              more8 x r7 in
                                          Deep-step
                                            (pointer-Deep A.lifecycle (Kinds.lifecycle_cell L))
                                            (h ++ more0 ++ more1 ++ more2 ++ more3 ++ more4 ++ more5
                                              ++ more6 ++ more7 ++ more8)
                                            x.lifecycle v.lifecycle _ _ r8.lifecycle
                                            (λ lifecycle more9.
                                              pure-Fresh _ _ _
                                                (λ g is_lifecycle is_startup is_readiness
                                                    is_liveness is_affinity is_resources
                                                    is_tolerations is_configuration is_env is_pools.
                                                  record {
                                                    pools = is_pools;
                                                    image = r.image;
                                                    image_pull_policy = r.image_pull_policy;
                                                    image_pull_secret = r.image_pull_secret;
                                                    env = is_env;
                                                    mountpath = r.mountpath;
                                                    configuration = is_configuration;
                                                    expose_services = r.expose_services;
                                                    enable_cert = r.enable_cert;
                                                    reclaim_storage = r.reclaim_storage;
                                                    service_account_name = r.service_account_name;
                                                    tolerations = is_tolerations;
                                                    resources = is_resources;
                                                    affinity = is_affinity;
                                                    liveness = is_liveness;
                                                    readiness = is_readiness;
                                                    startup = is_startup;
                                                    lifecycle = is_lifecycle;
                                                  })))))))))))
