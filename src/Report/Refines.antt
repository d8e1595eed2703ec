-- ===== src/Report/Refines.antt =====
-- The status controller against a description of what it should report.
use mathlib.Core.Option
use mathlib.Core.Path.{ap₂}
use minio_operator.Base.{
  items, ℕ, suc, String, true, not, some, List, [], ◌∷◌, map, All, ◌≡◌, ◌≢◌, refl, ap, ◌∙◌,
}
use minio_operator.Base.Exec.{ok, value}
use minio_operator.Api.Values.{Values}
use minio_operator.Api.Objects.{Service}
use minio_operator.Api.Types.{Pool, Minio, MinioStatus, MinioServiceAddr, PoolStatus}
use minio_operator.Api.Helper.{minio_ci_service_name, minio_console_service_name}
use minio_operator.Cluster.{Cluster}
use minio_operator.StatusUpdate.{minio_copy}
use minio_operator.StatusUpdate.Server.{IsOptimistic}
use minio_operator.StatusUpdate.Retry.{update_fresh_lem}
use minio_operator.StatusUpdate.Same.{update_minio_status_same}
use minio_operator.Health.{is_completed}
use minio_operator.Report.{pool_status_of}
use minio_operator.Report.Described.{
  status_shown, pool_shown, pool_status_of-pool_shown, reported-status_shown,
}
use minio_operator.Report.Inventory.{PodSeen, ClaimSeen, Node, Inventory}
use minio_operator.Report.Addresses.{first_node_ip}
use minio_operator.Report.Located.{IsReportable, latest, service_addresses-latest}
use minio_operator.Report.Run.{
  minio_selector, pool_selector, no_addresses, reported, pool_statuses, write_report, report_status,
  reconcile_status,
}

-- Lists that succeed, and show the state of the cluster without changing it.
pub record Observes {V : Values} (K : Cluster V) (I : Inventory K) : Type 0 where
  pub claims : K.State → String → List (String × String) → List ClaimSeen
  pub services : K.State → String → List (String × String) → List (Service V)
  pub pods : K.State → String → List (String × String) → List PodSeen
  pub nodes : K.State → List Node
  pub lists_claims :
      (s : K.State) (ns : String) (l : List (String × String))
      → I.list_pvcs ns l s ≡ (value (claims s ns l), s)
  pub lists_services :
      (s : K.State) (ns : String) (l : List (String × String))
      → I.list_services ns l s ≡ (value (services s ns l), s)
  pub lists_pods :
      (s : K.State) (ns : String) (l : List (String × String))
      → I.list_pods ns l s ≡ (value (pods s ns l), s)
  pub lists_nodes : (s : K.State) → I.list_nodes s ≡ (value (nodes s), s)

module _ {V : Values} (K : Cluster V) (I : Inventory K) (O : Observes K I) where
  -- The labels of all objects of the resource, and of those of one of its pools.
  abbrev pub labels_of : Minio V → List (String × String)
  labels_of m = ("v1alpha1.bob.com/minio", m.name) ∷ []

  abbrev pub pool_labels_of : Minio V → Pool V → List (String × String)
  pool_labels_of m pool =
      ("v1alpha1.bob.com/minio", m.name) ∷ ("v1alphal1.bob.com/pool", pool.name) ∷ []

  -- The claims and the services of the resource, and the pods of a pool.
  abbrev pub seen_claims : K.State → Minio V → List ClaimSeen
  seen_claims s m = O.claims s m.namespace (labels_of m)

  abbrev pub seen_services : K.State → Minio V → List (Service V)
  seen_services s m = O.services s m.namespace (labels_of m)

  abbrev pub seen_pods : K.State → Minio V → Pool V → List PodSeen
  seen_pods s m pool = O.pods s m.namespace (pool_labels_of m pool)

  -- The addresses to be reported.
  abbrev pub addresses_of : K.State → Minio V → MinioServiceAddr
  addresses_of s m =
      let ip = first_node_ip I.is_ipv4 (O.nodes s) in
      record {
        minio = latest ip (minio_ci_service_name m) "" (seen_services s m);
        console = latest ip (minio_console_service_name m) "" (seen_services s m);
      }

  -- The status that the cluster calls for.
  abbrev pub status_called_for : K.State → Minio V → MinioStatus
  status_called_for s m =
      status_shown m.status (seen_claims s m) (addresses_of s m)
        (map (λ (p : Pool V). pool_shown p.name p.servers (seen_pods s m p)) (items m.spec.pools))

  -- Every pool of the list has a pod.
  abbrev pub HavePods : K.State → Minio V → List (Pool V) → Type 0
  HavePods s m = All (λ p. seen_pods s m p ≢ [])

  -- The status of one pool, as the code computes it.
  abbrev pool_seen : K.State → Minio V → Pool V → PoolStatus
  pool_seen s m pool =
      pool_status_of pool.name pool.servers (O.pods s m.namespace (pool_selector m pool))

  -- The status, as the code computes it.
  abbrev status_seen : K.State → Minio V → MinioStatus
  status_seen s m =
      reported m.status (O.claims s m.namespace (minio_selector m)) (addresses_of s m)
        (map (pool_seen s m) (items m.spec.pools))

  pool_statuses_lem :
      (fuel : ℕ) (s : K.State) (m : Minio V) (pools : List (Pool V))
      → pool_statuses K I true fuel m pools s ≡ (ok (map (pool_seen s m) pools), s)
  unfolding pool_statuses
  pool_statuses_lem fuel s m [] = refl
  pool_statuses_lem fuel s m (pool ∷ pools) =
      rw (O.lists_pods s m.namespace (pool_selector m pool), pool_statuses_lem fuel s m pools) refl

  report_status_lem :
      (fuel : ℕ) (s : K.State) (m : Minio V)
      → All IsReportable (seen_services s m)
      → report_status K I true fuel m s ≡ write_report K I true fuel m (status_seen s m) s
  unfolding report_status
  report_status_lem fuel s m h =
      rw
        (
          O.lists_claims s m.namespace (minio_selector m),
          O.lists_services s m.namespace (minio_selector m),
          service_addresses-latest K I (O.nodes s) s (O.lists_nodes s) m no_addresses
              (seen_services s m) h,
          pool_statuses_lem fuel s m (items m.spec.pools),
        )
        refl

  pools_shown :
      (s : K.State) (m : Minio V) (pools : List (Pool V))
      → HavePods s m pools
      → map (pool_seen s m) pools
        ≡ map (λ (p : Pool V). pool_shown p.name p.servers (seen_pods s m p)) pools
  pools_shown s m [] h = refl
  pools_shown s m (p ∷ pools) (given, h) =
      ap₂ ◌∷◌ (pool_status_of-pool_shown p.name p.servers (seen_pods s m p) given)
        (pools_shown s m pools h)

  some_pool :
      (s : K.State) (m : Minio V) (pools : List (Pool V))
      → pools ≢ []
      → map (pool_seen s m) pools ≢ []
  some_pool s m [] given e = given refl
  some_pool s m (p ∷ pools) given e = cc

  -- The code computes what is called for.
  status_seen-status_called_for :
      (s : K.State) (m : Minio V)
      → seen_claims s m ≢ []
      → items m.spec.pools ≢ []
      → HavePods s m (items m.spec.pools)
      → status_seen s m ≡ status_called_for s m
  status_seen-status_called_for s m claims pools pods =
      reported-status_shown m.status (seen_claims s m) (addresses_of s m)
        (map (pool_seen s m) (items m.spec.pools)) claims (some_pool s m (items m.spec.pools) pools)
      ∙ ap (status_shown m.status (seen_claims s m) (addresses_of s m))
          (pools_shown s m (items m.spec.pools) pods)

  module _ (L : IsOptimistic K) where
    write_report_lem :
        (fuel : ℕ) (s : K.State) (m : Minio V) (status : MinioStatus)
        → L.stored s m.namespace m.name ≡ some m
        → write_report K I true (suc fuel) m status s ≡ (
          ok (not (is_completed status.status)),
          L.write s (minio_copy (record m { status = status })),
        )
    unfolding write_report
    write_report_lem fuel s m status e =
        rw
          (update_minio_status_same K (suc fuel) (record m { status = status }) s
            ∙ update_fresh_lem K L fuel s (record m { status = status }) m true e refl)
          refl

    reconcile_status_lem :
        (fuel : ℕ) (s : K.State) (m : Minio V)
        → L.stored s m.namespace m.name ≡ some m
        → reconcile_status K I true fuel m.namespace m.name s ≡ report_status K I true fuel m s
    unfolding reconcile_status
    reconcile_status_lem fuel s m e = rw (L.get_stored s m.namespace m.name m e) refl

    -- On a server with optimistic concurrency that no other client writes to, whose lists succeed and
    -- where the services of the resource can be reported, it has a claim and a pool, and each of its
    -- pools has a pod: the status controller's `Reconcile` returns no error, the status that the
    -- cluster calls for is stored, with the addresses of the services, one entry for each claim with
    -- the label of the resource, and for each pool the servers, the count of the running pods and the
    -- state of the last pod among those with the labels of resource and pool; and the resource is
    -- queued again exactly when the deployment is not completed.
    pub reconcile_status_stores :
        (fuel : ℕ) (s : K.State) (m : Minio V)
        → L.stored s m.namespace m.name ≡ some m
        → All IsReportable (seen_services s m)
        → seen_claims s m ≢ []
        → items m.spec.pools ≢ []
        → HavePods s m (items m.spec.pools)
        → let r = reconcile_status K I true (suc fuel) m.namespace m.name s in
          (r.0 ≡ ok (not (is_completed (status_called_for s m).status)))
          × (Option.map (λ (x : Minio V). x.status) (L.stored r.1 m.namespace m.name)
              ≡ some (status_called_for s m))
    reconcile_status_stores fuel s m e h claims pools pods =
        let shown = status_seen-status_called_for s m claims pools pods in
        let run =
          reconcile_status_lem (suc fuel) s m e
          ∙ report_status_lem (suc fuel) s m h
          ∙ write_report_lem fuel s m (status_seen s m) e in
        let status = λ (x : Minio V). x.status in
        (
          ap (λ r. r.0) run ∙ ap (λ st. ok (not (is_completed st.status))) shown,
          ap (λ r. Option.map status (L.stored r.1 m.namespace m.name)) run
              ∙ ap (Option.map status)
                  (L.stored_write s (minio_copy (record m { status = status_seen s m })) m e)
              ∙ ap some shown,
        )
