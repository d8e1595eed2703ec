-- ===== src/Report/Keeps.antt =====
-- What a run of the status controller keeps, where its lists change nothing.
use mathlib.Core.Path.{subst}
use minio_operator.Base.{
  items, ℕ, String, Bool, Option, none, some, List, [], ◌∷◌, ◌≡◌, sym, ap, ◌==◌, if◌then◌else◌,
}
use minio_operator.Base.Exec.{Exec, Op, Reply, value, failure, call, must, pure, raise, crash}
use minio_operator.Base.Ensures.{Keeps, >>=-Keeps, if-Keeps, must-Keeps}
use minio_operator.Api.Values.{Values}
use minio_operator.Api.Objects.{ServiceType, cluster_ip, node_port, other, ServicePort, Service}
use minio_operator.Api.Types.{Pool, Minio, MinioStatus, MinioServiceAddr, zero_minio}
use minio_operator.Api.Helper.{minio_ci_service_name, minio_console_service_name}
use minio_operator.Cluster.{Cluster}
use minio_operator.StatusUpdate.{update_minio_status}
use minio_operator.Reconcile.Steps.Keeps.{Stable}
use minio_operator.Health.Keeps.{update_minio_status-Keeps}
use minio_operator.Report.Inventory.{Inventory}
use minio_operator.Report.Addresses.{
  through, first_port, service_host, set_minio, set_console, node_ip, address_at, address_by_type,
  address_if, service_addresses,
}
use minio_operator.Report.Run.{
  listed, no_addresses, minio_selector, pool_selector, pool_statuses, write_report, report_status,
  reconcile_status, reported,
}
use minio_operator.Report.Refines.{Observes}

module _ {V : Values} (K : Cluster V) (I : Inventory K) (O : Observes K I) {P : K.State → Type 0}
    {May : String → Type 0} (T : Stable K P May) (kube_client : Bool) where
  -- A list changes nothing.
  listing :
      {A : Type 0} (op : Op K.State K.Error A) (seen : K.State → A)
      → ((s : K.State) → op s ≡ (value (seen s), s))
      → (s : K.State) → P s
      → P (op s).1
  listing op seen e s p = subst P (sym (ap (λ x. x.1) (e s))) p

  through-Keeps :
      {A : Type 0} (m : Exec K.State K.Error A) → Keeps P m → Keeps P (through K I kube_client m)
  through-Keeps m h = if-Keeps P kube_client m crash h (λ s p. (tt, p))

  listed-Keeps :
      {A : Type 0} (fuel : ℕ) (op : Op K.State K.Error A) (seen : K.State → A)
      → ((s : K.State) → op s ≡ (value (seen s), s))
      → Keeps P (listed K I kube_client fuel op)
  listed-Keeps fuel op seen e = through-Keeps (must op) (must-Keeps P op (listing op seen e))

  node_ip-Keeps : Keeps P (node_ip K I kube_client)
  unfolding node_ip
  node_ip-Keeps =
      >>=-Keeps P (through K I kube_client (call I.list_nodes)) _
        (through-Keeps (call I.list_nodes)
          (λ s p. (tt, listing I.list_nodes O.nodes O.lists_nodes s p)))
        (λ _ s p. (tt, p))

  address_at-Keeps :
      (port : Option (ServicePort V)) (port_of : ServicePort V → ℕ) (host : String)
      → Keeps P (address_at K I kube_client port port_of host)
  address_at-Keeps none port_of host = λ s p. (tt, p)
  address_at-Keeps (some x) port_of host = λ s p. (tt, p)

  address_by_type-Keeps :
      (t : ServiceType) (svc : Service V) → Keeps P (address_by_type K I kube_client t svc)
  address_by_type-Keeps node_port svc =
      >>=-Keeps P (node_ip K I kube_client) _ node_ip-Keeps
        (λ ip. address_at-Keeps (first_port svc) (λ p. p.node_port) ip)
  address_by_type-Keeps cluster_ip svc =
      address_at-Keeps (first_port svc) (λ p. p.port) (service_host svc)
  address_by_type-Keeps other svc = λ s p. (tt, p)

  address_if-Keeps :
      (name : String) (svc : Service V) → Keeps P (address_if K I kube_client name svc)
  address_if-Keeps name svc =
      if-Keeps P (svc.name == name) _ (pure none) (address_by_type-Keeps svc.spec.type svc)
        (λ s p. (tt, p))

  service_addresses-Keeps :
      (m : Minio V) (addr : MinioServiceAddr) (svcs : List (Service V))
      → Keeps P (service_addresses K I kube_client m addr svcs)
  unfolding service_addresses
  service_addresses-Keeps m addr [] = λ s p. (tt, p)
  service_addresses-Keeps m addr (svc ∷ svcs) =
      >>=-Keeps P (address_if K I kube_client (minio_ci_service_name m) svc) _
        (address_if-Keeps (minio_ci_service_name m) svc)
        (λ a.
          >>=-Keeps P (address_if K I kube_client (minio_console_service_name m) svc) _
            (address_if-Keeps (minio_console_service_name m) svc)
            (λ b. service_addresses-Keeps m (set_console (set_minio addr a) b) svcs))

  module _ (fuel : ℕ) where
    pool_statuses-Keeps :
        (m : Minio V) (pools : List (Pool V)) → Keeps P (pool_statuses K I kube_client fuel m pools)
    unfolding pool_statuses
    pool_statuses-Keeps m [] = λ s p. (tt, p)
    pool_statuses-Keeps m (pool ∷ pools) =
        let op = I.list_pods m.namespace (pool_selector m pool) in
        >>=-Keeps P (listed K I kube_client fuel op) _
          (listed-Keeps fuel op (λ s. O.pods s m.namespace (pool_selector m pool))
            (λ s. O.lists_pods s m.namespace (pool_selector m pool)))
          (λ pods.
            >>=-Keeps P (pool_statuses K I kube_client fuel m pools) _ (pool_statuses-Keeps m pools)
              (λ _ s p. (tt, p)))

    write_report-Keeps :
        (m : Minio V) (status : MinioStatus) → Keeps P (write_report K I kube_client fuel m status)
    unfolding write_report
    write_report-Keeps m status =
        >>=-Keeps P (update_minio_status K fuel (record m { status = status })) _
          (update_minio_status-Keeps K T fuel (record m { status = status })) (λ _ s p. (tt, p))

    report_status-Keeps : (m : Minio V) → Keeps P (report_status K I kube_client fuel m)
    unfolding report_status
    report_status-Keeps m =
        let l = minio_selector m in
        >>=-Keeps P (listed K I kube_client fuel (I.list_pvcs m.namespace l)) _
          (listed-Keeps fuel (I.list_pvcs m.namespace l) (λ s. O.claims s m.namespace l)
            (λ s. O.lists_claims s m.namespace l))
          (λ pvcs.
            >>=-Keeps P (listed K I kube_client fuel (I.list_services m.namespace l)) _
              (listed-Keeps fuel (I.list_services m.namespace l) (λ s. O.services s m.namespace l)
                (λ s. O.lists_services s m.namespace l))
              (λ svcs.
                >>=-Keeps P (service_addresses K I kube_client m no_addresses svcs) _
                  (service_addresses-Keeps m no_addresses svcs)
                  (λ addr.
                    >>=-Keeps P (pool_statuses K I kube_client fuel m (items m.spec.pools)) _
                      (pool_statuses-Keeps m (items m.spec.pools))
                      (λ pools. write_report-Keeps m (reported m.status pvcs addr pools)))))

    read-Keeps :
        (reply : Reply K.Error (Minio V))
        → Keeps P (elim reply as (λ _. Exec K.State K.Error Bool) [
          | value m ↦ report_status K I kube_client fuel m
          | failure e ↦
              if K.is_not_found e
              then raise e
              else report_status K I kube_client fuel (zero_minio V)
        ])
    read-Keeps (value m) = report_status-Keeps m
    read-Keeps (failure e) =
        if-Keeps P (K.is_not_found e) (raise e) _ (λ s p. (tt, p))
          (report_status-Keeps (zero_minio V))

    pub reconcile_status-Keeps :
        (namespace name : String) → Keeps P (reconcile_status K I kube_client fuel namespace name)
    unfolding reconcile_status
    reconcile_status-Keeps namespace name =
        >>=-Keeps P (call (K.get_minio namespace name)) _
          (λ s p. (tt, T.get_minio namespace name s p)) read-Keeps
