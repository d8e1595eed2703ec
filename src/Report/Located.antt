-- ===== src/Report/Located.antt =====
-- Which addresses the status controller reports for the services that it lists.
use mathlib.Core.Option
use minio_operator.Base.{
  ℕ, String, true, Option, none, some, List, [], ◌∷◌, ◌++◌, All, ◌==◌, ◌≡◌, ◌≢◌, ◌⊎◌, inl, inr,
  refl, ap, ◌∙◌, arith, eq_iff, Bool-cases, if◌then◌else◌,
}
use minio_operator.Base.Exec.{ok, panic, value}
use minio_operator.Api.Values.{Values}
use minio_operator.Api.Objects.{ServiceType, cluster_ip, node_port, other, ServicePort, Service}
use minio_operator.Api.Types.{Minio, MinioServiceAddr}
use minio_operator.Api.Helper.{minio_ci_service_name, minio_console_service_name}
use minio_operator.Cluster.{Cluster}
use minio_operator.Report.Inventory.{Node, Inventory}
use minio_operator.Report.Addresses.{
  first_node_ip, http_address, service_host, first_port, head_of, or_else, set_minio, set_console,
  node_ip, address_at, address_by_type, address_if, service_addresses,
}

module _ {V : Values} where
  -- A service whose address the controller can read: of another type, or with a port.
  abbrev pub IsReportable : Service V → Type 0
  IsReportable svc = (svc.spec.type ≡ other) ⊎ (svc.spec.ports ≢ [])

  -- What a service is reported as where nodes have the address `ip`.
  abbrev pub described : String → ServiceType → Option (ServicePort V) → Service V → Option String
  described ip node_port port svc =
      Option.map (λ (p : ServicePort V). http_address ip p.node_port) port
  described ip cluster_ip port svc =
      Option.map (λ (p : ServicePort V). http_address (service_host svc) p.port) port
  described ip other port svc = none

  -- The address that a service contributes under a name.
  abbrev pub contributed : String → String → Service V → Option String
  contributed ip name svc =
      if svc.name == name then described ip svc.spec.type (first_port svc) svc else none

  -- The address of the last service of a name that has one, `d` if there is none.
  abbrev pub latest : String → String → String → List (Service V) → String
  latest ip name d [] = d
  latest ip name d (svc ∷ svcs) = latest ip name (or_else (contributed ip name svc) d) svcs

module _ {V : Values} (K : Cluster V) (I : Inventory K) (nodes : List Node) (s : K.State)
    (listed : I.list_nodes s ≡ (value nodes, s)) where
  abbrev ip : String
  ip = first_node_ip I.is_ipv4 nodes

  node_ip_lem : node_ip K I true s ≡ (ok ip, s)
  unfolding node_ip
  node_ip_lem = rw listed refl

  address_at_lem :
      (ports : List (ServicePort V)) (port_of : ServicePort V → ℕ) (host : String)
      → ports ≢ []
      → address_at K I true (head_of ports) port_of host s
        ≡ (ok (Option.map (λ p. http_address host (port_of p)) (head_of ports)), s)
  address_at_lem [] port_of host h = absurd (h refl)
  address_at_lem (p ∷ ports) port_of host h = refl

  address_by_type_lem :
      (t : ServiceType) (svc : Service V)
      → (t ≡ other) ⊎ (svc.spec.ports ≢ [])
      → address_by_type K I true t svc s ≡ (ok (described ip t (first_port svc) svc), s)
  address_by_type_lem node_port svc (inl h) = cc
  address_by_type_lem node_port svc (inr h) =
      rw node_ip_lem (address_at_lem svc.spec.ports (λ p. p.node_port) ip h)
  address_by_type_lem cluster_ip svc (inl h) = cc
  address_by_type_lem cluster_ip svc (inr h) =
      address_at_lem svc.spec.ports (λ p. p.port) (service_host svc) h
  address_by_type_lem other svc h = refl

  address_if_lem :
      (name : String) (svc : Service V)
      → IsReportable svc
      → address_if K I true name svc s ≡ (ok (contributed ip name svc), s)
  address_if_lem name svc h = elim (Bool-cases (svc.name == name)) [
    | inl e ↦ rw e (address_by_type_lem svc.spec.type svc h)
    | inr e ↦ rw e refl
  ]

  -- One round sets each address as `latest` does.
  set_lem :
      (addr : MinioServiceAddr) (a b : Option String)
      → set_console (set_minio addr a) b
        ≡ record { minio = or_else a addr.minio; console = or_else b addr.console }
  set_lem addr none none = refl
  set_lem addr none (some b) = refl
  set_lem addr (some a) none = refl
  set_lem addr (some a) (some b) = refl

  -- Where the nodes are listed and every listed service can be reported, the loop over the services
  -- changes nothing, and it finds for each of the two names the address of the last service of that
  -- name that has one.
  pub service_addresses-latest :
      (m : Minio V) (addr : MinioServiceAddr) (svcs : List (Service V))
      → All IsReportable svcs
      → service_addresses K I true m addr svcs s ≡ (
        ok (record {
          minio = latest ip (minio_ci_service_name m) addr.minio svcs;
          console = latest ip (minio_console_service_name m) addr.console svcs;
        }),
        s,
      )
  unfolding service_addresses
  service_addresses-latest m addr [] h = refl
  service_addresses-latest m addr (svc ∷ svcs) (r, h) =
      let ci = minio_ci_service_name m in
      let console = minio_console_service_name m in
      rw (address_if_lem ci svc r, address_if_lem console svc r)
        (service_addresses-latest m
            (set_console (set_minio addr (contributed ip ci svc)) (contributed ip console svc)) svcs
            h
          ∙ ap
              (λ (x : MinioServiceAddr). (
                ok (record {
                  minio = latest ip ci x.minio svcs;
                  console = latest ip console x.console svcs;
                }),
                s,
              ))
              (set_lem addr (contributed ip ci svc) (contributed ip console svc)))

  address_by_type_panics :
      (t : ServiceType) (svc : Service V)
      → t ≢ other
      → svc.spec.ports ≡ []
      → address_by_type K I true t svc s ≡ (panic, s)
  address_by_type_panics node_port svc n p = rw (node_ip_lem, p) refl
  address_by_type_panics cluster_ip svc n p = rw p refl
  address_by_type_panics other svc n p = absurd (n refl)

  -- The round of the loop for such a service.
  service_addresses_here :
      (m : Minio V) (addr : MinioServiceAddr) (after : List (Service V)) (svc : Service V)
      → (svc.name ≡ minio_ci_service_name m) ⊎ (svc.name ≡ minio_console_service_name m)
      → svc.spec.type ≢ other
      → svc.spec.ports ≡ []
      → service_addresses K I true m addr (svc ∷ after) s ≡ (panic, s)
  unfolding service_addresses
  service_addresses_here m addr after svc n t p =
      let broken = address_by_type_panics svc.spec.type svc t p in
      elim (Bool-cases (svc.name == minio_ci_service_name m)) [
        | inl e ↦ rw (e, broken) refl
        | inr e ↦ elim n [
          | inl q ↦ absurd (ground (arith, eq_iff svc.name (minio_ci_service_name m)))
          | inr q ↦ rw (e, (eq_iff svc.name (minio_console_service_name m)).1 q, broken) refl
        ]
      ]

  -- A listed service of one of the two names, of type NodePort or ClusterIP and without a port, makes
  -- the controller panic, if the services listed before it can be reported.
  pub service_addresses_panics :
      (m : Minio V) (addr : MinioServiceAddr) (before after : List (Service V)) (svc : Service V)
      → All IsReportable before
      → (svc.name ≡ minio_ci_service_name m) ⊎ (svc.name ≡ minio_console_service_name m)
      → svc.spec.type ≢ other
      → svc.spec.ports ≡ []
      → service_addresses K I true m addr (before ++ svc ∷ after) s ≡ (panic, s)
  unfolding service_addresses
  service_addresses_panics m addr [] after svc h n t p =
      service_addresses_here m addr after svc n t p
  service_addresses_panics m addr (x ∷ before) after svc (r, h) n t p =
      rw
        (
          address_if_lem (minio_ci_service_name m) x r,
          address_if_lem (minio_console_service_name m) x r,
        )
        (service_addresses_panics m
          (set_console (set_minio addr (contributed ip (minio_ci_service_name m) x))
            (contributed ip (minio_console_service_name m) x))
          before after svc h n t p)
