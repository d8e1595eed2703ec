-- ===== src/Report/Addresses.antt =====
-- The addresses of the services in controllers/minio_status_controller.go, and `nodeIP`.
use minio_operator.Base.{
  ℕ, String, ◌<>◌, Bool, ◌&&◌, Option, none, some, List, [], ◌∷◌, ◌==◌, if◌then◌else◌,
}
use minio_operator.Base.Decimal.{itoa}
use minio_operator.Base.Exec.{Exec, Reply, value, failure, call, crash, pure, ◌>>=◌}
use minio_operator.Api.Values.{Values}
use minio_operator.Api.Objects.{ServiceType, cluster_ip, node_port, other, ServicePort, Service}
use minio_operator.Api.Types.{Minio, MinioServiceAddr}
use minio_operator.Api.Helper.{cluster_domain, minio_ci_service_name, minio_console_service_name}
use minio_operator.Cluster.{Cluster}
use minio_operator.Report.Inventory.{NodeAddress, Node, Inventory}

-- `corev1.NodeInternalIP`
abbrev pub internal_ip : String
internal_ip = "InternalIP"

-- The inner loop of `nodeIP`, over the addresses of a node; `is_ipv4` is `lctval.IsIpV4`.
unfoldable pub first_address : (String → Bool) → List NodeAddress → Option String
first_address is_ipv4 [] = none
first_address is_ipv4 (addr ∷ addresses) =
    let rest = first_address is_ipv4 addresses in
    if (addr.type == internal_ip) && is_ipv4 addr.address then some addr.address else rest

abbrev pub or_else : Option String → String → String
or_else none d = d
or_else (some a) d = a

-- The loop of `nodeIP` over the nodes.
unfoldable pub first_node_ip : (String → Bool) → List Node → String
unfolding first_address
first_node_ip is_ipv4 [] = ""
first_node_ip is_ipv4 (node ∷ nodes) =
    or_else (first_address is_ipv4 node.addresses) (first_node_ip is_ipv4 nodes)

-- `nodeIP`, once the nodes are listed: an error is only logged.
abbrev pub listed_node_ip : {E : Type 0} → (String → Bool) → Reply E (List Node) → String
listed_node_ip is_ipv4 (value nodes) = first_node_ip is_ipv4 nodes
listed_node_ip is_ipv4 (failure _) = ""

-- `http://host:port`
abbrev pub http_address : String → ℕ → String
http_address host port = "http://" <> (host <> (":" <> itoa port))

-- The host of a service within the cluster.
abbrev pub service_host : {V : Values} → Service V → String
service_host svc = svc.name <> ("." <> (svc.namespace <> (".svc." <> cluster_domain)))

-- The element at index 0, if there is one.
abbrev pub head_of : {A : Type 0} → List A → Option A
head_of [] = none
head_of (x ∷ xs) = some x

-- `svc.Spec.Ports[0]`
abbrev pub first_port : {V : Values} → Service V → Option (ServicePort V)
first_port svc = head_of svc.spec.ports

abbrev pub set_minio : MinioServiceAddr → Option String → MinioServiceAddr
set_minio addr none = addr
set_minio addr (some a) = record addr { minio = a }

abbrev pub set_console : MinioServiceAddr → Option String → MinioServiceAddr
set_console addr none = addr
set_console addr (some a) = record addr { console = a }

module _ {V : Values} (K : Cluster V) (I : Inventory K) (kube_client : Bool) where
  open K use {State, Error}

  -- A call through `KubeClient`
  abbrev pub through : {A : Type 0} → Exec State Error A → Exec State Error A
  through m = if kube_client then m else crash

  -- `nodeIP`
  unfoldable pub node_ip : Exec State Error String
  unfolding first_node_ip
  node_ip = through (call I.list_nodes) >>= λ reply. pure (listed_node_ip I.is_ipv4 reply)

  -- The address at the first port, by which `port_of` picks a number; without a port the index is out
  -- of range.
  abbrev pub address_at :
      Option (ServicePort V) → (ServicePort V → ℕ) → String → Exec State Error (Option String)
  address_at none port_of host = crash
  address_at (some p) port_of host = pure (some (http_address host (port_of p)))

  -- The `switch` on the type of a service; `none` where no case applies.
  abbrev pub address_by_type : ServiceType → Service V → Exec State Error (Option String)
  address_by_type node_port svc =
      node_ip >>= λ ip. address_at (first_port svc) (λ p. p.node_port) ip
  address_by_type cluster_ip svc = address_at (first_port svc) (λ p. p.port) (service_host svc)
  address_by_type other svc = pure none

  -- The address of a service, if its name is the one that is looked for.
  abbrev pub address_if : String → Service V → Exec State Error (Option String)
  address_if name svc = if svc.name == name then address_by_type svc.spec.type svc else pure none

  -- The loop that sets `svcStatus`.
  unfoldable pub service_addresses :
      Minio V → MinioServiceAddr → List (Service V) → Exec State Error MinioServiceAddr
  unfolding node_ip minio_ci_service_name minio_console_service_name
  service_addresses m addr [] = pure addr
  service_addresses m addr (svc ∷ svcs) = address_if (minio_ci_service_name m) svc >>= λ a.
      address_if (minio_console_service_name m) svc >>= λ b.
      service_addresses m (set_console (set_minio addr a) b) svcs
