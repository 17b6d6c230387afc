-- ===== src/External.antt =====
-- internal/resources/external.go and gateway.go: the names of the external objects, and the address that
-- clients outside the cluster reach a member at. The objects' metadata and status are Kubernetes'; what
-- is read of them is an argument. Ordinals are `int32` values that are never negative.
use Prim.Native.String as Text
use kubernetes_operator.Prelude.{
  ℕ, zero, suc, ◌+◌, ◌-◌, String, not, ◌&&◌, Option, none, some, List, [], ◌∷◌, ◌==◌, if◌then◌else◌,
  concat,
}
use kubernetes_operator.Prelude.Decimal.{decimal}
use kubernetes_operator.Prelude.Map.{Map}
use kubernetes_operator.Prelude.Pieces.{cut}
use kubernetes_operator.Prelude.Text.{cut_prefix, is_space, is_blank}
use kubernetes_operator.Settings.{setting_value}
use kubernetes_operator.Topology.{Cluster, coordinator_set_name, data_set_name, host_port}

-- `CoordinatorExternalServiceName` and `DataExternalServiceName`
unfoldable pub coordinator_external_service_name : Cluster → String
unfolding concat coordinator_set_name
coordinator_external_service_name cluster = concat (coordinator_set_name cluster ∷ "-external" ∷ [])

unfoldable pub data_external_service_name : Cluster → ℕ → String
unfolding concat data_set_name decimal
data_external_service_name cluster ordinal =
    concat (data_set_name cluster ∷ "-" ∷ decimal ordinal ∷ "-external" ∷ [])

-- `GatewayName`, `CoordinatorTCPRouteName` and `DataTCPRouteName`
unfoldable pub gateway_name : Cluster → String
unfolding concat
gateway_name cluster = concat (cluster.name ∷ "-" ∷ "gateway" ∷ [])

unfoldable pub coordinator_tcp_route_name : Cluster → String
unfolding concat coordinator_set_name
coordinator_tcp_route_name cluster = concat (coordinator_set_name cluster ∷ "-bolt" ∷ [])

unfoldable pub data_tcp_route_name : Cluster → ℕ → String
unfolding concat data_set_name decimal
data_tcp_route_name cluster ordinal =
    concat (data_set_name cluster ∷ "-" ∷ decimal ordinal ∷ "-bolt" ∷ [])

-- `DataGatewayPort`, over the base port that the spec gives.
unfoldable pub data_gateway_port : ℕ → ℕ → ℕ
data_gateway_port data_port_base ordinal = data_port_base + ordinal

-- `strings.ReplaceAll` of a text that is not empty; `skip` characters are left of an occurrence.
unfoldable pub replace_after : String → String → ℕ → String → String
unfolding cut_prefix
replace_after old new skip Text.[] = ""
replace_after old new (suc skip) (Text.◌∷◌ c s) = replace_after old new skip s
replace_after old new zero (Text.◌∷◌ c s) =
    let found = Text.◌++◌ new (replace_after old new (Text.len old - 1) s) in
    let kept = Text.◌∷◌ c (replace_after old new 0 s) in
    elim (cut_prefix old (Text.◌∷◌ c s)) [ none ↦ kept | some _ ↦ found ]

unfoldable pub replace_all : String → String → String → String
unfolding replace_after
replace_all old new s = replace_after old new 0 s

-- `perInstanceAnnotations`; a nil map is an empty one.
unfoldable pub per_instance_annotations : Map String → ℕ → Map String
unfolding replace_all decimal
per_instance_annotations [] ordinal = []
per_instance_annotations ((key, value) ∷ annotations) ordinal =
    (key, replace_all "{ordinal}" (decimal ordinal) value)
    ∷ per_instance_annotations annotations ordinal

-- `strings.TrimSpace`
unfoldable pub trim_start : String → String
unfolding is_space
trim_start Text.[] = ""
trim_start (Text.◌∷◌ c s) = let rest = trim_start s in if is_space c then rest else Text.◌∷◌ c s

unfoldable pub trim_end : String → String
unfolding is_space is_blank
trim_end Text.[] = ""
trim_end (Text.◌∷◌ c s) =
    let rest = trim_end s in if is_space c && is_blank rest then "" else Text.◌∷◌ c rest

unfoldable pub before_comma : String → Option (String × String) → String
before_comma whole none = whole
before_comma whole (some (first, rest)) = first

-- `externalDNSHost`
unfoldable pub external_dns_host : Map String → String
unfolding trim_start trim_end before_comma cut setting_value
external_dns_host annotations =
    let hostnames = setting_value annotations "external-dns.alpha.kubernetes.io/hostname" in
    trim_end (trim_start (before_comma hostnames (cut "," hostnames)))

pub record Ingress : Type 0 where
  pub hostname : String
  pub ip : String

-- A loop that returns the first text that is not empty.
unfoldable pub first_text : List String → String
first_text [] = ""
first_text (t ∷ ts) = if not (t == "") then t else first_text ts

unfoldable pub hostnames_of : List Ingress → List String
hostnames_of [] = []
hostnames_of (e ∷ es) = e.hostname ∷ hostnames_of es

unfoldable pub ips_of : List Ingress → List String
ips_of [] = []
ips_of (e ∷ es) = e.ip ∷ ips_of es

-- `if host == "" { host = … }`
unfoldable pub or_host : String → String → String
or_host host next = if host == "" then next else host

-- `loadBalancerHost`
unfoldable pub load_balancer_host : List Ingress → String
unfolding or_host first_text hostnames_of ips_of
load_balancer_host ingress =
    or_host (first_text (hostnames_of ingress)) (first_text (ips_of ingress))

unfoldable pub address_at : String → ℕ → String
unfolding host_port
address_at host port = if host == "" then "" else host_port host port

-- `ExternalBoltAddress`
unfoldable pub external_bolt_address : Map String → List Ingress → String
unfolding address_at or_host external_dns_host load_balancer_host
external_bolt_address annotations ingress =
    address_at (or_host (external_dns_host annotations) (load_balancer_host ingress)) 7687

-- `GatewayStatusAddress`; the type may be missing.
pub record GatewayAddress : Type 0 where
  pub address_type : Option String
  pub value : String

unfoldable pub hostname_value : GatewayAddress → String
hostname_value a = elim a.address_type [
  | none ↦ ""
  | some t ↦ if t == "Hostname" then a.value else ""
]

unfoldable pub ip_value : GatewayAddress → String
ip_value a = elim a.address_type [
  | none ↦ a.value
  | some t ↦ if t == "IPAddress" then a.value else ""
]

unfoldable pub values_by : (GatewayAddress → String) → List GatewayAddress → List String
values_by value [] = []
values_by value (a ∷ as_) = value a ∷ values_by value as_

-- `gatewayHost`
unfoldable pub gateway_host : List GatewayAddress → String
unfolding or_host first_text values_by hostname_value ip_value
gateway_host addresses =
    or_host (first_text (values_by hostname_value addresses))
      (first_text (values_by ip_value addresses))

-- What is read of a Gateway.
pub record Gateway : Type 0 where
  pub annotations : Map String
  pub addresses : List GatewayAddress

unfoldable pub route_host : Option (Map String) → String
unfolding external_dns_host
route_host none = ""
route_host (some annotations) = external_dns_host annotations

unfoldable pub hosts_of_gateway : Option Gateway → String
unfolding or_host external_dns_host gateway_host
hosts_of_gateway none = ""
hosts_of_gateway (some g) = or_host (external_dns_host g.annotations) (gateway_host g.addresses)

-- `GatewayBoltAddress`, of the Gateway and the annotations of the route.
unfoldable pub gateway_bolt_address : Option Gateway → Option (Map String) → ℕ → String
unfolding address_at or_host route_host hosts_of_gateway
gateway_bolt_address gateway route port =
    address_at (or_host (route_host route) (hosts_of_gateway gateway)) port
