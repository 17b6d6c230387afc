-- ===== src/Topology.antt =====
-- internal/resources/topology.go, and what it reads of internal/resources/resources.go: the members
-- that a spec declares and those that a lowered count retires, and their names and addresses.
-- Ordinals and counts are `int32` values that are never negative.
pub mod Members
pub mod Retiring
pub mod Ordinals
pub mod Apart
use kubernetes_operator.Prelude.{
  ℕ, zero, suc, ◌-◌, String, Bool, true, false, not, Option, none, some, List, [], ◌∷◌, leb, ◌==◌,
  if◌then◌else◌, concat,
}
use kubernetes_operator.Prelude.Decimal.{decimal}
use kubernetes_operator.Memgraph.{CoordinatorSpec, DataInstanceSpec, coordinator_name}
use kubernetes_operator.Planner.View.{Topology}

-- What is read of a `MemgraphDBCluster`: its metadata, and the fields of the spec. `bolt_tls_secret` is
-- empty where the spec has no TLS block for Bolt.
pub record Cluster : Type 0 where
  pub name : String
  pub namespace : String
  pub coordinators : Option ℕ
  pub data_instances : Option ℕ
  pub cluster_domain : String
  pub bolt_tls_secret : String

-- `if spec.Coordinators != nil { … }` over the default
unfoldable pub int_or_default : Option ℕ → ℕ → ℕ
int_or_default none fallback = fallback
int_or_default (some n) fallback = n

-- `DeclaredCoordinators`
unfoldable pub declared_coordinators : Cluster → ℕ
unfolding int_or_default
declared_coordinators cluster = int_or_default cluster.coordinators 3

-- `DeclaredDataInstances`
unfoldable pub declared_data_instances : Cluster → ℕ
unfolding int_or_default
declared_data_instances cluster = int_or_default cluster.data_instances 2

unfoldable pub domain_of : Cluster → String
domain_of cluster = if cluster.cluster_domain == "" then "cluster.local" else cluster.cluster_domain

-- `CoordinatorName` and `DataName`
unfoldable pub coordinator_set_name : Cluster → String
unfolding concat
coordinator_set_name cluster = concat (cluster.name ∷ "-" ∷ "coordinator" ∷ [])

unfoldable pub data_set_name : Cluster → String
unfolding concat
data_set_name cluster = concat (cluster.name ∷ "-" ∷ "data" ∷ [])

-- `CoordinatorID`
unfoldable pub coordinator_id : ℕ → ℕ
coordinator_id ordinal = ordinal

-- `CoordinatorInstanceName` and `DataInstanceName`
unfoldable pub coordinator_instance_name : ℕ → String
unfolding coordinator_id
coordinator_instance_name ordinal = coordinator_name (record {
  id = coordinator_id ordinal;
  bolt_server = "";
  coordinator_server = "";
  management_server = "";
})

unfoldable pub data_instance_name : ℕ → String
unfolding concat decimal
data_instance_name ordinal = concat ("instance_" ∷ decimal ordinal ∷ [])

-- `PodName`
unfoldable pub pod_name : String → ℕ → String
unfolding concat decimal
pod_name stateful_set ordinal = concat (stateful_set ∷ "-" ∷ decimal ordinal ∷ [])

unfoldable pub pod_fqdn_suffix : Cluster → String → String
unfolding concat domain_of
pod_fqdn_suffix cluster service =
    concat (service ∷ "." ∷ cluster.namespace ∷ ".svc." ∷ domain_of cluster ∷ [])

unfoldable pub pod_fqdn : Cluster → String → ℕ → String
unfolding concat decimal pod_fqdn_suffix
pod_fqdn cluster service ordinal =
    concat (service ∷ "-" ∷ decimal ordinal ∷ "." ∷ pod_fqdn_suffix cluster service ∷ [])

unfoldable pub host_port : String → ℕ → String
unfolding concat decimal
host_port host port = concat (host ∷ ":" ∷ decimal port ∷ [])

-- `announcedBolt`
unfoldable pub announced_bolt : String → String → String
unfolding host_port
announced_bolt fqdn external_bolt =
    if not (external_bolt == "") then external_bolt else host_port fqdn 7687

-- `coordinator` and `dataInstance`
unfoldable pub coordinator : Cluster → ℕ → String → CoordinatorSpec
unfolding coordinator_set_name pod_fqdn announced_bolt host_port coordinator_id
coordinator cluster ordinal external_bolt =
    let fqdn = pod_fqdn cluster (coordinator_set_name cluster) ordinal in
    record {
      id = coordinator_id ordinal;
      bolt_server = announced_bolt fqdn external_bolt;
      coordinator_server = host_port fqdn 12000;
      management_server = host_port fqdn 10000;
    }

unfoldable pub data_instance : Cluster → ℕ → String → DataInstanceSpec
unfolding data_set_name pod_fqdn announced_bolt host_port data_instance_name
data_instance cluster ordinal external_bolt =
    let fqdn = pod_fqdn cluster (data_set_name cluster) ordinal in
    record {
      name = data_instance_name ordinal;
      bolt_server = announced_bolt fqdn external_bolt;
      management_server = host_port fqdn 10000;
      replication_server = host_port fqdn 20000;
    }

-- `ExternalAddresses`; a data instance that its map lacks has the empty address.
pub record ExternalAddresses : Type 0 where
  pub coordinators : String
  pub data_instances : ℕ → String

-- The loops over `count` ordinals from `start`.
unfoldable pub coordinators_from : Cluster → String → ℕ → ℕ → List CoordinatorSpec
coordinators_from cluster external_bolt start zero = []
coordinators_from cluster external_bolt start (suc count) =
    coordinator cluster start external_bolt
    ∷ coordinators_from cluster external_bolt (suc start) count

unfoldable pub data_instances_from : Cluster → (ℕ → String) → ℕ → ℕ → List DataInstanceSpec
data_instances_from cluster external_bolt start zero = []
data_instances_from cluster external_bolt start (suc count) =
    data_instance cluster start (external_bolt start)
    ∷ data_instances_from cluster external_bolt (suc start) count

-- `DeclaredTopology`
unfoldable pub declared_topology : Cluster → ExternalAddresses → Topology
unfolding coordinators_from data_instances_from declared_coordinators declared_data_instances
declared_topology cluster external = record {
  coordinators = coordinators_from cluster external.coordinators 0 (declared_coordinators cluster);
  data_instances =
      data_instances_from cluster external.data_instances 0 (declared_data_instances cluster);
  retiring_coordinators = [];
  retiring_data_instances = [];
}

-- `RetiringCoordinators`: the ordinals from the declared count up to the applied one.
unfoldable pub retiring_coordinators : Cluster → ℕ → List CoordinatorSpec
unfolding coordinators_from declared_coordinators
retiring_coordinators cluster applied =
    if leb applied (declared_coordinators cluster)
    then []
    else coordinators_from cluster "" (declared_coordinators cluster)
        (applied - declared_coordinators cluster)

-- `RetiringDataInstances`
unfoldable pub retiring_data_instances : Cluster → ℕ → List DataInstanceSpec
unfolding data_instances_from declared_data_instances
retiring_data_instances cluster applied =
    if leb applied (declared_data_instances cluster)
    then []
    else data_instances_from cluster (λ n. "") (declared_data_instances cluster)
        (applied - declared_data_instances cluster)

-- What `reconcileRegistration` plans against: the declared topology, with the retiring members.
unfoldable pub pass_topology : Cluster → ExternalAddresses → ℕ → ℕ → Topology
unfolding declared_topology retiring_coordinators retiring_data_instances
pass_topology cluster external coordinators_applied data_applied =
    record (declared_topology cluster external) {
      retiring_coordinators = retiring_coordinators cluster coordinators_applied;
      retiring_data_instances = retiring_data_instances cluster data_applied;
    }

pub record Endpoint : Type 0 where
  pub name : String
  pub pod : String
  pub address : String
  pub tls : Bool

-- `endpoints`, of the ordinals from `start` on.
unfoldable pub endpoints_from : Cluster → String → (ℕ → String) → ℕ → ℕ → List Endpoint
unfolding pod_name host_port pod_fqdn
endpoints_from cluster stateful_set instance_name start zero = []
endpoints_from cluster stateful_set instance_name start (suc count) =
    record {
      name = instance_name start;
      pod = pod_name stateful_set start;
      address = host_port (pod_fqdn cluster stateful_set start) 7687;
      tls = not (cluster.bolt_tls_secret == "");
    }
    ∷ endpoints_from cluster stateful_set instance_name (suc start) count

-- `CoordinatorEndpoints` and `DataEndpoints`
unfoldable pub coordinator_endpoints : Cluster → ℕ → List Endpoint
unfolding endpoints_from
coordinator_endpoints cluster running =
    endpoints_from cluster (coordinator_set_name cluster) coordinator_instance_name 0 running

unfoldable pub data_endpoints : Cluster → ℕ → List Endpoint
unfolding endpoints_from
data_endpoints cluster running =
    endpoints_from cluster (data_set_name cluster) data_instance_name 0 running
