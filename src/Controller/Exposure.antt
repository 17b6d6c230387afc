-- ===== src/Controller/Exposure.antt =====
-- internal/controller/memgraphdbcluster_controller.go: the external address of each exposed member, and
-- the objects that owe one, `observeExternalAccess` and `observeGatewayAccess`. What the API server
-- answers to the read of an object is an argument.
pub mod Pending
use kubernetes_operator.Prelude.{
  ℕ, zero, suc, String, Bool, true, false, not, ◌⊎◌, inl, inr, Option, none, some, List, [], ◌∷◌,
  ◌++◌, any, eqb, ◌==◌, if◌then◌else◌, concat,
}
use kubernetes_operator.Prelude.Map.{Map}
use kubernetes_operator.Topology.{
  Cluster, ExternalAddresses, declared_data_instances, data_instance_name,
}
use kubernetes_operator.External.{
  Ingress, Gateway, coordinator_external_service_name, data_external_service_name, gateway_name,
  coordinator_tcp_route_name, data_tcp_route_name, data_gateway_port, external_bolt_address,
  gateway_bolt_address,
}

-- `ExternalAccessStatus`: the coordinators' address, and the name and address of each data instance.
pub record ExternalAccessStatus : Type 0 where
  pub coordinators : String
  pub data_addresses : List (String × String)

-- `externalAccess`
pub record ExternalAccess : Type 0 where
  pub addresses : ExternalAddresses
  pub pending : List String
  pub failure : String
  pub status : Option ExternalAccessStatus

unfoldable pub no_external_access : ExternalAccess
no_external_access = record {
  addresses = record { coordinators = ""; data_instances = λ n. "" };
  pending = [];
  failure = "";
  status = none;
}

-- `newExternalAccess`
unfoldable pub new_external_access : ExternalAccess
unfolding no_external_access
new_external_access = record no_external_access {
  status = some (record { coordinators = ""; data_addresses = [] });
}

-- `waitOn`
unfoldable pub wait_on : String → List String → List String
wait_on name pending = if any (λ p. p == name) pending then pending else pending ++ (name ∷ [])

unfoldable pub waiting_on : String → String → List String → List String
unfolding wait_on
waiting_on address object pending = if address == "" then wait_on object pending else pending

unfoldable pub with_coordinators :
    String → Option ExternalAccessStatus → Option ExternalAccessStatus
with_coordinators address none = none
with_coordinators address (some status) = some (record status { coordinators = address })

unfoldable pub with_data_address :
    ℕ → String → Option ExternalAccessStatus → Option ExternalAccessStatus
unfolding data_instance_name
with_data_address ordinal address none = none
with_data_address ordinal address (some status) = some (record status {
  data_addresses = status.data_addresses ++ ((data_instance_name ordinal, address) ∷ []);
})

-- `announceCoordinators`
unfoldable pub announce_coordinators : String → String → ExternalAccess → ExternalAccess
unfolding waiting_on with_coordinators
announce_coordinators address object e = record e {
  addresses = record e.addresses { coordinators = address };
  pending = waiting_on address object e.pending;
  status = with_coordinators address e.status;
}

unfoldable pub address_for : ℕ → String → (ℕ → String) → ℕ → String
address_for ordinal address known k =
    if address == "" then known k else if eqb ordinal k then address else known k

-- `announceData`
unfoldable pub announce_data : ℕ → String → String → ExternalAccess → ExternalAccess
unfolding waiting_on with_data_address address_for
announce_data ordinal address object e = record e {
  addresses = record e.addresses {
    data_instances = address_for ordinal address e.addresses.data_instances;
  };
  pending = waiting_on address object e.pending;
  status = with_data_address ordinal address e.status;
}

module _ (address : ℕ → String ⊎ String) (object : ℕ → String) where
  unfoldable pub announce_read :
      ℕ
      → String ⊎ String
      → ExternalAccess
      → (ExternalAccess → String ⊎ ExternalAccess)
      → String ⊎ ExternalAccess
  unfolding announce_data
  announce_read ordinal (inl e) exposure next = inl e
  announce_read ordinal (inr a) exposure next =
      next (announce_data ordinal a (object ordinal) exposure)

  -- The loop over the data instances from `ordinal` on.
  unfoldable pub announce_from : ℕ → ℕ → ExternalAccess → String ⊎ ExternalAccess
  unfolding announce_read
  announce_from ordinal zero exposure = inr exposure
  announce_from ordinal (suc count) exposure =
      announce_read ordinal (address ordinal) exposure (announce_from (suc ordinal) count)

  -- Of an error or an address of the coordinators, and the object that owes it.
  unfoldable pub observe_members : String ⊎ String → String → ℕ → String ⊎ ExternalAccess
  unfolding announce_from announce_coordinators new_external_access
  observe_members (inl e) coordinators_object count = inl e
  observe_members (inr a) coordinators_object count =
      announce_from 0 count (announce_coordinators a coordinators_object new_external_access)

-- What the read of a Service answers.
pub data ServiceRead : Type 0 where
  no_service : ServiceRead
  service_error : String → ServiceRead
  service : Map String → List Ingress → ServiceRead

unfoldable pub service_address : String → ServiceRead → String ⊎ String
unfolding concat external_bolt_address
service_address name no_service = inr ""
service_address name (service_error e) =
    inl (concat ("getting external Service " ∷ name ∷ ": " ∷ e ∷ []))
service_address name (service annotations ingress) = inr (external_bolt_address annotations ingress)

-- `observeExternalAccess` where the exposure is by LoadBalancers.
unfoldable pub observe_services : Cluster → (String → ServiceRead) → String ⊎ ExternalAccess
unfolding observe_members service_address coordinator_external_service_name
    data_external_service_name declared_data_instances
observe_services cluster read =
    let coordinators = coordinator_external_service_name cluster in
    observe_members
      (λ n.
        service_address (data_external_service_name cluster n)
          (read (data_external_service_name cluster n)))
      (data_external_service_name cluster) (service_address coordinators (read coordinators))
      coordinators (declared_data_instances cluster)

-- What the read of a Gateway, or of a TCPRoute, answers.
pub data GatewayRead : Type 0 where
  no_gateway : GatewayRead
  gateway_error : String → GatewayRead
  gateway : Gateway → GatewayRead

pub data RouteRead : Type 0 where
  no_route : RouteRead
  route_error : String → RouteRead
  route : Map String → RouteRead

unfoldable pub route_address : Gateway → String → ℕ → RouteRead → String ⊎ String
unfolding concat gateway_bolt_address
route_address g name port no_route = inr (gateway_bolt_address (some g) none port)
route_address g name port (route_error e) =
    inl (concat ("getting TCPRoute " ∷ name ∷ ": " ∷ e ∷ []))
route_address g name port (route annotations) =
    inr (gateway_bolt_address (some g) (some annotations) port)

module _ (cluster : Cluster) (data_port_base : ℕ) (read_route : String → RouteRead) where
  unfoldable pub observe_found : GatewayRead → String ⊎ ExternalAccess
  unfolding observe_members route_address concat gateway_name coordinator_tcp_route_name
      data_tcp_route_name data_gateway_port declared_data_instances
  observe_found (gateway_error e) =
      inl (concat ("getting Gateway " ∷ gateway_name cluster ∷ ": " ∷ e ∷ []))
  observe_found no_gateway =
      observe_members (λ n. inr "") (λ n. gateway_name cluster) (inr "") (gateway_name cluster)
        (declared_data_instances cluster)
  observe_found (gateway g) =
      observe_members
        (λ n.
          route_address g (data_tcp_route_name cluster n) (data_gateway_port data_port_base n)
            (read_route (data_tcp_route_name cluster n)))
        (λ n. gateway_name cluster)
        (route_address g (coordinator_tcp_route_name cluster) 7687
          (read_route (coordinator_tcp_route_name cluster)))
        (gateway_name cluster) (declared_data_instances cluster)

  unfoldable pub failed_with : String → String ⊎ ExternalAccess → String ⊎ ExternalAccess
  failed_with message (inl e) = inl e
  failed_with message (inr exposure) = inr (record exposure { failure = message })

  -- `observeGatewayAccess`; `missing` is what the cluster lacks of the Gateway API, if anything.
  unfoldable pub observe_gateway : Option String → GatewayRead → String ⊎ ExternalAccess
  unfolding observe_found failed_with concat
  observe_gateway none read = observe_found read
  observe_gateway (some missing) read =
      failed_with
        (concat (
          "The Gateway API version the operator needs is not served by this cluster (" ∷ missing
          ∷ "): it builds gateway.networking.k8s.io/v1 Gateways and TCPRoutes, which "
          ∷ "Gateway API v1.6"
          ∷ " or newer serves and which a Gateway controller such as Envoy Gateway " ∷ "v1.9"
          ∷ " or newer installs. Install it, then restart the operator" ∷ []))
        (observe_found no_gateway)
