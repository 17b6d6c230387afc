-- ===== src/Controller/Pass/Parts.antt =====
-- internal/controller/memgraphdbcluster_controller.go, `reconcileRegistration`: what the pass is given and
-- leaves, what it writes while it is not done, and its steps over a converged registration.
use kubernetes_operator.Prelude.{
  ℕ, String, not, ◌⊎◌, inl, inr, List, [], ◌∷◌, ◌++◌, length, ◌==◌, if◌then◌else◌, concat,
}
use kubernetes_operator.Prelude.Decimal.{decimal}
use kubernetes_operator.Prelude.Map.{Map}
use kubernetes_operator.Prelude.Ranges.{Entries}
use kubernetes_operator.Memgraph.{Instance, ReplicationLag}
use kubernetes_operator.Planner.Commands.{Command}
use kubernetes_operator.Planner.View.{Topology}
use kubernetes_operator.Rollout.{Range, next}
use kubernetes_operator.Topology.{Cluster, pass_topology, data_endpoints, coordinator_endpoints}
use kubernetes_operator.Expectations.{StatefulSets}
use kubernetes_operator.Controller.Applying.{Reads}
use kubernetes_operator.Controller.Conditions.{Condition}
use kubernetes_operator.Controller.Convergence.{
  VolumeOutcome, not_converged, Requeue, Ending, settled_ending,
}
use kubernetes_operator.Controller.CoordinatorSettings.{reconcile_coordinator_settings}
use kubernetes_operator.Controller.Events.{Event}
use kubernetes_operator.Controller.Exposure.{ExternalAccess}
use kubernetes_operator.Controller.FlagClasses.{RolloutRoles, classify_flags, unknown_message}
use kubernetes_operator.Controller.FlagClasses.Exempting.{exempt_current_pods}
use kubernetes_operator.Controller.Leader.{observed_leader}
use kubernetes_operator.Controller.Registration.{retirement_message, yielded_leader}
use kubernetes_operator.Controller.Replicas.{RoleReplicas}
use kubernetes_operator.Controller.Secrets.{SecretRead, reconcile_aws}
use kubernetes_operator.Controller.Settling.{
  SettingsOutcome, merge, data_part, coordinator_part, reconcile_settings,
}
use kubernetes_operator.Controller.Status.{
  Observation, Status, observe_view, exposed_at, serving_or_not,
}
use kubernetes_operator.Controller.Pass.Calls.{World}

-- What the pass is given: the cluster and what its spec says, and what the pass read of Kubernetes. The
-- flags are those of each role's file, and those of the spec; `monitor_failure` is what
-- `serviceMonitorFailure` answers, and `aws_secret` is empty where the spec names none.
pub record Inputs : Type 0 where
  pub cluster : Cluster
  pub generation : ℕ
  pub coordinators : RoleReplicas
  pub data_instances : RoleReplicas
  pub exposure : ExternalAccess
  pub roles : RolloutRoles
  pub claims : VolumeOutcome
  pub monitor_failure : String
  pub coordinator_flags : Map String
  pub data_flags : Map String
  pub coordinators_spec : Map String
  pub data_spec : Map String
  pub aws_secret : String
  pub aws_read : SecretRead

unfoldable pub topology_of : Inputs → Topology
unfolding pass_topology
topology_of p =
    pass_topology p.cluster p.exposure.addresses p.coordinators.applied p.data_instances.applied

-- What is left of the settings, the roles as the exemption leaves them, and the keys that it could not
-- classify.
pub record Settled (S : Type 0) : Type 0 where
  pub owed : SettingsOutcome
  pub roles : RolloutRoles
  pub unclassified : List String
  pub events : List Event
  pub state : S

-- What `reconcileRegistration` returns and leaves.
pub record PassEnd (S C : Type 0) : Type 0 where
  pub result : String ⊎ Requeue
  pub status : Status C
  pub events : List Event
  pub shrinks : StatefulSets
  pub state : S

-- `if err != nil { lag = nil }`
unfoldable pub lag_or_none : String ⊎ List ReplicationLag → List ReplicationLag
lag_or_none (inl e) = []
lag_or_none (inr lag) = lag

-- The reason and the message of a pass that runs commands.
unfoldable pub in_progress : Topology → List Command → String × String
unfolding retirement_message yielded_leader concat decimal
in_progress t commands =
    let retiring = retirement_message t in
    let yielded = yielded_leader commands in
    if not (yielded == "")
    then (
      "LeadershipTransferInProgress",
      concat (
          "Retiring coordinator " ∷ yielded
          ∷ " holds Raft leadership, which cannot be removed: yielding it to another member" ∷ []),
    )
    else if not (retiring == "")
    then ("RetirementInProgress", retiring)
    else (
      "RegistrationInProgress",
      concat (
          "Issuing "
          ∷ decimal (length commands)
          ∷ " registration command(s) to converge the cluster"
          ∷ []),
    )

-- What a pass publishes of a view.
unfoldable pub latest : Inputs → List Instance → Observation
unfolding observe_view exposed_at topology_of
latest p observed = exposed_at (observe_view (topology_of p) observed) p.exposure

-- The conditions of a view, and why the cluster is not converged.
unfoldable pub not_yet : Inputs → List Instance → String → String → List Condition
unfolding serving_or_not latest not_converged
not_yet p observed reason message =
    serving_or_not (latest p observed).main ∷ not_converged reason message ∷ []

module _ {S Connection : Type 0} (world : World S Connection) (quote : String → String)
    (range : Map String → Entries String) (p : Inputs) where
  -- The steps of a pass over a converged registration, up to `exemptCurrentPods`.
  unfoldable pub settle : Connection → List Instance → Reads → S → Settled S
  unfolding reconcile_settings reconcile_aws classify_flags reconcile_coordinator_settings merge
      unknown_message exempt_current_pods observed_leader data_endpoints coordinator_endpoints
  settle c observed reads s =
      let data_role = data_part p.cluster p.data_instances.applied p.roles.data_role.pods in
      let coordinator_role =
        coordinator_part p.cluster p.coordinators.applied p.roles.coordinators.pods in
      let settings =
        reconcile_settings world.instances quote range data_role coordinator_role p.data_flags
          p.coordinator_flags reads s in
      let credentials =
        reconcile_aws world.instances quote range p.aws_secret p.aws_read data_role settings.reads
          settings.state in
      let classes =
        classify_flags world.instances (world.instances.show_config c)
          (world.show_coordinator_settings c) p.roles data_role.endpoints coordinator_role.endpoints
          (range p.coordinators_spec) (range p.data_spec) credentials.state in
      let cluster_wide =
        reconcile_coordinator_settings quote (world.set_coordinator_setting c) p.cluster
          (observed_leader observed) range p.coordinator_flags p.coordinators_spec classes.0
          classes.1 in
      let exempt = exempt_current_pods range p.roles classes.0 in
      record {
        owed = record (merge (merge settings.outcome credentials.outcome) cluster_wide.outcome) {
          unknown = unknown_message classes.0;
        };
        roles = exempt.0;
        unclassified = exempt.1;
        events = settings.events ++ (credentials.events ++ cluster_wide.events);
        state = cluster_wide.state;
      }

module _ {S : Type 0} (order : Range) (p : Inputs) where
  unfoldable pub settled_end : List Instance → List ReplicationLag → Settled S → Ending
  unfolding settled_ending next
  settled_end observed lag d =
      settled_ending d.unclassified (next order d.roles.data_role d.roles.coordinators observed lag)
        d.owed p.claims
