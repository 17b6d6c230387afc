-- ===== src/Controller/Pass.antt =====
-- internal/controller/memgraphdbcluster_controller.go: `reconcileRegistration` as a whole, of what the pass
-- read before. It returns its result, and leaves the status, the Events and the writes that the cache
-- is to show; the steps that it calls are those of the other modules. Log lines are left out.
pub mod Parts
pub mod Calls
pub mod Verdicts
pub mod Steps
pub mod Opened
pub mod Recorded
pub mod Shrunk
pub mod Unready
pub mod Rolled
pub mod Complete
use kubernetes_operator.Prelude.{
  ℕ, String, Bool, not, ◌⊎◌, inl, inr, Option, none, some, List, [], ◌∷◌, ◌++◌, length, ◌==◌,
  if◌then◌else◌, concat,
}
use kubernetes_operator.Prelude.Decimal.{decimal}
use kubernetes_operator.Prelude.Map.{Map}
use kubernetes_operator.Prelude.Ranges.{Entries}
use kubernetes_operator.Memgraph.{Instance, ReplicationLag}
use kubernetes_operator.Planner.Commands.{Command, command_text}
use kubernetes_operator.Planner.View.{Topology}
use kubernetes_operator.Planner.{plan}
use kubernetes_operator.Rollout.Roles.{Pod}
use kubernetes_operator.Rollout.{Range, next}
use kubernetes_operator.Topology.{Cluster, pass_topology, data_endpoints, coordinator_endpoints}
use kubernetes_operator.Expectations.{StatefulSets}
use kubernetes_operator.Controller.Applying.{Reads}
use kubernetes_operator.Controller.Conditions.{Condition, truncate_message}
use kubernetes_operator.Controller.Convergence.{
  VolumeOutcome, not_converged, converged_condition, Requeue, while_pending, after_registration,
  Ending, settled_ending,
}
use kubernetes_operator.Controller.CoordinatorSettings.{reconcile_coordinator_settings}
use kubernetes_operator.Controller.Events.{Event, pod, event, Failure, run_commands, recording}
use kubernetes_operator.Controller.Exposure.{ExternalAccess}
use kubernetes_operator.Controller.FlagClasses.{RolloutRoles, classify_flags, unknown_message}
use kubernetes_operator.Controller.FlagClasses.Exempting.{exempt_current_pods}
use kubernetes_operator.Controller.Leader.{
  Sighting, found, no_leader, no_answer, observe_cluster, observed_leader,
}
use kubernetes_operator.Controller.Registration.{
  Pass, waits_for_workloads, waits_for_leader, waits_for_survivor, sheds, settles, registers,
  retirement_message, yielded_leader, pass_commands,
}
use kubernetes_operator.Controller.Replicas.{RoleReplicas, workloads_ready}
use kubernetes_operator.Controller.Secrets.{SecretRead, reconcile_aws}
use kubernetes_operator.Controller.Settling.{
  SettingsOutcome, merge, data_part, coordinator_part, reconcile_settings,
}
use kubernetes_operator.Controller.Status.{
  Conditions, Observation, Status, observe_view, exposed_at, last_observed, not_serving,
  serving_or_not, set_status,
}
use kubernetes_operator.Controller.Pass.Calls.{
  World, restart_pod, retiring_roles, ShedEnd, all_shed, owner_error, apply_error, Shed, shed_roles,
}
use kubernetes_operator.Controller.Pass.Parts.{
  Inputs, topology_of, Settled, PassEnd, lag_or_none, in_progress, latest, not_yet, settle,
  settled_end,
}

module _ {S Connection C : Type 0} (world : World S Connection) (conditions : Conditions C)
    (quote : String → String) (range : Map String → Entries String) (order : Range)
    (p : Inputs) where
  module _ (shrinks : StatefulSets) (status : Status C) where
    -- A return that only sets conditions.
    unfoldable pub returns :
        Observation → List Condition → String ⊎ Requeue → List Event → S → PassEnd S C
    unfolding set_status
    returns o new result events s = record {
      result = result;
      status = set_status conditions p.generation o new status;
      events = events;
      shrinks = shrinks;
      state = s;
    }

    -- The pass could not observe the cluster.
    unfoldable pub unobserved_end : String → String → S → PassEnd S C
    unfolding returns last_observed exposed_at not_serving not_converged
    unobserved_end reason message s =
        returns (exposed_at (last_observed status) p.exposure)
          (not_serving reason message ∷ not_converged reason message ∷ []) (inr while_pending) [] s

    unfoldable pub waiting_for_workloads : S → PassEnd S C
    unfolding unobserved_end
    waiting_for_workloads s =
        unobserved_end "WorkloadsNotReady" "Waiting for all workload pods to become ready" s

    unfoldable pub deleted_end :
        List Condition → Ending → Observation → Pod → List Event → Option String × S → PassEnd S C
    unfolding returns event concat
    deleted_end new e o victim events (some err, s) = returns o new (inl err) events s
    deleted_end new e o victim events (none, s) =
        returns o new (inr e.requeue)
          (events
            ++ (event (pod victim.name) "PodRestarted" "Restart" (
                  concat
                    ("Deleted pod " ∷ victim.name ∷ " to restart it: " ∷ e.updated.message ∷ []))
                ∷ []))
          s

    unfoldable pub roll_end :
        List Condition → Ending → Observation → Option Pod → List Event → S → PassEnd S C
    unfolding returns deleted_end restart_pod
    roll_end new e o none events s = returns o new (inr e.requeue) events s
    roll_end new e o (some victim) events s =
        deleted_end new e o victim events (restart_pod world p.cluster victim s)

    -- The settings, the classes of the flags and the roll.
    unfoldable pub settled_pass : List Instance → List ReplicationLag → Settled S → PassEnd S C
    unfolding roll_end settled_end latest serving_or_not converged_condition topology_of
    settled_pass observed lag d =
        let e = settled_end order p observed lag d in
        let o = latest p observed in
        roll_end
          (serving_or_not o.main
            ∷ converged_condition (topology_of p) p.exposure p.monitor_failure d.owed p.claims
            ∷ e.updated
            ∷ [])
          e o e.deleted d.events d.state

    -- The pods of the retired members are shed. A refused apply is reported by `applyDesired`.
    unfoldable pub shed_end : List Instance → ShedEnd → Shed S → PassEnd S C
    unfolding returns latest not_yet last_observed not_serving not_converged truncate_message
        retirement_message topology_of
    shed_end observed all_shed shed =
        record (returns (latest p observed)
          (not_yet p observed "RetirementInProgress" (retirement_message (topology_of p)))
          (inr after_registration) shed.events shed.state) { shrinks = shed.shrinks }
    shed_end observed (owner_error e) shed = record {
      result = inl e;
      status = status;
      events = shed.events;
      shrinks = shed.shrinks;
      state = shed.state;
    }
    shed_end observed (apply_error e) shed =
        record (returns (last_observed status)
          (not_serving "ApplyFailed" (truncate_message e)
            ∷ not_converged "ApplyFailed" (truncate_message e)
            ∷ [])
          (inl e) shed.events shed.state) { shrinks = shed.shrinks }

    -- The commands were run over the recording client. The status was set before they were, and is
    -- set again where one was refused.
    unfoldable pub registered_end :
        List Instance → List Command → Option Failure × (S × List Event) → PassEnd S C
    unfolding returns latest not_yet in_progress truncate_message topology_of concat command_text
    registered_end observed commands (none, (s, events)) =
        let why = in_progress (topology_of p) commands in
        returns (latest p observed) (not_yet p observed why.0 why.1) (inr after_registration) events
          s
    registered_end observed commands (some (c, e), (s, events)) =
        let why = in_progress (topology_of p) commands in
        let err =
          concat ("executing registration command " ∷ quote (command_text c) ∷ ": " ∷ e ∷ []) in
        returns (latest p observed)
          (not_yet p observed why.0 why.1
            ++ not_yet p observed "RegistrationFailed" (truncate_message err))
          (inl err) events s

    -- What a pass does, of where it goes; the first two ways are not gone once there is a view.
    unfoldable pub go :
        Connection → List Instance → List ReplicationLag → Reads → Pass → S → PassEnd S C
    unfolding waiting_for_workloads unobserved_end returns not_yet shed_end shed_roles
        retiring_roles settled_pass settle registered_end run_commands recording yielded_leader
        latest topology_of
    go c observed lag reads waits_for_workloads s = waiting_for_workloads s
    go c observed lag reads waits_for_leader s = unobserved_end "" "" s
    go c observed lag reads waits_for_survivor s =
        returns (latest p observed)
          (not_yet p observed "NoCaughtUpSurvivor"
            "Waiting for a surviving data instance that is reachable and caught up with MAIN before moving MAIN off the instance being retired")
          (inr while_pending) [] s
    go c observed lag reads (sheds sets) s =
        let shed =
          shed_roles world p.cluster
            (retiring_roles (topology_of p) p.coordinators p.data_instances) shrinks s in
        shed_end observed shed.ending shed
    go c observed lag reads settles s =
        settled_pass observed lag (settle world quote range p c observed reads s)
    go c observed lag reads (registers commands) s = registered_end observed commands (
        run_commands (recording p.cluster (yielded_leader commands) (world.commands c)) commands
          (s, []))

    -- The leader was found, and its connection is closed at the end; an error of that is only logged.
    unfoldable pub closing : Connection → PassEnd S C → PassEnd S C
    closing c e = record e { state = (world.connector.close c e.state).1 }

    unfoldable pub sighted : Reads → Sighting Connection × S → PassEnd S C
    unfolding closing go pass_commands plan lag_or_none unobserved_end topology_of
    sighted reads (no_leader e, s) =
        unobserved_end "NoCoordinatorLeader"
          "No coordinator reported a leader, so the cluster has no Raft quorum" s
    sighted reads (no_answer e, s) =
        unobserved_end "CoordinatorUnreachable" "No coordinator answered SHOW INSTANCES" s
    sighted reads (found c observed, s) =
        let answer = world.show_replication_lag c s in
        let lag = lag_or_none answer.0 in
        closing c (
          go c observed lag reads
            (pass_commands (plan (topology_of p) observed lag) (topology_of p) observed
              p.coordinators.name p.data_instances.name)
            answer.1)

    -- `reconcileRegistration`
    unfoldable pub reconcile_registration : Reads → S → PassEnd S C
    unfolding sighted observe_cluster workloads_ready waiting_for_workloads coordinator_endpoints
    reconcile_registration reads s =
        if not
          (workloads_ready p.coordinators p.data_instances p.roles.coordinators p.roles.data_role)
        then waiting_for_workloads s
        else sighted reads (
            observe_cluster world.connector (coordinator_endpoints p.cluster p.coordinators.applied)
              s)
