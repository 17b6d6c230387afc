-- ===== src/Controller/Pass/Opened.antt =====
-- internal/controller/memgraphdbcluster_controller.go, `reconcileRegistration`: the connections that a
-- whole pass leaves open.
use kubernetes_operator.Prelude.{
  ℕ, String, ◌≡◌, refl, ◌∙◌, inl, inr, Option, none, some, List, [], ◌∷◌, Bool-cases, arith,
}
use kubernetes_operator.Prelude.Map.{Map}
use kubernetes_operator.Prelude.Ranges.{Entries}
use kubernetes_operator.Memgraph.{Instance, ReplicationLag}
use kubernetes_operator.Planner.Commands.{Command}
use kubernetes_operator.Planner.{plan}
use kubernetes_operator.Rollout.{Range}
use kubernetes_operator.Rollout.Roles.{Pod}
use kubernetes_operator.Topology.{coordinator_endpoints}
use kubernetes_operator.Expectations.{StatefulSets}
use kubernetes_operator.Controller.Applying.{Reads}
use kubernetes_operator.Controller.Applying.Opened.{
  Opens, reconcile_settings-opened, reconcile_aws-opened,
}
use kubernetes_operator.Controller.Conditions.{Condition}
use kubernetes_operator.Controller.Convergence.{Ending, converged_condition}
use kubernetes_operator.Controller.Events.{Event, Failure}
use kubernetes_operator.Controller.FlagClasses.{classify_flags}
use kubernetes_operator.Controller.FlagClasses.Opened.{classify_flags-opened}
use kubernetes_operator.Controller.Leader.{Sighting, found, no_leader, no_answer, observed_leader}
use kubernetes_operator.Controller.Leader.Connections.{Counts, kept, observe_cluster-Kept}
use kubernetes_operator.Controller.Registration.{
  Pass, waits_for_workloads, waits_for_leader, waits_for_survivor, sheds, settles, registers,
  yielded_leader, pass_commands,
}
use kubernetes_operator.Controller.Replicas.{RoleReplicas, workloads_ready}
use kubernetes_operator.Controller.Status.{Conditions, Status, Observation, serving_or_not}
use kubernetes_operator.Controller.Pass.{
  returns, unobserved_end, waiting_for_workloads, deleted_end, roll_end, settled_pass, shed_end,
  registered_end, go, closing, sighted, reconcile_registration,
}
use kubernetes_operator.Controller.Pass.Parts.{
  Inputs, topology_of, latest, lag_or_none, settle, settled_end,
}
use kubernetes_operator.Controller.Pass.Calls.{
  World, ApplyAnswer, not_owned, not_applied, applied, ShedEnd, all_shed, owner_error, apply_error,
  Shed, shed_answered, shed_roles, restart_pod,
}
use kubernetes_operator.Controller.Settling.{data_part, coordinator_part, reconcile_settings}
use kubernetes_operator.Controller.Secrets.{reconcile_aws}
use kubernetes_operator.Controller.Pass.Steps.{
  Keeps, recorded_commands-opened, coordinator_settings-opened,
}

-- How what a pass calls changes the number of the open connections.
pub record CountsAll {S Connection : Type 0} (world : World S Connection) (opened : S → ℕ)
    : Type 0 where
  pub connector : Counts world.connector opened
  pub instances : Opens world.instances opened
  pub shows_lag : (c : Connection) (s : S) → opened (world.show_replication_lag c s).1 ≡ opened s
  pub shows_coordinator_settings :
      (c : Connection) (s : S) → opened (world.show_coordinator_settings c s).1 ≡ opened s
  pub sets_coordinator_setting :
      (c : Connection) (k v : String) (s : S)
      → opened (world.set_coordinator_setting c k v s).1 ≡ opened s
  pub commands : (c : Connection) → Keeps (world.commands c) opened
  pub applies : (name : String) (n : ℕ) (s : S) → opened (world.apply name n s).1 ≡ opened s
  pub deletes : (p : Pod) (s : S) → opened (world.delete_pod p s).1 ≡ opened s

module _ {S Connection C : Type 0} (world : World S Connection) (conditions : Conditions C)
    (quote : String → String) (range : Map String → Entries String) (order : Range) (p : Inputs)
    (opened : S → ℕ) (counts : CountsAll world opened) where
  settle-opened :
      (c : Connection) (rows : List Instance) (reads : Reads) (s : S) (n : ℕ)
      → opened s ≡ n
      → opened (settle world quote range p c rows reads s).state ≡ n
  unfolding settle
  settle-opened c rows reads s n h =
      let data_role = data_part p.cluster p.data_instances.applied p.roles.data_role.pods in
      let coordinator_role =
        coordinator_part p.cluster p.coordinators.applied p.roles.coordinators.pods in
      let settings =
        reconcile_settings world.instances quote range data_role coordinator_role p.data_flags
          p.coordinator_flags reads s in
      let credentials =
        reconcile_aws world.instances quote range p.aws_secret p.aws_read data_role settings.reads
          settings.state in
      let classes =
        classify_flags world.instances (world.instances.show_config c)
          (world.show_coordinator_settings c) p.roles data_role.endpoints coordinator_role.endpoints
          (range p.coordinators_spec) (range p.data_spec) credentials.state in
      let one =
        reconcile_settings-opened world.instances opened counts.instances quote range data_role
          coordinator_role p.data_flags p.coordinator_flags reads s n h in
      let two =
        reconcile_aws-opened world.instances opened counts.instances quote range p.aws_secret
          p.aws_read data_role settings.reads settings.state n one in
      let three =
        classify_flags-opened world.instances opened counts.instances
          (world.instances.show_config c) (world.show_coordinator_settings c)
          (counts.instances.shows_config c) (counts.shows_coordinator_settings c) p.roles
          data_role.endpoints coordinator_role.endpoints (range p.coordinators_spec)
          (range p.data_spec) credentials.state n two in
      coordinator_settings-opened quote (world.set_coordinator_setting c) p.cluster
        (observed_leader rows) opened (counts.sets_coordinator_setting c) range p.coordinator_flags
        p.coordinators_spec classes.0 classes.1
      ∙ three

  shed_answered-opened :
      (r : RoleReplicas) (shrinks : StatefulSets) (o : ApplyAnswer × S)
      (next : StatefulSets → S → Shed S)
      → ((later : StatefulSets) (s : S) → opened (next later s).state ≡ opened s)
      → opened (shed_answered world p.cluster r shrinks o next).state ≡ opened o.1
  unfolding shed_answered
  shed_answered-opened r shrinks (not_owned e, s) next after = refl
  shed_answered-opened r shrinks (not_applied e, s) next after = refl
  shed_answered-opened r shrinks (applied w, s) next after = after _ s

  shed_roles-opened :
      (rs : List RoleReplicas) (shrinks : StatefulSets) (s : S)
      → opened (shed_roles world p.cluster rs shrinks s).state ≡ opened s
  unfolding shed_roles
  shed_roles-opened [] shrinks s = refl
  shed_roles-opened (r ∷ rs) shrinks s =
      shed_answered-opened r shrinks (world.apply r.name r.declared s) _
        (λ later t. shed_roles-opened rs later t)
      ∙ counts.applies r.name r.declared s

  module _ (shrinks : StatefulSets) (status : Status C) where
    deleted_end-opened :
        (new : List Condition) (e : Ending) (o : Observation) (victim : Pod) (events : List Event)
        (answer : Option String × S)
        → opened
            (deleted_end world conditions quote range order p shrinks status new e o victim events
              answer).state
          ≡ opened answer.1
    unfolding deleted_end returns
    deleted_end-opened new e o victim events (none, s) = refl
    deleted_end-opened new e o victim events (some err, s) = refl

    roll_end-opened :
        (new : List Condition) (e : Ending) (o : Observation) (victim : Option Pod)
        (events : List Event) (s : S)
        → opened
            (roll_end world conditions quote range order p shrinks status new e o victim events
              s).state
          ≡ opened s
    unfolding roll_end returns restart_pod
    roll_end-opened new e o none events s = refl
    roll_end-opened new e o (some victim) events s =
        deleted_end-opened new e o victim events _ ∙ counts.deletes victim s

    shed_end-opened :
        (rows : List Instance) (ending : ShedEnd) (shed : Shed S)
        → opened
            (shed_end world conditions quote range order p shrinks status rows ending shed).state
          ≡ opened shed.state
    unfolding shed_end returns
    shed_end-opened rows all_shed shed = refl
    shed_end-opened rows (owner_error e) shed = refl
    shed_end-opened rows (apply_error e) shed = refl

    registered_end-opened :
        (rows : List Instance) (cs : List Command) (o : Option Failure × (S × List Event))
        → opened
            (registered_end world conditions quote range order p shrinks status rows cs o).state
          ≡ opened o.1.0
    unfolding registered_end returns
    registered_end-opened rows cs (none, (s, events)) = refl
    registered_end-opened rows cs (some (c, e), (s, events)) = refl

    go-opened :
        (c : Connection) (rows : List Instance) (lag : List ReplicationLag) (reads : Reads)
        (way : Pass) (s : S)
        → opened
            (go world conditions quote range order p shrinks status c rows lag reads way s).state
          ≡ opened s
    unfolding go waiting_for_workloads unobserved_end returns settled_pass
    go-opened c rows lag reads waits_for_workloads s = refl
    go-opened c rows lag reads waits_for_leader s = refl
    go-opened c rows lag reads waits_for_survivor s = refl
    go-opened c rows lag reads (sheds sets) s =
        shed_end-opened rows _ _ ∙ shed_roles-opened _ shrinks s
    go-opened c rows lag reads settles s =
        let d = settle world quote range p c rows reads s in
        let e = settled_end order p rows lag d in
        roll_end-opened
          (serving_or_not (latest p rows).main
            ∷ converged_condition (topology_of p) p.exposure p.monitor_failure d.owed p.claims
            ∷ e.updated
            ∷ [])
          e (latest p rows) e.deleted d.events d.state
        ∙ settle-opened c rows reads s (opened s) refl
    go-opened c rows lag reads (registers cs) s =
        registered_end-opened rows cs _
        ∙ recorded_commands-opened (world.commands c) opened (counts.commands c) p.cluster
            (yielded_leader cs) cs s

    sighted-opened :
        (reads : Reads) (x : Sighting Connection × S) (n : ℕ)
        → opened x.1 ≡ kept x.0 n
        → opened (sighted world conditions quote range order p shrinks status reads x).state ≡ n
    unfolding sighted closing unobserved_end returns
    sighted-opened reads (no_leader e, s) n h = h
    sighted-opened reads (no_answer e, s) n h = h
    sighted-opened reads (found c rows, s) n h =
        let after = (world.show_replication_lag c s).1 in
        let lag = lag_or_none (world.show_replication_lag c s).0 in
        let way =
          pass_commands (plan (topology_of p) rows lag) (topology_of p) rows p.coordinators.name
            p.data_instances.name in
        let ended =
          (go world conditions quote range order p shrinks status c rows lag reads way
            after).state in
        let before : opened ended ≡ opened after = go-opened c rows lag reads way after in
        omega (arith, counts.connector.closes c ended, before, counts.shows_lag c s, h)

    -- A pass leaves as many connections open as it found, whichever way it goes: the leader's, those that
    -- it opened in looking for the leader, and those to pods are closed, where the calls count as
    -- `CountsAll` says.
    pub connections_closed :
        (reads : Reads) (s : S)
        → opened
            (reconcile_registration world conditions quote range order p shrinks status reads
              s).state
          ≡ opened s
    unfolding reconcile_registration waiting_for_workloads unobserved_end returns
    connections_closed reads s =
        elim (Bool-cases (
          workloads_ready p.coordinators p.data_instances p.roles.coordinators p.roles.data_role)) [
            | inr waits ↦ rw waits refl
            | inl ready ↦ rw ready (
                sighted-opened reads _ (opened s) (
                  observe_cluster-Kept world.connector opened counts.connector
                    (coordinator_endpoints p.cluster p.coordinators.applied) s))
          ]
