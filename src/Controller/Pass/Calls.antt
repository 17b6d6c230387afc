-- ===== src/Controller/Pass/Calls.antt =====
-- internal/controller/memgraphdbcluster_controller.go: what a pass over ready workloads calls. The
-- Bolt connections and the API server are parameters: operations on one state `S`. `shedRetiredPods`
-- and `restartPod` are the two that change Kubernetes objects.
use kubernetes_operator.Prelude.{
  ℕ, String, ◌⊎◌, Option, none, some, List, [], ◌∷◌, ◌++◌, if◌then◌else◌, concat,
}
use kubernetes_operator.Prelude.Decimal.{decimal}
use kubernetes_operator.Memgraph.{ReplicationLag}
use kubernetes_operator.Planner.Commands.{Outcome, Client}
use kubernetes_operator.Planner.View.{Topology, is_empty}
use kubernetes_operator.Rollout.Roles.{Pod}
use kubernetes_operator.Topology.{Cluster}
use kubernetes_operator.Expectations.{StatefulSets, Written, expect}
use kubernetes_operator.Controller.Applying.{Instances, Read}
use kubernetes_operator.Controller.Events.{Event, stateful_set, event}
use kubernetes_operator.Controller.Leader.{Connector}
use kubernetes_operator.Controller.Replicas.{RoleReplicas}

-- How the API server answers a delete.
pub data DeleteAnswer : Type 0 where
  deleted : DeleteAnswer
  not_found : DeleteAnswer
  conflict : DeleteAnswer
  not_deleted : String → DeleteAnswer

-- What applying a StatefulSet comes to: its owner reference cannot be set, the API server refuses it,
-- or it was written.
pub data ApplyAnswer : Type 0 where
  not_owned : String → ApplyAnswer
  not_applied : String → ApplyAnswer
  applied : Written → ApplyAnswer

-- Everything that a pass calls. Of the leader's client, `show_config` is that of `instances`.
pub record World (S Connection : Type 0) : Type 0 where
  pub connector : Connector S Connection
  pub instances : Instances S Connection
  pub show_replication_lag : Connection → S → (String ⊎ List ReplicationLag) × S
  pub show_coordinator_settings : Connection → S → Read × S
  pub set_coordinator_setting : Connection → String → String → S → Outcome S
  pub commands : Connection → Client S
  pub apply : String → ℕ → S → ApplyAnswer × S
  pub delete_pod : Pod → S → DeleteAnswer × S

-- The error of a `restartPod`, if any: a pod that is gone or was replaced is none.
unfoldable pub restart_error : Pod → DeleteAnswer → Option String
unfolding concat
restart_error p deleted = none
restart_error p not_found = none
restart_error p conflict = none
restart_error p (not_deleted e) =
    some (concat ("deleting pod " ∷ p.name ∷ " to restart it: " ∷ e ∷ []))

-- The roles that `shedRetiredPods` does not pass over.
unfoldable pub retiring_roles : Topology → RoleReplicas → RoleReplicas → List RoleReplicas
unfolding is_empty
retiring_roles t coordinators data_instances =
    (if is_empty t.retiring_coordinators then [] else coordinators ∷ [])
    ++ (if is_empty t.retiring_data_instances then [] else data_instances ∷ [])

-- How `shedRetiredPods` ends: each role was shrunk, or the error that it returns.
pub data ShedEnd : Type 0 where
  all_shed : ShedEnd
  owner_error : String → ShedEnd
  apply_error : String → ShedEnd

pub record Shed (S : Type 0) : Type 0 where
  pub ending : ShedEnd
  pub events : List Event
  pub shrinks : StatefulSets
  pub state : S

module _ {S Connection : Type 0} (world : World S Connection) (cluster : Cluster) where
  -- `restartPod`
  unfoldable pub restart_pod : Pod → S → Outcome S
  unfolding restart_error
  restart_pod p s = let answer = world.delete_pod p s in (restart_error p answer.0, answer.1)

  unfoldable pub shrunk_event : RoleReplicas → Event
  unfolding event concat decimal
  shrunk_event r = event (stateful_set r.name) "StatefulSetShrunk" "ScaleDown" (
      concat (
        "Shrank StatefulSet "
        ∷ r.name
        ∷ " to "
        ∷ decimal r.declared
        ∷ " replicas, shedding the pods of members that left the cluster"
        ∷ []))

  unfoldable pub shed_answered :
      RoleReplicas → StatefulSets → ApplyAnswer × S → (StatefulSets → S → Shed S) → Shed S
  unfolding shrunk_event expect concat
  shed_answered r shrinks (not_owned e, s) next = record {
    ending =
        owner_error
          (concat ("setting owner reference on *v1.StatefulSet " ∷ r.name ∷ ": " ∷ e ∷ []));
    events = [];
    shrinks = shrinks;
    state = s;
  }
  shed_answered r shrinks (not_applied e, s) next = record {
    ending = apply_error (concat ("applying *v1.StatefulSet " ∷ r.name ∷ ": " ∷ e ∷ []));
    events = [];
    shrinks = shrinks;
    state = s;
  }
  shed_answered r shrinks (applied w, s) next =
      let rest =
        next (expect shrinks (record { namespace = cluster.namespace; name = r.name }) w) s in
      record rest { events = shrunk_event r ∷ rest.events }

  -- The loop of `shedRetiredPods`.
  unfoldable pub shed_roles : List RoleReplicas → StatefulSets → S → Shed S
  unfolding shed_answered
  shed_roles [] shrinks s = record { ending = all_shed; events = []; shrinks = shrinks; state = s }
  shed_roles (r ∷ rs) shrinks s =
      shed_answered r shrinks (world.apply r.name r.declared s) (shed_roles rs)
