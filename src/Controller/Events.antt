-- ===== src/Controller/Events.antt =====
-- internal/controller/events.go: the Events that a pass records, and the client that records one for
-- each command that the leader answers. The recorder is Kubernetes'; what it is given is a value here,
-- in the order in which the calls are made. The regarding object is always the cluster, whose namespace
-- the related one shares.
pub mod Recording
use Prim.Native.String.{◌++◌}
use kubernetes_operator.Prelude.{
  ℕ, suc, String, Bool, true, false, Option, none, some, List, [], ◌∷◌, concat,
}
use kubernetes_operator.Prelude as Lists
use kubernetes_operator.Prelude.Int.{ℤ, pos, negsuc}
use kubernetes_operator.Prelude.Decimal.{decimal}
use kubernetes_operator.Memgraph.{CoordinatorSpec, DataInstanceSpec, coordinator_name}
use kubernetes_operator.Planner.Commands.{Command, Outcome, Client, run}
use kubernetes_operator.Topology.{Cluster, coordinator_set_name, data_set_name}
use kubernetes_operator.Topology.Ordinals.{coordinator_ordinal, data_instance_ordinal}
use kubernetes_operator.Controller.Conditions.{truncate_message}

-- The related object of an Event.
pub data Related : Type 0 where
  nothing : Related
  pod : String → Related
  stateful_set : String → Related
  claim : String → Related
  secret_object : String → Related

pub record Event : Type 0 where
  pub is_warning : Bool
  pub related : Related
  pub reason : String
  pub action : String
  pub note : String

-- `event` and `warning`, of a note that was formatted.
unfoldable pub event : Related → String → String → String → Event
event related reason action note = record {
  is_warning = false;
  related = related;
  reason = reason;
  action = action;
  note = truncate_message note;
}

unfoldable pub warning : Related → String → String → String → Event
warning related reason action note = record {
  is_warning = true;
  related = related;
  reason = reason;
  action = action;
  note = truncate_message note;
}

-- `%d` of an ordinal that was read from a name.
unfoldable pub signed : ℤ → String
unfolding decimal
signed (pos n) = decimal n
signed (negsuc n) = "-" ++ decimal (suc n)

unfoldable pub pod_at : String → Option ℤ → Related
unfolding signed concat
pod_at set none = nothing
pod_at set (some ordinal) = pod (concat (set ∷ "-" ∷ signed ordinal ∷ []))

-- `dataInstancePodRef` and `coordinatorPodRef`
unfoldable pub data_instance_pod : Cluster → String → Related
unfolding pod_at data_set_name data_instance_ordinal
data_instance_pod cluster instance = pod_at (data_set_name cluster) (data_instance_ordinal instance)

unfoldable pub coordinator_pod : Cluster → String → Related
unfolding pod_at coordinator_set_name coordinator_ordinal
coordinator_pod cluster coordinator =
    pod_at (coordinator_set_name cluster) (coordinator_ordinal coordinator)

-- `record`: the Event of a command that was accepted or refused.
unfoldable pub answer_event : Related → String → String → String → String → Option String → Event
unfolding event warning concat
answer_event related accepted refused action note none = event related accepted action note
answer_event related accepted refused action note (some e) =
    warning related refused action (concat (note ∷ " refused: " ∷ e ∷ []))

unfoldable pub promotion_event : Related → String → Option String → Event
unfolding event warning concat
promotion_event related instance none =
    event related "MainPromoted" "Promote"
      (concat ("Promoted data instance " ∷ instance ∷ " to MAIN" ∷ []))
promotion_event related instance (some e) = warning related "MainPromotionRefused" "Promote" (
    concat
      ("The coordinators refused to promote data instance " ∷ instance ∷ " to MAIN: " ∷ e ∷ []))

-- The name of `CoordinatorSpec{ID: id}`
unfoldable pub name_of : ℕ → String
name_of id =
    coordinator_name
      (record { id = id; bolt_server = ""; coordinator_server = ""; management_server = "" })

-- The state with the Events that were recorded so far.
abbrev pub Recorded : Type 0 → Type 0
Recorded S = S × List Event

-- A command that was refused, and its error.
abbrev pub Failure : Type 0
Failure = Command × String

module _ {S : Type 0} where
  -- The loop of `reconcileRegistration` over the commands: the first error ends it.
  unfoldable pub or_stop : Command → Outcome S → (S → Option Failure × S) → Option Failure × S
  or_stop c (none, s) next = next s
  or_stop c (some e, s) next = (some (c, e), s)

  unfoldable pub run_commands : Client S → List Command → S → Option Failure × S
  unfolding or_stop run
  run_commands client [] s = (none, s)
  run_commands client (c ∷ cs) s = or_stop c (run client c s) (run_commands client cs)

  unfoldable pub recorded : (Option String → Event) → Outcome S → List Event → Outcome (Recorded S)
  recorded note (err, s) log = (err, (s, Lists.◌++◌ log (note err ∷ [])))

  -- `recordingClient`; `leader` is the coordinator that a yield is about.
  unfoldable pub recording : Cluster → String → Client S → Client (Recorded S)
  unfolding recorded answer_event promotion_event data_instance_pod coordinator_pod concat
  recording cluster leader client = record {
    add = λ c (s, log).
        recorded
          (answer_event (coordinator_pod cluster (coordinator_name c)) "CoordinatorAdded"
            "CoordinatorAdditionRefused" "Register"
            (concat ("Added coordinator " ∷ coordinator_name c ∷ " to the Raft cluster" ∷ [])))
          (client.add c s) log;
    register = λ d (s, log).
        recorded
          (answer_event (data_instance_pod cluster d.name) "InstanceRegistered"
            "InstanceRegistrationRefused" "Register"
            (concat ("Registered data instance " ∷ d.name ∷ " with the coordinators" ∷ [])))
          (client.register d s) log;
    update_coordinator = λ id bolt_server (s, log).
        recorded
          (answer_event (coordinator_pod cluster (name_of id)) "BoltServerUpdated"
            "BoltServerUpdateRefused" "UpdateConfig"
            (concat (
              "Updated the bolt_server coordinator "
              ∷ name_of id
              ∷ " announces to "
              ∷ bolt_server
              ∷ [])))
          (client.update_coordinator id bolt_server s) log;
    update_instance = λ instance bolt_server (s, log).
        recorded
          (answer_event (data_instance_pod cluster instance) "BoltServerUpdated"
            "BoltServerUpdateRefused" "UpdateConfig"
            (concat (
              "Updated the bolt_server data instance " ∷ instance ∷ " announces to " ∷ bolt_server
              ∷ [])))
          (client.update_instance instance bolt_server s) log;
    set_main = λ instance (s, log).
        recorded (promotion_event (data_instance_pod cluster instance) instance)
          (client.set_main instance s) log;
    demote = λ instance (s, log).
        recorded
          (answer_event (data_instance_pod cluster instance) "MainDemoted" "MainDemotionRefused"
            "Demote"
            (concat ("Demoted retiring data instance " ∷ instance ∷ " from MAIN to REPLICA" ∷ [])))
          (client.demote instance s) log;
    unregister = λ instance (s, log).
        recorded
          (answer_event (data_instance_pod cluster instance) "InstanceUnregistered"
            "InstanceUnregistrationRefused" "Unregister"
            (concat
              ("Unregistered retiring data instance " ∷ instance ∷ " from the coordinators" ∷ [])))
          (client.unregister instance s) log;
    remove = λ id (s, log).
        recorded
          (answer_event (coordinator_pod cluster (name_of id)) "CoordinatorRemoved"
            "CoordinatorRemovalRefused" "Unregister"
            (concat ("Removed retiring coordinator " ∷ name_of id ∷ " from the Raft cluster" ∷ [])))
          (client.remove id s) log;
    yield = λ (s, log).
        recorded
          (answer_event (coordinator_pod cluster leader) "LeadershipYielded"
            "LeadershipYieldRefused" "YieldLeadership"
            (concat (
              "Yielded Raft leadership of retiring coordinator " ∷ leader
              ∷ " to another coordinator" ∷ [])))
          (client.yield s) log;
  }
