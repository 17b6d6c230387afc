-- ===== src/Rollout.antt =====
-- internal/rollout/rollout.go: which single pod a changed pod template lets the operator restart next.
-- Go visits a map in no fixed order, so the functions that look for MAIN and for the leader take the
-- order as an argument, `range`; ordinals and replica counts are `int32` values that are never
-- negative, so they are numbers.
pub mod Roles
pub mod Choice
pub mod Restarts
pub mod Order
pub mod Progress
pub mod Done
pub mod Healthy
use kubernetes_operator.Prelude.{
  ℕ, String, Bool, true, false, not, ◌&&◌, Option, none, some, List, [], ◌∷◌, length, ltb, eqb,
  ◌==◌, if◌then◌else◌, concat,
}
use kubernetes_operator.Prelude.Map.{Map, lookup}
use kubernetes_operator.Memgraph.{Instance, ReplicationLag, is_main, is_leader, is_up, is_caught_up}
use kubernetes_operator.Planner.View.{index, index_lag, registered_up, lag_caught_up}
use kubernetes_operator.Rollout.Roles.{
  Pod, Role, Decision, done, wait, delete, waiting, restarting, outdated, updated, present,
  highest_ordinal_except, or_go, if_found, workloads_not_ready, no_main_elected,
  waiting_for_catch_up, no_caught_up_survivor, no_coordinator_leader,
}

-- The entries of a map in the order in which a `range` loop meets them.
abbrev pub Range : Type 0
Range = Map Instance → List (String × Instance)

unfoldable pub first_with : (Instance → Bool) → List (String × Instance) → String
first_with p [] = ""
first_with p ((name, i) ∷ entries) = if p i then name else first_with p entries

-- `mainInstance` and `leaderInstance`
unfoldable pub main_instance : Range → Map Instance → String
unfolding first_with
main_instance range instances = first_with is_main (range instances)

unfoldable pub leader_instance : Range → Map Instance → String
unfolding first_with
leader_instance range instances = first_with is_leader (range instances)

-- `replicating`: nothing to wait for, or the wait of the first restarted pod that is not back.
-- A missing key reads as the zero value, which is neither up nor caught up.
unfoldable pub replicating : List Pod → Map Instance → Map ReplicationLag → Option Decision
replicating [] instances lags = none
replicating (p ∷ ps) instances lags =
    if not (registered_up instances p.instance_name)
    then some (
        waiting workloads_not_ready (
          concat (
            "Waiting for restarted data instance " ∷ p.instance_name
            ∷ " to be reachable before restarting the next pod" ∷ [])))
    else if not (lag_caught_up lags p.instance_name)
    then some (
        waiting waiting_for_catch_up (
          concat (
            "Waiting for restarted data instance " ∷ p.instance_name
            ∷ " to catch up with MAIN before restarting the next pod" ∷ [])))
    else replicating ps instances lags

-- The loop over the survivors of MAIN; `main_pod` is restarted for the first that can be promoted.
unfoldable pub survivor_loop :
    List Pod → String → Pod → Map Instance → Map ReplicationLag → Decision
survivor_loop [] main main_pod instances lags = waiting no_caught_up_survivor (
    concat (
      "Waiting for a data instance that is reachable and caught up with MAIN " ∷ main
      ∷ " before restarting it; the cluster keeps serving until one is" ∷ []))
survivor_loop (p ∷ ps) main main_pod instances lags =
    let rest = survivor_loop ps main main_pod instances lags in
    if p.instance_name == main
    then rest
    else if registered_up instances p.instance_name && lag_caught_up lags p.instance_name
    then restarting main_pod (
        concat (
          "Restarting MAIN data instance pod " ∷ main_pod.name ∷ " last; " ∷ p.instance_name
          ∷ " is caught up and can be promoted in its place" ∷ []))
    else rest

-- Only the MAIN is left, and `main_pod` is `pending[0]`.
unfoldable pub restart_main : Role → String → Pod → Map Instance → Map ReplicationLag → Decision
unfolding survivor_loop
restart_main data_role main main_pod instances lags =
    if eqb data_role.replicas 1
    then restarting main_pod (
        concat (
          "Restarting the only data instance pod " ∷ main_pod.name
          ∷ ", which interrupts the cluster until it is back" ∷ []))
    else if not (registered_up instances main)
    then waiting workloads_not_ready (
        concat
          ("Waiting for MAIN data instance " ∷ main ∷ " to be reachable before restarting it" ∷ []))
    else survivor_loop data_role.pods main main_pod instances lags

-- The pods that are not MAIN go first, once those that were restarted are back.
unfoldable pub restart_replica : Role → Pod → Map Instance → Map ReplicationLag → Decision
unfolding replicating
restart_replica data_role next_pod instances lags =
    or_go (replicating (updated data_role) instances lags) (
      restarting next_pod
        (concat ("Restarting data instance pod " ∷ next_pod.name ∷ ", which is not MAIN" ∷ [])))

-- `nextDataInstance`, of the outdated pods, of which `Next` knows that there is a first.
unfoldable pub next_data_instance :
    Range → Role → Pod → List Pod → Map Instance → Map ReplicationLag → Decision
unfolding restart_main restart_replica
next_data_instance range data_role first rest instances lags =
    let main = main_instance range instances in
    or_go (present data_role) (
      if main == ""
      then waiting no_main_elected "Waiting for a MAIN data instance before restarting any data pod"
      else if_found (highest_ordinal_except (first ∷ rest) main)
          (λ p. restart_replica data_role p instances lags)
          (restart_main data_role main first instances lags))

-- The loop over the restarted coordinators.
unfoldable pub coordinators_back : List Pod → Map Instance → Option Decision
coordinators_back [] instances = none
coordinators_back (p ∷ ps) instances =
    if not (registered_up instances p.instance_name)
    then some (
        waiting workloads_not_ready (
          concat (
            "Waiting for restarted coordinator " ∷ p.instance_name
            ∷ " to be reachable before restarting the next one" ∷ [])))
    else coordinators_back ps instances

-- The leader goes last.
unfoldable pub restart_coordinator : String → Pod → List Pod → Decision
restart_coordinator leader first rest =
    if_found (highest_ordinal_except (first ∷ rest) leader)
      (λ p. restarting p (
        concat
          ("Restarting coordinator pod " ∷ p.name ∷ ", which does not hold Raft leadership" ∷ [])))
      (restarting first (
        concat (
          "Restarting coordinator pod " ∷ first.name
          ∷ " last; it holds Raft leadership, so the surviving members elect a successor" ∷ [])))

-- `nextCoordinator`
unfoldable pub next_coordinator : Range → Role → Pod → List Pod → Map Instance → Decision
unfolding coordinators_back restart_coordinator
next_coordinator range coordinators first rest instances =
    let leader = leader_instance range instances in
    or_go (present coordinators) (
      or_go (coordinators_back (updated coordinators) instances) (
        if leader == ""
        then waiting no_coordinator_leader
            "Waiting for the coordinators to elect a leader before restarting any coordinator pod"
        else restart_coordinator leader first rest))

-- The coordinators' turn: no data pod is outdated.
unfoldable pub coordinators_turn : Range → Role → Role → List Pod → Map Instance → Decision
coordinators_turn range data_role coordinators [] instances = done
coordinators_turn range data_role coordinators (p ∷ ps) instances =
    or_go (present data_role) (next_coordinator range coordinators p ps instances)

unfoldable pub data_turn :
    Range → Role → Role → List Pod → Map Instance → Map ReplicationLag → Decision
unfolding coordinators_turn
data_turn range data_role coordinators [] instances lags =
    coordinators_turn range data_role coordinators (outdated coordinators) instances
data_turn range data_role coordinators (p ∷ ps) instances lags =
    next_data_instance range data_role p ps instances lags

-- `Next`
unfoldable pub next : Range → Role → Role → List Instance → List ReplicationLag → Decision
unfolding data_turn
next range data_role coordinators observed lag =
    if data_role.stale
    then waiting workloads_not_ready
        "Waiting for the data StatefulSet's status to describe its current pod template"
    else if coordinators.stale
    then waiting workloads_not_ready
        "Waiting for the coordinator StatefulSet's status to describe its current pod template"
    else data_turn range data_role coordinators (outdated data_role) (index observed)
        (index_lag lag)
