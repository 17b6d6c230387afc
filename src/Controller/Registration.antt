-- ===== src/Controller/Registration.antt =====
-- internal/controller/memgraphdbcluster_controller.go, `reconcileRegistration`: which way a pass goes,
-- from what it read. The branch of an empty plan that is not a retirement goes on to the settings and
-- the rolling restart.
use kubernetes_operator.Prelude.{
  String, Bool, not, Option, none, some, List, [], ◌∷◌, ◌++◌, map, ◌==◌, if◌then◌else◌, concat,
  join,
}
use kubernetes_operator.Memgraph.{
  Instance, DataInstanceSpec, ReplicationLag, coordinator_name, is_main, is_up,
}
use kubernetes_operator.Planner.Commands.{Command, yield_leadership}
use kubernetes_operator.Planner.View.{Topology, is_empty}
use kubernetes_operator.Planner.{plan, retired}

-- `if names := …; len(names) > 0 { retiring = append(retiring, …) }`
unfoldable pub retiring_part : String → List String → List String
unfolding concat join
retiring_part label [] = []
retiring_part label (n ∷ ns) = concat (label ∷ join ", " (n ∷ ns) ∷ []) ∷ []

unfoldable pub retiring_text : List String → String
unfolding concat join
retiring_text [] = ""
retiring_text (r ∷ rs) =
    concat ("Retiring " ∷ join " and " (r ∷ rs) ∷ " before their pods are shed" ∷ [])

-- `retirementMessage`
unfoldable pub retirement_message : Topology → String
unfolding retiring_part retiring_text
retirement_message t = retiring_text (
    retiring_part "coordinator(s) " (map coordinator_name t.retiring_coordinators)
    ++ retiring_part "data instance(s) "
        (map (λ (d : DataInstanceSpec). d.name) t.retiring_data_instances))

-- `yieldedLeader`
unfoldable pub yielded_leader : List Command → String
yielded_leader [] = ""
yielded_leader (c ∷ []) = elim c [ yield_leadership leader ↦ leader | _ ↦ "" ]
yielded_leader (c ∷ d ∷ cs) = yielded_leader (d ∷ cs)

-- The StatefulSets that `shedRetiredPods` applies at their declared counts.
unfoldable pub shed_sets : Topology → String → String → List String
shed_sets t coordinator_set data_set =
    (if is_empty t.retiring_coordinators then [] else coordinator_set ∷ [])
    ++ (if is_empty t.retiring_data_instances then [] else data_set ∷ [])

-- Where a pass goes.
pub data Pass : Type 0 where
  waits_for_workloads : Pass
  waits_for_leader : Pass
  waits_for_survivor : Pass
  sheds : List String → Pass
  settles : Pass
  registers : List Command → Pass

unfoldable pub pass_without_commands : Topology → List Instance → String → String → Pass
unfolding retirement_message shed_sets retired
pass_without_commands t observed coordinator_set data_set =
    if not (retirement_message t == "")
    then if not (retired t observed)
      then waits_for_survivor
      else sheds (shed_sets t coordinator_set data_set)
    else settles

unfoldable pub pass_commands : List Command → Topology → List Instance → String → String → Pass
unfolding pass_without_commands
pass_commands [] t observed coordinator_set data_set =
    pass_without_commands t observed coordinator_set data_set
pass_commands (c ∷ cs) t observed coordinator_set data_set = registers (c ∷ cs)

unfoldable pub pass_observed :
    Topology → Option (List Instance) → List ReplicationLag → String → String → Pass
unfolding pass_commands plan
pass_observed t none lag coordinator_set data_set = waits_for_leader
pass_observed t (some observed) lag coordinator_set data_set =
    pass_commands (plan t observed lag) t observed coordinator_set data_set

-- `reconcileRegistration`, where `ready` is what `workloadsReady` says, and the observed view is `none`
-- where no leader was usable.
unfoldable pub registration_pass :
    Bool → Topology → Option (List Instance) → List ReplicationLag → String → String → Pass
unfolding pass_observed
registration_pass ready t observed lag coordinator_set data_set =
    if not ready then waits_for_workloads else pass_observed t observed lag coordinator_set data_set

-- `observedMain`
unfoldable pub observed_main : List Instance → String
observed_main [] = ""
observed_main (i ∷ is) =
    let rest = observed_main is in if is_main i then (if is_up i then i.name else rest) else rest
