-- ===== src/Scenarios/Passes.antt =====
-- Passes of the cluster: one that sheds pods, one that settles, and the checks before and after.
use kubernetes_operator.Prelude.{
  ◌≤◌, ◌<◌, String, ◌≡◌, ◌≢◌, refl, inl, inr, true, false, Option, none, some, List, [], ◌∷◌,
  concat, join, arith,
}
use kubernetes_operator.Prelude.Decimal.{decimal, digit, emit}
use kubernetes_operator.Prelude.Map.{lookup, insert, index_into}
use kubernetes_operator.Memgraph.{
  Instance, coordinator_name, equal_fold, is_main, is_up, is_leader, is_caught_up,
  databases_caught_up, behind,
}
use kubernetes_operator.Planner.View.{
  index, index_lag, name_all, retiring_names, is_named, instance_registered, coordinator_registered,
  lag_caught_up, registered_up, scan_mains, handover_candidates, is_empty, leader_name, survey,
}
use kubernetes_operator.Planner.{
  first_up, promotion_target, add_coordinators, register_instances, bolt_moved, coordinator_updates,
  instance_updates, bolt_server_updates, bootstrap, promotion, unregistrations, removals,
  yield_from, yields, demotions, retirement, registrations, plan, retired, instances_left,
  coordinators_left,
}
use kubernetes_operator.Controller.Registration.{
  retiring_part, retiring_text, retirement_message, shed_sets, pass_without_commands, pass_commands,
  pass_observed, registration_pass,
}
use kubernetes_operator.Controller.Shedding.{
  Sheds, Settles, pass, shed_instance_gone, Settles-converged,
}
use kubernetes_operator.Controller.Replicas.{RoleReplicas, role_replicas, applied_covers}
use kubernetes_operator.Controller.Conditions.{Condition, condition}
use kubernetes_operator.Rollout.Roles.{Role}
use kubernetes_operator.Topology.{pod_name}
use kubernetes_operator.Scenarios.Cluster.{d1, row, shrinking, steady, steady_rows, caught_up}

Sheds-pods : Sheds (pass shrinking caught_up "demo-coordinator" "demo-data" true (some steady_rows))
unfolding registration_pass pass_observed pass_commands pass_without_commands retirement_message
    retiring_part retiring_text shed_sets join retired instances_left coordinators_left plan
    add_coordinators coordinator_registered lookup survey index index_into insert coordinator_name
    register_instances instance_registered bolt_server_updates bolt_moved scan_mains is_main behind
    databases_caught_up equal_fold is_caught_up is_leader is_up handover_candidates index_lag
    is_empty is_named lag_caught_up leader_name name_all registered_up retiring_names bootstrap
    coordinator_updates demotions first_up instance_updates promotion promotion_target registrations
    removals retirement unregistrations yield_from yields decimal digit emit concat
Sheds-pods = tt

Settles-down :
    Settles (pass steady caught_up "demo-coordinator" "demo-data" true (some steady_rows))
unfolding registration_pass pass_observed pass_commands pass_without_commands retirement_message
    retiring_part retiring_text shed_sets join retired instances_left coordinators_left plan
    add_coordinators coordinator_registered lookup survey index index_into insert coordinator_name
    register_instances instance_registered bolt_server_updates bolt_moved scan_mains is_main behind
    databases_caught_up equal_fold is_caught_up is_leader is_up handover_candidates index_lag
    is_empty is_named lag_caught_up leader_name name_all registered_up retiring_names bootstrap
    coordinator_updates demotions first_up instance_updates promotion promotion_target registrations
    removals retirement unregistrations yield_from yields decimal digit emit concat
Settles-down = tt

shed_instance_gone_example : ◌≢◌ {A = String} "instance_0" "instance_1"
shed_instance_gone_example =
    shed_instance_gone shrinking caught_up "demo-coordinator" "demo-data" true steady_rows d1
      (row "instance_0" "d0" "main") Sheds-pods (inl refl) (inr (inl refl))

Settles-converged_example :
    (true ≡ true)
    × ((rows : List Instance) × (some steady_rows ≡ some rows) × (plan steady rows caught_up ≡ []))
    × (steady.retiring_coordinators ≡ [])
    × (steady.retiring_data_instances ≡ [])
Settles-converged_example =
    Settles-converged steady caught_up "demo-coordinator" "demo-data" true (some steady_rows)
      Settles-down

-- The StatefulSet is gone, and two of three pods are left.
abbrev left_behind : List String
left_behind = pod_name "demo-data" 0 ∷ pod_name "demo-data" 2 ∷ []

applied_covers_example :
    (1 ≤ (role_replicas "demo-data" 1 none left_behind).applied)
    × (2 < (role_replicas "demo-data" 1 none left_behind).applied)
applied_covers_example = applied_covers "demo-data" 1 left_behind 2 (inr (inl refl)) (omega arith)

abbrev full : RoleReplicas
full = record {
  name = "demo-data";
  declared = 3;
  applied = 3;
  stateful_set = some (record { spec_replicas = some 3; status_replicas = 3; ready_replicas = 3 });
}

abbrev idle : Role
idle = record { replicas = 3; update_revision = "r1"; stale = false; pods = [] }

abbrev found : String → Option Condition
found t = some (record (condition t "True" "r" "m") { observed_generation = 7 })
