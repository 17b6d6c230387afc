-- ===== src/Scenarios/Members.antt =====
-- A cluster whose data role shrinks from two to one, planned from its spec.
use kubernetes_operator.Prelude.{
  ◌≡◌, ◌≢◌, refl, sym, subst, inl, inr, some, List, [], ◌∷◌, In, concat, arith,
}
use kubernetes_operator.Prelude.Decimal.{decimal, digit, emit}
use kubernetes_operator.Prelude.Map.{lookup, insert, index_into}
use kubernetes_operator.Memgraph.{
  Instance, DataInstanceSpec, coordinator_name, equal_fold, is_main, is_up, is_leader, is_caught_up,
  databases_caught_up, behind,
}
use kubernetes_operator.Planner.Commands.{
  set_instance_to_main, demote_instance, unregister_instance,
}
use kubernetes_operator.Planner.View.{
  index, index_lag, name_all, retiring_names, is_named, instance_registered, coordinator_registered,
  lag_caught_up, registered_up, scan_mains, handover_candidates, is_empty, leader_name, survey,
}
use kubernetes_operator.Planner.{
  first_up, promotion_target, add_coordinators, register_instances, bolt_moved, coordinator_updates,
  instance_updates, bolt_server_updates, bootstrap, promotion, unregistrations, removals,
  yield_from, yields, demotions, retirement, registrations, plan,
}
use kubernetes_operator.Topology.{
  Cluster, ExternalAddresses, int_or_default, declared_coordinators, declared_data_instances,
  domain_of, coordinator_set_name, data_set_name, coordinator_id, coordinator_instance_name,
  data_instance_name, pod_fqdn_suffix, pod_fqdn, host_port, announced_bolt, coordinator,
  data_instance, coordinators_from, data_instances_from, declared_topology, retiring_coordinators,
  retiring_data_instances, pass_topology,
}
use kubernetes_operator.Prelude.Int.{pos}
use kubernetes_operator.Topology.Ordinals.{
  coordinator_ordinal, data_instance_ordinal, ordinals_of_names,
}
use kubernetes_operator.Topology.Members.{members}
use kubernetes_operator.Topology.Retiring.{unregister_spares_declared}
use kubernetes_operator.Scenarios.Cluster.{row, caught_up}

abbrev demo : Cluster
demo = record {
  name = "demo";
  namespace = "db";
  coordinators = some 1;
  data_instances = some 1;
  cluster_domain = "";
  bolt_tls_secret = "";
}

abbrev unexposed : ExternalAddresses
unexposed = record { coordinators = ""; data_instances = λ n. "" }

abbrev rows : List Instance
rows =
    row "coordinator_0" "demo-coordinator-0.demo-coordinator.db.svc.cluster.local:7687" "leader"
    ∷ row "instance_0" "demo-data-0.demo-data.db.svc.cluster.local:7687" "replica"
    ∷ row "instance_1" "demo-data-1.demo-data.db.svc.cluster.local:7687" "main"
    ∷ []

the_plan :
    plan (members demo unexposed 1 2) rows caught_up
    ≡ demote_instance "instance_1"
      ∷ set_instance_to_main ("instance_0" ∷ []) "instance_1"
      ∷ unregister_instance "instance_1"
      ∷ []
unfolding plan add_coordinators coordinator_registered lookup survey index index_into insert
    coordinator_name register_instances instance_registered bolt_server_updates bolt_moved
    scan_mains is_main behind databases_caught_up equal_fold is_caught_up is_leader is_up
    handover_candidates index_lag is_empty is_named lag_caught_up leader_name name_all registered_up
    retiring_names bootstrap coordinator_updates demotions first_up instance_updates promotion
    promotion_target registrations removals retirement unregistrations yield_from yields decimal
    digit emit concat pass_topology declared_topology retiring_coordinators retiring_data_instances
    coordinators_from data_instances_from coordinator data_instance coordinator_id
    data_instance_name pod_fqdn pod_fqdn_suffix host_port announced_bolt domain_of
    coordinator_set_name data_set_name int_or_default declared_coordinators declared_data_instances
the_plan = refl

abbrev kept : DataInstanceSpec
kept = data_instance demo 0 ""

is_kept : In kept (members demo unexposed 1 2).data_instances
unfolding pass_topology declared_topology retiring_coordinators retiring_data_instances
    coordinators_from data_instances_from coordinator data_instance coordinator_id
    data_instance_name pod_fqdn pod_fqdn_suffix host_port announced_bolt domain_of
    coordinator_set_name data_set_name int_or_default declared_coordinators declared_data_instances
is_kept = inl refl

unregister_spares_declared_example : kept.name ≢ "instance_1"
unregister_spares_declared_example =
    unregister_spares_declared demo unexposed 1 2 rows caught_up "instance_1" kept
      (subst (In (unregister_instance "instance_1")) (sym the_plan) (inr (inr (inl refl)))) is_kept

ordinals_of_names_example :
    (coordinator_ordinal (coordinator_instance_name 2) ≡ some (pos 2))
    × (data_instance_ordinal (data_instance_name 2) ≡ some (pos 2))
ordinals_of_names_example = ordinals_of_names 2 (omega arith)
