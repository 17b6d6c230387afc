-- ===== src/Scenarios/Planning.antt =====
-- Plans of the cluster, and what the theorems say of them.
use kubernetes_operator.Prelude.{
  String, ◌≡◌, ◌≢◌, refl, sym, ap, ◌∙◌, subst, ◌↔◌, ◌⊎◌, inl, inr, true, false, [], ◌∷◌, In, concat,
}
use kubernetes_operator.Prelude.Decimal.{decimal, digit, emit}
use kubernetes_operator.Prelude.Map.{lookup, insert, index_into}
use kubernetes_operator.Memgraph.{
  Instance, CoordinatorSpec, DataInstanceSpec, coordinator_name, equal_fold, is_main, is_up,
  is_leader, is_caught_up, databases_caught_up, behind,
}
use kubernetes_operator.Planner.Commands.{
  add_coordinator, register_instance, update_coordinator_bolt_server, update_instance_bolt_server,
  set_instance_to_main, demote_instance, unregister_instance, remove_coordinator, yield_leadership,
}
use kubernetes_operator.Planner.View.{
  index, index_lag, name_all, retiring_names, is_named, instance_registered, coordinator_registered,
  lag_caught_up, registered_up, scan_mains, handover_candidates, is_empty, leader_name, survey,
}
use kubernetes_operator.Planner.{
  first_up, promotion_target, add_coordinators, register_instances, bolt_moved, coordinator_updates,
  instance_updates, bolt_server_updates, bootstrap, promotion, unregistrations, removals,
  yield_from, yields, demotions, retirement, registrations, plan, retired, instances_left,
  coordinators_left,
}
use kubernetes_operator.Planner.Due.{registrations_due}
use kubernetes_operator.Planner.Rows.{IsMember, HasMoved, Leads}
use kubernetes_operator.Planner.Order.{InOrder, plan-InOrder}
use kubernetes_operator.Planner.Handover.{MainRow, Retires, CanTakeOver, demote_needs_survivor}
use kubernetes_operator.Planner.Promotion.{IsTarget, NoMain, promotion_justified}
use kubernetes_operator.Planner.Progress
use kubernetes_operator.Planner.Progress.{retirement_progress}
use kubernetes_operator.Scenarios.Cluster.{c1, shrinking, retiring_rows, caught_up}

pub retiring_plan :
    plan shrinking retiring_rows caught_up
    ≡ demote_instance "instance_1"
      ∷ set_instance_to_main ("instance_0" ∷ []) "instance_1"
      ∷ unregister_instance "instance_1"
      ∷ remove_coordinator c1
      ∷ yield_leadership "coordinator_2"
      ∷ []
unfolding plan add_coordinators coordinator_registered lookup survey index index_into insert
    coordinator_name register_instances instance_registered bolt_server_updates bolt_moved
    scan_mains is_main behind databases_caught_up equal_fold is_caught_up is_leader is_up
    handover_candidates index_lag is_empty is_named lag_caught_up leader_name name_all registered_up
    retiring_names bootstrap coordinator_updates demotions first_up instance_updates promotion
    promotion_target registrations removals retirement unregistrations yield_from yields decimal
    digit emit concat
retiring_plan = refl

demotes : In (demote_instance "instance_1") (plan shrinking retiring_rows caught_up)
demotes = subst (In (demote_instance "instance_1")) (sym retiring_plan) (inl refl)

promotes :
    In
      (set_instance_to_main ("instance_0" ∷ []) "instance_1")
      (plan shrinking retiring_rows caught_up)
promotes =
    subst (In (set_instance_to_main ("instance_0" ∷ []) "instance_1")) (sym retiring_plan)
      (inr (inl refl))

retiring_named : (d : DataInstanceSpec) → In d shrinking.retiring_data_instances → d.name ≢ ""
retiring_named d (inl same) = λ blank.
    let named : "instance_1" ≡ "" = ap (λ (x : DataInstanceSpec). x.name) same ∙ blank in cc
retiring_named d (inr i) = absurd i

demote_needs_survivor_example :
    MainRow retiring_rows "instance_1"
    × Retires shrinking "instance_1"
    × ((k : String) × CanTakeOver shrinking retiring_rows caught_up k)
demote_needs_survivor_example =
    demote_needs_survivor shrinking retiring_rows caught_up "instance_1" demotes

promotion_justified_example :
    ((i : Instance) → In i retiring_rows → is_main i ≡ true → Retires shrinking i.name)
    × ((In (demote_instance "instance_1") (plan shrinking retiring_rows caught_up)
          × ((k : String)
              → In k ("instance_0" ∷ [])
              → CanTakeOver shrinking retiring_rows caught_up k))
        ⊎ ((◌≡◌ {A = String} "instance_1" "")
            × NoMain shrinking retiring_rows caught_up
            × ((k : String) × ("instance_0" ∷ [] ≡ k ∷ []) × IsTarget shrinking retiring_rows k)))
promotion_justified_example =
    promotion_justified shrinking retiring_rows caught_up ("instance_0" ∷ []) "instance_1"
      retiring_named promotes

registrations_due_example :
    ((c : CoordinatorSpec)
      → In (add_coordinator c) (plan shrinking retiring_rows caught_up)
        ↔ (In c shrinking.coordinators × ¬ IsMember retiring_rows c))
    × ((d : DataInstanceSpec)
        → In (register_instance d) (plan shrinking retiring_rows caught_up) ↔ (
            In d shrinking.data_instances
            × ((i : Instance) → In i retiring_rows → i.name ≢ d.name)))
    × ((c : CoordinatorSpec)
        → In (update_coordinator_bolt_server c) (plan shrinking retiring_rows caught_up) ↔ (
            In c shrinking.coordinators
            × HasMoved retiring_rows (coordinator_name c) c.bolt_server))
    × ((d : DataInstanceSpec)
        → In (update_instance_bolt_server d) (plan shrinking retiring_rows caught_up)
          ↔ (In d shrinking.data_instances × HasMoved retiring_rows d.name d.bolt_server))
    × ((c : CoordinatorSpec)
        → In (remove_coordinator c) (plan shrinking retiring_rows caught_up) ↔ (
            In c shrinking.retiring_coordinators
            × IsMember retiring_rows c
            × ¬ Leads retiring_rows (coordinator_name c)))
    × ((n : String)
        → In (yield_leadership n) (plan shrinking retiring_rows caught_up) ↔ (
            (c : CoordinatorSpec) × In c shrinking.retiring_coordinators
            × (coordinator_name c ≡ n)
            × Leads retiring_rows n))
registrations_due_example = registrations_due shrinking retiring_rows caught_up

plan-InOrder_example : InOrder (plan shrinking retiring_rows caught_up)
plan-InOrder_example = plan-InOrder shrinking retiring_rows caught_up

not_done : retired shrinking retiring_rows ≡ false
unfolding retired instances_left coordinators_left coordinator_registered coordinator_name
    instance_registered index index_into insert lookup decimal digit emit concat
not_done = refl

retirement_progress_example :
    ((n : String) × In (unregister_instance n) (plan shrinking retiring_rows caught_up))
    ⊎ ((c : CoordinatorSpec) × In (remove_coordinator c) (plan shrinking retiring_rows caught_up))
    ⊎ ((n : String) × In (yield_leadership n) (plan shrinking retiring_rows caught_up))
    ⊎ Progress.Waits shrinking retiring_rows caught_up
retirement_progress_example =
    retirement_progress shrinking retiring_rows caught_up retiring_named not_done
