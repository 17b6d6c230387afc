-- ===== src/Planner/Loops.antt =====
-- internal/planner/planner.go: the loops of `Plan` that append a command for each member that
-- passes a test.
use kubernetes_operator.Prelude.{
  String, ◌≡◌, refl, Bool, not, ◌&&◌, List, [], ◌∷◌, emit, ◌==◌, arith,
}
use kubernetes_operator.Prelude.Map.{Map}
use kubernetes_operator.Memgraph.{Instance, CoordinatorSpec, DataInstanceSpec, coordinator_name}
use kubernetes_operator.Planner.Commands.{
  add_coordinator, register_instance, update_coordinator_bolt_server, update_instance_bolt_server,
  unregister_instance, remove_coordinator,
}
use kubernetes_operator.Planner.View.{instance_registered, coordinator_registered}
use kubernetes_operator.Planner.{
  add_coordinators, register_instances, bolt_moved, coordinator_updates, instance_updates,
  unregistrations, removals,
}

module _ (r : Map Instance) where
  pub add_coordinators-emit :
      (cs : List CoordinatorSpec)
      → add_coordinators r cs ≡ emit (λ c. not (coordinator_registered r c)) add_coordinator cs
  unfolding add_coordinators emit
  add_coordinators-emit [] = refl
  add_coordinators-emit (c ∷ cs) = ground (arith, add_coordinators-emit cs)

  pub register_instances-emit :
      (ds : List DataInstanceSpec)
      → register_instances r ds
        ≡ emit (λ d. not (instance_registered r d.name)) register_instance ds
  unfolding register_instances emit
  register_instances-emit [] = refl
  register_instances-emit (d ∷ ds) = ground (arith, register_instances-emit ds)

  pub coordinator_updates-emit :
      (cs : List CoordinatorSpec)
      → coordinator_updates r cs
        ≡ emit
            (λ c. bolt_moved r (coordinator_name c) c.bolt_server)
            update_coordinator_bolt_server
            cs
  unfolding coordinator_updates emit
  coordinator_updates-emit [] = refl
  coordinator_updates-emit (c ∷ cs) = ground (arith, coordinator_updates-emit cs)

  pub instance_updates-emit :
      (ds : List DataInstanceSpec)
      → instance_updates r ds
        ≡ emit (λ d. bolt_moved r d.name d.bolt_server) update_instance_bolt_server ds
  unfolding instance_updates emit
  instance_updates-emit [] = refl
  instance_updates-emit (d ∷ ds) = ground (arith, instance_updates-emit ds)

  -- A retiring instance goes unless it is a MAIN that waits for its handover.
  abbrev pub unregisters : Bool → String → DataInstanceSpec → Bool
  unregisters handover main d = instance_registered r d.name && not (d.name == main && not handover)

  pub unregistrations-emit :
      (handover : Bool) (main : String) (ds : List DataInstanceSpec)
      → unregistrations handover main r ds
        ≡ emit (unregisters handover main) (λ d. unregister_instance d.name) ds
  unfolding unregistrations emit
  unregistrations-emit handover main [] = refl
  unregistrations-emit handover main (d ∷ ds) =
      ground (arith, unregistrations-emit handover main ds)

  abbrev pub removes : String → CoordinatorSpec → Bool
  removes leader c = not (coordinator_name c == leader) && coordinator_registered r c

  pub removals-emit :
      (leader : String) (cs : List CoordinatorSpec)
      → removals r leader cs ≡ emit (removes leader) remove_coordinator cs
  unfolding removals emit
  removals-emit leader [] = refl
  removals-emit leader (c ∷ cs) = ground (arith, removals-emit leader cs)
