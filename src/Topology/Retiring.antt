-- ===== src/Topology/Retiring.antt =====
-- internal/resources/topology.go with internal/planner/planner.go: a plan against the topology of a
-- pass.
use kubernetes_operator.Prelude.{ℕ, String, ◌≡◌, ◌≢◌, sym, ap, ◌∙◌, subst, inl, inr, List, In}
use kubernetes_operator.Memgraph.{Instance, CoordinatorSpec, DataInstanceSpec, ReplicationLag}
use kubernetes_operator.Planner.Commands.{
  set_instance_to_main, unregister_instance, remove_coordinator,
}
use kubernetes_operator.Planner.View.{Topology, index, leader_name, survey}
use kubernetes_operator.Planner.{promotion_target, plan}
use kubernetes_operator.Planner.Planned.{
  Planned, hands_over, bootstraps, unregisters_instance, removes_coordinator, plan-Planned,
}
use kubernetes_operator.Planner.Handover.{successors_take_over}
use kubernetes_operator.Planner.Promotion.{IsTarget-cases, registered_index}
use kubernetes_operator.Topology.{Cluster, ExternalAddresses}
use kubernetes_operator.Topology.Members.{members, data_apart, ids_apart}

module _ (cluster : Cluster) (external : ExternalAddresses) (coordinators_applied data_applied : ℕ)
    (o : List Instance) (lag : List ReplicationLag) where
  abbrev t : Topology
  t = members cluster external coordinators_applied data_applied

  -- A plan against the topology of a pass unregisters no declared data instance.
  pub unregister_spares_declared :
      (n : String) (d : DataInstanceSpec)
      → In (unregister_instance n) (plan t o lag)
      → In d t.data_instances
      → d.name ≢ n
  unregister_spares_declared n d h i = from_reason n (plan-Planned t o lag _ h)
    where
      from_reason :
          (m : String)
          → Planned t (survey t o lag) (leader_name o) (unregister_instance m)
          → d.name ≢ m
      from_reason m (unregisters_instance r _ j q e) = λ same.
          data_apart cluster external coordinators_applied data_applied d r i j (same ∙ sym e)

  -- A plan removes no coordinator under the Raft ID of a declared one.
  pub remove_spares_declared :
      (b c : CoordinatorSpec)
      → In (remove_coordinator b) (plan t o lag)
      → In c t.coordinators
      → c.id ≢ b.id
  remove_spares_declared b c h i = from_reason b (plan-Planned t o lag _ h)
    where
      from_reason :
          (e : CoordinatorSpec)
          → Planned t (survey t o lag) (leader_name o) (remove_coordinator e)
          → c.id ≢ e.id
      from_reason e (removes_coordinator _ j q) =
          ids_apart cluster external coordinators_applied data_applied c e i j

  -- A plan against the topology of a pass has no data instance that retires among the candidates of a
  -- promotion.
  pub promotion_spares_retiring :
      (names : List String) (restore k : String) (r : DataInstanceSpec)
      → In (set_instance_to_main names restore) (plan t o lag)
      → In k names
      → In r t.retiring_data_instances
      → r.name ≢ k
  promotion_spares_retiring names restore k r h i j =
      from_reason names restore (plan-Planned t o lag _ h) i
    where
      apart : (d : DataInstanceSpec) → In d t.data_instances → d.name ≡ k → r.name ≢ k
      apart d l named same =
          data_apart cluster external coordinators_applied data_applied d r l j (named ∙ sym same)

      from_reason :
          (ns : List String) (n : String)
          → Planned t (survey t o lag) (leader_name o) (set_instance_to_main ns n)
          → In k ns
          → r.name ≢ k
      from_reason ns n (hands_over _ _ ready _ found _) l =
          let ((d, m, named), _, _) =
            successors_take_over t o lag k ready (subst (In k) (sym found) l) in
          apart d m named
      from_reason ns n (bootstraps _ _ d ds _ _ _ declared single _) l =
          elim (subst (In k) (sym single) l) [
            | inl e ↦
                let (x, m, named, _) = IsTarget-cases t o d ds declared in
                let here : promotion_target (index o) d ds ≡ k =
                  ap (λ g. promotion_target g d ds) (sym (registered_index t o lag)) ∙ e in
                apart x m (named ∙ here)
            | inr never ↦ absurd never
          ]
