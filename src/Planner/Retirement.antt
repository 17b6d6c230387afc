-- ===== src/Planner/Retirement.antt =====
-- internal/planner/planner.go: `Retired` against the plan.
use kubernetes_operator.Prelude.{
  String, ◌≡◌, refl, sym, ◌∙◌, ◌⊎◌, inl, inr, Bool, true, false, List, [], ◌∷◌, In, any, any_of_In,
  In_of_any, Bool-cases, arith,
}
use kubernetes_operator.Prelude.Map.{Map}
use kubernetes_operator.Memgraph.{Instance, CoordinatorSpec, DataInstanceSpec, ReplicationLag}
use kubernetes_operator.Planner.Commands.{demote_instance, unregister_instance, remove_coordinator}
use kubernetes_operator.Planner.View.{
  Topology, index, instance_registered, coordinator_registered, leader_name, survey,
}
use kubernetes_operator.Planner.{plan, instances_left, coordinators_left, retired}
use kubernetes_operator.Planner.Observed.{row_instance_registered}
use kubernetes_operator.Planner.Planned.{
  Planned, unregisters_instance, removes_coordinator, plan-Planned,
}
use kubernetes_operator.Planner.Handover.{demote_needs_survivor}

instances_left-any :
    (r : Map Instance) (ds : List DataInstanceSpec)
    → instances_left r ds ≡ any (λ d. instance_registered r d.name) ds
unfolding instances_left
instances_left-any r [] = refl
instances_left-any r (d ∷ ds) = ground (arith, instances_left-any r ds)

coordinators_left-any :
    (r : Map Instance) (cs : List CoordinatorSpec)
    → coordinators_left r cs ≡ any (coordinator_registered r) cs
unfolding coordinators_left
coordinators_left-any r [] = refl
coordinators_left-any r (c ∷ cs) = ground (arith, coordinators_left-any r cs)

module _ (t : Topology) (o : List Instance) where
  pub retired_instance :
      retired t o ≡ true
      → (d : DataInstanceSpec) → In d t.retiring_data_instances
      → instance_registered (index o) d.name ≡ false
  unfolding retired
  retired_instance h d i = elim (Bool-cases (instance_registered (index o) d.name)) [
    | inr f ↦ f
    | inl r ↦ absurd (
        ground (
          arith,
          instances_left-any (index o) t.retiring_data_instances,
          any_of_In (λ (x : DataInstanceSpec). instance_registered (index o) x.name) d
              t.retiring_data_instances i r,
        ))
  ]

  pub retired_coordinator :
      retired t o ≡ true
      → (c : CoordinatorSpec) → In c t.retiring_coordinators
      → coordinator_registered (index o) c ≡ false
  unfolding retired
  retired_coordinator h c i = elim (Bool-cases (coordinator_registered (index o) c)) [
    | inr f ↦ f
    | inl r ↦ absurd (
        ground (
          arith,
          coordinators_left-any (index o) t.retiring_coordinators,
          any_of_In (coordinator_registered (index o)) c t.retiring_coordinators i r,
        ))
  ]

  -- A retirement that is not done leaves a member registered.
  abbrev pub Left : Type 0
  Left =
      ((d : DataInstanceSpec) × In d t.retiring_data_instances
        × (instance_registered (index o) d.name ≡ true))
      ⊎ ((c : CoordinatorSpec) × In c t.retiring_coordinators
          × (coordinator_registered (index o) c ≡ true))

  pub retired-Left : retired t o ≡ false → Left
  unfolding retired
  retired-Left h = elim (Bool-cases (instances_left (index o) t.retiring_data_instances)) [
    | inl l ↦ inl (In_of_any _ _ (sym (instances_left-any (index o) t.retiring_data_instances) ∙ l))
    | inr none ↦ inr (
        In_of_any _ _
          (sym (coordinators_left-any (index o) t.retiring_coordinators) ∙ ground arith))
  ]

  module _ (lag : List ReplicationLag) where
    -- Once the retirement is done, a plan demotes, unregisters and removes nothing.
    pub retired_plans_nothing :
        retired t o ≡ true
        → ((n : String) → ¬ In (demote_instance n) (plan t o lag))
          × ((n : String) → ¬ In (unregister_instance n) (plan t o lag))
          × ((c : CoordinatorSpec) → ¬ In (remove_coordinator c) (plan t o lag))
    retired_plans_nothing h = (
      λ n i.
          let ((row, j, e, _), (d, k, q), _) = demote_needs_survivor t o lag n i in
          false_true (retired_instance h d k) (row_instance_registered o d.name row j (e ∙ sym q)),
      λ n i. unregistered n (plan-Planned t o lag _ i),
      λ c i. removed c (plan-Planned t o lag _ i),
    )
      where
        false_true : {b : Bool} → b ≡ false → b ≡ true → ⊥
        false_true p q = cc

        unregistered :
            (m : String) → Planned t (survey t o lag) (leader_name o) (unregister_instance m) → ⊥
        unregistered m (unregisters_instance d _ i q e) =
            unfold survey in ground (arith, q, retired_instance h d i)

        removed :
            (d : CoordinatorSpec)
            → Planned t (survey t o lag) (leader_name o) (remove_coordinator d)
            → ⊥
        removed d (removes_coordinator _ i q) =
            unfold survey in ground (arith, q, retired_coordinator h d i)
