-- ===== src/Planner/Converged.antt =====
-- internal/planner/planner.go: the plan of a converged cluster, and `Registered` against the plan.
use kubernetes_operator.Prelude.{
  String, ◌≡◌, refl, sym, ◌∙◌, ◌↔◌, inl, inr, Bool, true, false, not, ◌&&◌, List, [], ◌∷◌, length,
  count_if, count_if-eq-length, In, any_of_In, Bool-cases, arith,
}
use kubernetes_operator.Prelude.Map.{Map}
use kubernetes_operator.Memgraph.{
  Instance, CoordinatorSpec, DataInstanceSpec, ReplicationLag, coordinator_name, is_main,
}
use kubernetes_operator.Planner.Commands.{
  Command, add_coordinator, register_instance, demote_instance, unregister_instance,
  remove_coordinator,
}
use kubernetes_operator.Planner.View.{
  Topology, index, instance_registered, coordinator_registered, retiring_names, is_named,
  leader_name, survey,
}
use kubernetes_operator.Planner.{
  plan, bolt_moved, count_coordinators, count_instances, registered_counts, retired,
}
use kubernetes_operator.Planner.Observed.{scan_mains_has_main}
use kubernetes_operator.Planner.Planned.{
  Planned, adds, registers, moves_coordinator, moves_instance, demotes, hands_over, bootstraps,
  unregisters_instance, removes_coordinator, yields_leader, plan-Planned,
}
use kubernetes_operator.Planner.Issued.{plan_iff}
use kubernetes_operator.Planner.Retirement.{retired_plans_nothing}
use kubernetes_operator.Planner.Coordinators.{yield_ends_plan}

nil_of_no_member : (cs : List Command) → ((c : Command) → ¬ In c cs) → cs ≡ []
nil_of_no_member [] h = refl
nil_of_no_member (c ∷ cs) h = absurd (h c (inl refl))

-- Every declared member is registered at its declared bolt address, a MAIN that is not retiring
-- serves, and the retirement is done with the leader among the members that stay.
pub record IsConverged (t : Topology) (o : List Instance) : Type 0 where
  pub coordinators :
      (c : CoordinatorSpec)
      → In c t.coordinators
      → (coordinator_registered (index o) c ≡ true)
        × (bolt_moved (index o) (coordinator_name c) c.bolt_server ≡ false)
  pub data_instances :
      (d : DataInstanceSpec)
      → In d t.data_instances
      → (instance_registered (index o) d.name ≡ true)
        × (bolt_moved (index o) d.name d.bolt_server ≡ false)
  pub main :
      (i : Instance) × In i o × (is_main i ≡ true) × (is_named (retiring_names t) i.name ≡ false)
  pub retirement : retired t o ≡ true
  pub leader :
      (c : CoordinatorSpec) → In c t.retiring_coordinators → coordinator_name c ≡ leader_name o → ⊥

module _ (t : Topology) (o : List Instance) (lag : List ReplicationLag) where
  has_staying_main : IsConverged t o → (survey t o lag).mains.has_main ≡ true
  unfolding survey
  has_staying_main v =
      let (i, j, m, stays) = v.main in
      scan_mains_has_main (retiring_names t) o (record { retiring_main = ""; has_main = false })
      ∙ any_of_In (λ (x : Instance). is_main x && not (is_named (retiring_names t) x.name)) i o j
          (rw (m, stays) refl)

  -- No command has a reason.
  no_reason : IsConverged t o → (c : Command) → In c (plan t o lag) → ⊥
  unfolding survey
  no_reason v c h = from_reason c h (plan-Planned t o lag c h)
    where
      clash : {b : Bool} → b ≡ false → b ≡ true → ⊥
      clash p q = cc

      nothing_retires :
          ((n : String) → ¬ In (demote_instance n) (plan t o lag))
          × ((n : String) → ¬ In (unregister_instance n) (plan t o lag))
          × ((c : CoordinatorSpec) → ¬ In (remove_coordinator c) (plan t o lag))
      nothing_retires = retired_plans_nothing t o lag v.retirement

      from_reason :
          (d : Command) → In d (plan t o lag) → Planned t (survey t o lag) (leader_name o) d → ⊥
      from_reason _ _ (adds x i q) = clash q (v.coordinators x i).0
      from_reason _ _ (registers x i q) = clash q (v.data_instances x i).0
      from_reason _ _ (moves_coordinator x i q) = clash (v.coordinators x i).1 q
      from_reason _ _ (moves_instance x i q) = clash (v.data_instances x i).1 q
      from_reason _ j (demotes n on e) = nothing_retires.0 n j
      from_reason _ _ (hands_over names n on vacant e m) = clash vacant (has_staying_main v)
      from_reason _ _ (bootstraps names n d ds off nothing vacant e p q) =
          clash vacant (has_staying_main v)
      from_reason _ j (unregisters_instance d n i q e) = nothing_retires.1 n j
      from_reason _ j (removes_coordinator x i q) = nothing_retires.2 x j
      from_reason _ j (yields_leader n filled e) =
          let (same, (x, i, q), _) = yield_ends_plan t o lag n j in v.leader x i (q ∙ same)

  -- The plan of a converged cluster is empty.
  pub converged_plans_nothing : IsConverged t o → plan t o lag ≡ []
  converged_plans_nothing v = nil_of_no_member (plan t o lag) (no_reason v)

count_coordinators-count_if :
    (r : Map Instance) (cs : List CoordinatorSpec)
    → count_coordinators r cs ≡ count_if (coordinator_registered r) cs
unfolding count_coordinators
count_coordinators-count_if r [] = refl
count_coordinators-count_if r (c ∷ cs) = ground (arith, count_coordinators-count_if r cs)

count_instances-count_if :
    (r : Map Instance) (ds : List DataInstanceSpec)
    → count_instances r ds ≡ count_if (λ d. instance_registered r d.name) ds
unfolding count_instances
count_instances-count_if r [] = refl
count_instances-count_if r (d ∷ ds) = ground (arith, count_instances-count_if r ds)

module _ (t : Topology) (o : List Instance) (lag : List ReplicationLag) where
  not_added :
      (c : CoordinatorSpec)
      → In c t.coordinators
      → ((x : CoordinatorSpec) → ¬ In (add_coordinator x) (plan t o lag))
      → coordinator_registered (index o) c ≡ true
  unfolding survey
  not_added c i quiet = elim (Bool-cases (coordinator_registered (index o) c)) [
    | inl r ↦ r
    | inr missing ↦ absurd (quiet c ((plan_iff t o lag _).1 (adds c i missing)))
  ]

  not_registered :
      (d : DataInstanceSpec)
      → In d t.data_instances
      → ((x : DataInstanceSpec) → ¬ In (register_instance x) (plan t o lag))
      → instance_registered (index o) d.name ≡ true
  unfolding survey
  not_registered d i quiet = elim (Bool-cases (instance_registered (index o) d.name)) [
    | inl r ↦ r
    | inr missing ↦ absurd (quiet d ((plan_iff t o lag _).1 (registers d i missing)))
  ]

  -- The count of registered coordinators reaches the declared count exactly when a plan adds none,
  -- and that of data instances exactly when a plan registers none.
  pub registered_counts_full :
      (((registered_counts t o).0 ≡ length t.coordinators)
        ↔ ((c : CoordinatorSpec) → ¬ In (add_coordinator c) (plan t o lag)))
      × (((registered_counts t o).1 ≡ length t.data_instances)
          ↔ ((d : DataInstanceSpec) → ¬ In (register_instance d) (plan t o lag)))
  unfolding registered_counts survey
  registered_counts_full = (
    (
      λ h c i.
          added c
            ((count_if-eq-length _ t.coordinators).0
              (sym (count_coordinators-count_if (index o) t.coordinators) ∙ h))
            (plan-Planned t o lag _ i),
      λ quiet.
          count_coordinators-count_if (index o) t.coordinators
          ∙ (count_if-eq-length _ t.coordinators).1 (λ c i. not_added c i quiet),
    ),
    (
      λ h d i.
          signed_up d
            ((count_if-eq-length _ t.data_instances).0
              (sym (count_instances-count_if (index o) t.data_instances) ∙ h))
            (plan-Planned t o lag _ i),
      λ quiet.
          count_instances-count_if (index o) t.data_instances
          ∙ (count_if-eq-length _ t.data_instances).1 (λ d i. not_registered d i quiet),
    ),
  )
    where
      added :
          (c : CoordinatorSpec)
          → ((x : CoordinatorSpec)
              → In x t.coordinators
              → coordinator_registered (index o) x ≡ true)
          → Planned t (survey t o lag) (leader_name o) (add_coordinator c)
          → ⊥
      added c every (adds _ i missing) = ground (arith, every c i)

      signed_up :
          (d : DataInstanceSpec)
          → ((x : DataInstanceSpec)
              → In x t.data_instances
              → instance_registered (index o) x.name ≡ true)
          → Planned t (survey t o lag) (leader_name o) (register_instance d)
          → ⊥
      signed_up d every (registers _ i missing) = ground (arith, every d i)
