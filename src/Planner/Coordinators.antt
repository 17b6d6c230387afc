-- ===== src/Planner/Coordinators.antt =====
-- internal/planner/planner.go: the removal of retiring coordinators, and the yield.
use kubernetes_operator.Prelude.{
  String, ◌≡◌, ◌≢◌, refl, sym, ap, ◌∙◌, ◌⊎◌, inl, inr, false, List, [], ◌∷◌, ◌++◌, In, append_assoc,
  In-append, ◌==◌, eq_iff, Bool-cases, arith,
}
use kubernetes_operator.Memgraph.{Instance, CoordinatorSpec, ReplicationLag, coordinator_name}
use kubernetes_operator.Planner.Commands.{Command, remove_coordinator, yield_leadership}
use kubernetes_operator.Planner.View.{Topology, leader_name, survey}
use kubernetes_operator.Planner.{yield_from, yields, registrations, plan}
use kubernetes_operator.Planner.Observed.{coordinator_registered_row}
use kubernetes_operator.Planner.Planned.{Planned, removes_coordinator, yields_leader, plan-Planned}
use kubernetes_operator.Planner.Order.{
  registrations-Phased, before_yield, before_yield-Phased, retirement_split,
}

-- The variable ends as it began, or holds the leader, which then is a member of the list.
yield_from_cases :
    (leader : String) (cs : List CoordinatorSpec) (y : String)
    → (yield_from leader cs y ≡ y)
      ⊎ ((yield_from leader cs y ≡ leader)
          × ((c : CoordinatorSpec) × In c cs × (coordinator_name c ≡ leader)))
unfolding yield_from
yield_from_cases leader [] y = inl refl
yield_from_cases leader (c ∷ cs) y = elim (Bool-cases (coordinator_name c == leader)) [
  | inl here ↦
      let member = (eq_iff (coordinator_name c) leader).0 here in
      elim (yield_from_cases leader cs leader) [
        | inl e ↦ rw here (inr (e, (c, inl refl, member)))
        | inr (e, (d, i, q)) ↦ rw here (inr (e, (d, inr i, q)))
      ]
  | inr other ↦ elim (yield_from_cases leader cs y) [
    | inl e ↦ rw other (inl e)
    | inr (e, (d, i, q)) ↦ rw other (inr (e, (d, inr i, q)))
  ]
]

module _ (t : Topology) (o : List Instance) (lag : List ReplicationLag) where
  -- A plan removes only retiring coordinators that a row shows registered, and never the leader.
  pub remove_spares_leader :
      (c : CoordinatorSpec)
      → In (remove_coordinator c) (plan t o lag)
      → In c t.retiring_coordinators
        × (coordinator_name c ≢ leader_name o)
        × ((i : Instance) × In i o
            × (i.name ≡ coordinator_name c)
            × ((i.bolt_server == "") ≡ false))
  remove_spares_leader c h = from_reason c (plan-Planned t o lag _ h)
    where
      from_reason :
          (d : CoordinatorSpec)
          → Planned t (survey t o lag) (leader_name o) (remove_coordinator d)
          → In d t.retiring_coordinators
            × (coordinator_name d ≢ leader_name o)
            × ((i : Instance) × In i o
                × (i.name ≡ coordinator_name d)
                × ((i.bolt_server == "") ≡ false))
      from_reason d (removes_coordinator _ i q) = (
        i,
        λ e. ground (arith, q, (eq_iff (coordinator_name d) (leader_name o)).1 e),
        coordinator_registered_row o d (unfold survey in ground (arith, q)),
      )

  abbrev ahead : List Command
  ahead = registrations t (survey t o lag) ++ before_yield t (survey t o lag) (leader_name o)

  -- Nothing ahead of the yield is one.
  ahead_early : (k : String) → ¬ In (yield_leadership k) ahead
  ahead_early k h = elim (In-append (yield_leadership k) (registrations t (survey t o lag)) _ h) [
    | inl a ↦ omega (arith, (registrations-Phased t (survey t o lag) (leader_name o)).1 _ a)
    | inr b ↦ omega (arith, (before_yield-Phased t (survey t o lag) (leader_name o)).1 _ b)
  ]

  plan_split :
      (m : String)
      → (yield_from (leader_name o) t.retiring_coordinators "" == "") ≡ false
      → yield_from (leader_name o) t.retiring_coordinators "" ≡ m
      → plan t o lag ≡ ahead ++ yield_leadership m ∷ []
  unfolding plan yields
  plan_split m some e =
      ap (λ cs. registrations t (survey t o lag) ++ cs)
        (retirement_split t (survey t o lag) (leader_name o) ∙ rw (some, e) refl)
      ∙ sym (append_assoc (registrations t (survey t o lag)) _ _)

  -- A plan that yields leadership does so once, last, and from the observed leader, which is a
  -- retiring coordinator.
  pub yield_ends_plan :
      (n : String)
      → In (yield_leadership n) (plan t o lag)
      → (n ≡ leader_name o)
        × ((c : CoordinatorSpec) × In c t.retiring_coordinators × (coordinator_name c ≡ n))
        × ((before : List Command) × (plan t o lag ≡ before ++ yield_leadership n ∷ [])
            × ((m : String) → ¬ In (yield_leadership m) before))
  yield_ends_plan n h = from_reason n (plan-Planned t o lag _ h)
    where
      from_reason :
          (m : String)
          → Planned t (survey t o lag) (leader_name o) (yield_leadership m)
          → (m ≡ leader_name o)
            × ((c : CoordinatorSpec) × In c t.retiring_coordinators × (coordinator_name c ≡ m))
            × ((before : List Command) × (plan t o lag ≡ before ++ yield_leadership m ∷ [])
                × ((k : String) → ¬ In (yield_leadership k) before))
      from_reason m (yields_leader _ some e) =
          elim (yield_from_cases (leader_name o) t.retiring_coordinators "") [
            | inl none ↦ absurd (ground (arith, some, (eq_iff _ "").1 none))
            | inr (same, (c, i, q)) ↦
                (sym e ∙ same, (c, i, q ∙ sym same ∙ e), (ahead, plan_split m some e, ahead_early))
          ]
