-- ===== src/Planner/Due.antt =====
-- internal/planner/planner.go: the registrations, the updates and the ends of coordinators in a plan,
-- by the rows of the observed cluster alone.
use mathlib.Core.Bool.{false≢true}
use kubernetes_operator.Prelude.{
  String, ◌≡◌, ◌≢◌, ◌↔◌, refl, sym, ◌∙◌, inl, inr, false, List, In, ◌==◌, Bool-cases, arith,
}
use kubernetes_operator.Memgraph.{
  Instance, CoordinatorSpec, DataInstanceSpec, ReplicationLag, coordinator_name,
}
use kubernetes_operator.Planner.Commands.{
  Command, add_coordinator, register_instance, update_coordinator_bolt_server,
  update_instance_bolt_server, remove_coordinator, yield_leadership,
}
use kubernetes_operator.Planner.View.{
  Topology, index, instance_registered, coordinator_registered, leader_name, survey,
}
use kubernetes_operator.Planner.{plan}
use kubernetes_operator.Planner.Observed.{instance_registered-Row, row_instance_registered}
use kubernetes_operator.Planner.Planned.{
  Planned, adds, registers, moves_coordinator, moves_instance, removes_coordinator, yields_leader,
  plan-Planned,
}
use kubernetes_operator.Planner.Issued.{plan_iff}
use kubernetes_operator.Planner.Progress.{yield_from_member}
use kubernetes_operator.Planner.Rows.{
  IsMember, HasMoved, Leads, differs_iff, IsMember-iff, HasMoved-iff, Leads-iff, blank_differs,
  yield_from_found,
}

module _ (t : Topology) (o : List Instance) (lag : List ReplicationLag) where
  abbrev Reason : Command → Type 0
  Reason c = Planned t (survey t o lag) (leader_name o) c

  -- The plan holds the command exactly for the reason.
  abbrev Due : Command → Type 0 → Type 0
  Due c why = In c (plan t o lag) ↔ why

  adds_due : (c : CoordinatorSpec) → Due (add_coordinator c) (In c t.coordinators × ¬ IsMember o c)
  unfolding survey
  adds_due c = (
    λ h. from c (plan-Planned t o lag _ h),
    λ (i, absent). (plan_iff t o lag _).1 (adds c i (missing absent)),
  )
    where
      missing : ¬ IsMember o c → coordinator_registered (index o) c ≡ false
      missing absent = elim (Bool-cases (coordinator_registered (index o) c)) [
        | inl r ↦ absurd (absent ((IsMember-iff o c).0 r))
        | inr f ↦ f
      ]

      from :
          (d : CoordinatorSpec) → Reason (add_coordinator d) → In d t.coordinators × ¬ IsMember o d
      from d (adds _ i q) = (i, λ member. absurd (false≢true (sym q ∙ (IsMember-iff o d).1 member)))

  registers_due :
      (d : DataInstanceSpec)
      → Due
          (register_instance d)
          (In d t.data_instances × ((i : Instance) → In i o → i.name ≢ d.name))
  unfolding survey
  registers_due d = (
    λ h. from d (plan-Planned t o lag _ h),
    λ (i, absent). (plan_iff t o lag _).1 (registers d i (missing absent)),
  )
    where
      missing :
          ((i : Instance) → In i o → i.name ≢ d.name) → instance_registered (index o) d.name ≡ false
      missing absent = elim (Bool-cases (instance_registered (index o) d.name)) [
        | inl r ↦ let (i, j, e) = instance_registered-Row o d.name r in absurd (absent i j e)
        | inr f ↦ f
      ]

      from :
          (e : DataInstanceSpec)
          → Reason (register_instance e)
          → In e t.data_instances × ((i : Instance) → In i o → i.name ≢ e.name)
      from e (registers _ i q) =
          (i, λ r j named. absurd (false≢true (sym q ∙ row_instance_registered o e.name r j named)))

  moves_coordinator_due :
      (c : CoordinatorSpec)
      → Due
          (update_coordinator_bolt_server c)
          (In c t.coordinators × HasMoved o (coordinator_name c) c.bolt_server)
  unfolding survey
  moves_coordinator_due c = (
    λ h. from c (plan-Planned t o lag _ h),
    λ (i, moved).
        (plan_iff t o lag _).1
          (moves_coordinator c i ((HasMoved-iff o (coordinator_name c) c.bolt_server).1 moved)),
  )
    where
      from :
          (d : CoordinatorSpec)
          → Reason (update_coordinator_bolt_server d)
          → In d t.coordinators × HasMoved o (coordinator_name d) d.bolt_server
      from d (moves_coordinator _ i q) =
          (i, (HasMoved-iff o (coordinator_name d) d.bolt_server).0 q)

  moves_instance_due :
      (d : DataInstanceSpec)
      → Due
          (update_instance_bolt_server d)
          (In d t.data_instances × HasMoved o d.name d.bolt_server)
  unfolding survey
  moves_instance_due d = (
    λ h. from d (plan-Planned t o lag _ h),
    λ (i, moved).
        (plan_iff t o lag _).1 (moves_instance d i ((HasMoved-iff o d.name d.bolt_server).1 moved)),
  )
    where
      from :
          (e : DataInstanceSpec)
          → Reason (update_instance_bolt_server e)
          → In e t.data_instances × HasMoved o e.name e.bolt_server
      from e (moves_instance _ i q) = (i, (HasMoved-iff o e.name e.bolt_server).0 q)

  removes_due :
      (c : CoordinatorSpec)
      → Due
          (remove_coordinator c)
          (In c t.retiring_coordinators × IsMember o c × ¬ Leads o (coordinator_name c))
  unfolding survey
  removes_due c = (
    λ h. from c (plan-Planned t o lag _ h),
    λ (i, member, follows).
        (plan_iff t o lag _).1
          (removes_coordinator c i (rw (follower follows, (IsMember-iff o c).1 member) refl)),
  )
    where
      follower : ¬ Leads o (coordinator_name c) → (coordinator_name c == leader_name o) ≡ false
      follower follows =
          (differs_iff (coordinator_name c) (leader_name o)).1
            (λ same. follows ((Leads-iff o (coordinator_name c) (blank_differs c)).0 (sym same)))

      from :
          (d : CoordinatorSpec)
          → Reason (remove_coordinator d)
          → In d t.retiring_coordinators × IsMember o d × ¬ Leads o (coordinator_name d)
      from d (removes_coordinator _ i q) = (
        i,
        (IsMember-iff o d).0 (ground arith),
        λ leads.
            let same = (Leads-iff o (coordinator_name d) (blank_differs d)).1 leads in
            absurd ((differs_iff (coordinator_name d) (leader_name o)).0 (ground arith) (sym same)),
      )

  yields_due :
      (n : String)
      → Due (yield_leadership n) (
          (c : CoordinatorSpec) × In c t.retiring_coordinators
          × (coordinator_name c ≡ n)
          × Leads o n)
  yields_due n = (
    λ h. from n (plan-Planned t o lag _ h),
    λ (c, i, named, leads).
        let filled : n ≢ "" = λ blank. blank_differs c (named ∙ blank) in
        let leader : leader_name o ≡ n = (Leads-iff o n filled).1 leads in
        let at =
          yield_from_member (leader_name o) t.retiring_coordinators "" c i (named ∙ sym leader) in
        (plan_iff t o lag _).1 (
          yields_leader n ((differs_iff _ "").1 (λ blank. filled (sym leader ∙ sym at ∙ blank)))
            (at ∙ leader)),
  )
    where
      from :
          (m : String)
          → Reason (yield_leadership m)
          → (c : CoordinatorSpec) × In c t.retiring_coordinators
            × (coordinator_name c ≡ m)
            × Leads o m
      from m (yields_leader _ filled at) =
          elim (yield_from_found (leader_name o) t.retiring_coordinators "") [
            | inl blank ↦ absurd ((differs_iff _ "").0 filled blank)
            | inr (c, i, named, found) ↦
                let leader : leader_name o ≡ m = sym found ∙ at in
                (
                  c,
                  i,
                  named ∙ leader,
                  (Leads-iff o m (λ blank. (differs_iff _ "").0 filled (at ∙ blank))).0 leader,
                )
          ]

  -- Which registrations, updates and ends of coordinators a plan holds, by the rows: it adds a declared
  -- coordinator whose last row is missing or has no Bolt server, registers a declared data instance
  -- that no row names, updates a declared member whose last row has another Bolt server, removes a
  -- retiring coordinator whose last row has a Bolt server unless it leads, and yields exactly where a
  -- retiring coordinator leads. The leader is the first row of a leader.
  pub registrations_due :
      ((c : CoordinatorSpec)
        → In (add_coordinator c) (plan t o lag) ↔ (In c t.coordinators × ¬ IsMember o c))
      × ((d : DataInstanceSpec)
          → In (register_instance d) (plan t o lag)
            ↔ (In d t.data_instances × ((i : Instance) → In i o → i.name ≢ d.name)))
      × ((c : CoordinatorSpec)
          → In (update_coordinator_bolt_server c) (plan t o lag)
            ↔ (In c t.coordinators × HasMoved o (coordinator_name c) c.bolt_server))
      × ((d : DataInstanceSpec)
          → In (update_instance_bolt_server d) (plan t o lag)
            ↔ (In d t.data_instances × HasMoved o d.name d.bolt_server))
      × ((c : CoordinatorSpec)
          → In (remove_coordinator c) (plan t o lag)
            ↔ (In c t.retiring_coordinators × IsMember o c × ¬ Leads o (coordinator_name c)))
      × ((n : String)
          → In (yield_leadership n) (plan t o lag) ↔ (
              (c : CoordinatorSpec) × In c t.retiring_coordinators
              × (coordinator_name c ≡ n)
              × Leads o n))
  registrations_due =
      (adds_due, registers_due, moves_coordinator_due, moves_instance_due, removes_due, yields_due)
