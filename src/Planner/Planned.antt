-- ===== src/Planner/Planned.antt =====
-- internal/planner/planner.go: the plan as a relation, why each command stands in it. Nothing here
-- speaks of order.
use kubernetes_operator.Prelude.{
  String, ◌≡◌, refl, subst, inl, inr, Bool, true, false, not, ◌&&◌, List, [], ◌∷◌, emit, In,
  In-append, In_of_In-emit, ◌==◌, Bool-cases, arith,
}
use kubernetes_operator.Memgraph.{
  Instance, CoordinatorSpec, DataInstanceSpec, ReplicationLag, coordinator_name,
}
use kubernetes_operator.Planner.Commands.{
  Command, add_coordinator, register_instance, update_coordinator_bolt_server,
  update_instance_bolt_server, set_instance_to_main, demote_instance, unregister_instance,
  remove_coordinator, yield_leadership,
}
use kubernetes_operator.Planner.View.{
  Topology, instance_registered, coordinator_registered, leader_name, Survey, survey,
}
use kubernetes_operator.Planner.{
  promotion_target, bolt_moved, bolt_server_updates, bootstrap, promotion, yield_from, yields,
  demotions, registrations, retirement, plan,
}
use kubernetes_operator.Planner.Loops.{
  add_coordinators-emit, register_instances-emit, coordinator_updates-emit, instance_updates-emit,
  unregisters, unregistrations-emit, removes, removals-emit,
}

-- The reason for a command, given what was surveyed and the leader's name.
pub data Planned (t : Topology) (s : Survey) (leader : String) : Command → Type 0 where
  adds :
      (c : CoordinatorSpec)
      → In c t.coordinators
      → coordinator_registered s.registered c ≡ false
      → Planned t s leader (add_coordinator c)
  registers :
      (d : DataInstanceSpec)
      → In d t.data_instances
      → instance_registered s.registered d.name ≡ false
      → Planned t s leader (register_instance d)
  moves_coordinator :
      (c : CoordinatorSpec)
      → In c t.coordinators
      → bolt_moved s.registered (coordinator_name c) c.bolt_server ≡ true
      → Planned t s leader (update_coordinator_bolt_server c)
  moves_instance :
      (d : DataInstanceSpec)
      → In d t.data_instances
      → bolt_moved s.registered d.name d.bolt_server ≡ true
      → Planned t s leader (update_instance_bolt_server d)
  demotes :
      (n : String)
      → s.handover ≡ true
      → s.mains.retiring_main ≡ n
      → Planned t s leader (demote_instance n)
  hands_over :
      (names : List String) (n : String)
      → s.handover ≡ true
      → s.mains.has_main ≡ false
      → s.successors ≡ names
      → s.mains.retiring_main ≡ n
      → Planned t s leader (set_instance_to_main names n)
  bootstraps :
      (names : List String) (n : String) (d : DataInstanceSpec) (ds : List DataInstanceSpec)
      → (s.handover && not s.mains.has_main) ≡ false
      → (s.mains.retiring_main == "") ≡ true
      → s.mains.has_main ≡ false
      → t.data_instances ≡ d ∷ ds
      → promotion_target s.registered d ds ∷ [] ≡ names
      → "" ≡ n
      → Planned t s leader (set_instance_to_main names n)
  unregisters_instance :
      (d : DataInstanceSpec) (n : String)
      → In d t.retiring_data_instances
      → unregisters s.registered s.handover s.mains.retiring_main d ≡ true
      → d.name ≡ n
      → Planned t s leader (unregister_instance n)
  removes_coordinator :
      (c : CoordinatorSpec)
      → In c t.retiring_coordinators
      → removes s.registered leader c ≡ true
      → Planned t s leader (remove_coordinator c)
  yields_leader :
      (n : String)
      → (yield_from leader t.retiring_coordinators "" == "") ≡ false
      → yield_from leader t.retiring_coordinators "" ≡ n
      → Planned t s leader (yield_leadership n)

module _ (t : Topology) (s : Survey) (leader : String) (c : Command) where
  -- A command that a loop emits is planned if the loop's command is, at each member that passes.
  loop-Planned :
      {A : Type 0} (p : A → Bool) (f : A → Command) (xs : List A)
      → ((x : A) → In x xs → p x ≡ true → Planned t s leader (f x))
      → In c (emit p f xs)
      → Planned t s leader c
  loop-Planned p f xs why h =
      let (x, i, q, e) = In_of_In-emit p f c xs h in subst (λ d. Planned t s leader d) e (why x i q)

  registrations-Planned : In c (registrations t s) → Planned t s leader c
  unfolding registrations bolt_server_updates
  registrations-Planned h = elim (In-append c _ _ h) [
    | inl a ↦
        loop-Planned _ _ _ (λ x i q. adds x i (ground arith))
          (subst (In c) (add_coordinators-emit s.registered t.coordinators) a)
    | inr h₁ ↦ elim (In-append c _ _ h₁) [
      | inl a ↦
          loop-Planned _ _ _ (λ x i q. registers x i (ground arith))
            (subst (In c) (register_instances-emit s.registered t.data_instances) a)
      | inr h₂ ↦ elim (In-append c _ _ h₂) [
        | inl a ↦
            loop-Planned _ _ _ moves_coordinator
              (subst (In c) (coordinator_updates-emit s.registered t.coordinators) a)
        | inr a ↦
            loop-Planned _ _ _ moves_instance
              (subst (In c) (instance_updates-emit s.registered t.data_instances) a)
      ]
    ]
  ]

  demotions-Planned : In c (demotions s.handover s.mains.retiring_main) → Planned t s leader c
  unfolding demotions
  demotions-Planned h = elim (Bool-cases s.handover) [
    | inl on ↦ elim (rw on at h) [
      | inl e ↦ subst (λ d. Planned t s leader d) e (demotes s.mains.retiring_main on refl)
      | inr none ↦ absurd none
    ]
    | inr off ↦ absurd (ground arith)
  ]

  bootstrap-Planned :
      (ds : List DataInstanceSpec)
      → (s.handover && not s.mains.has_main) ≡ false
      → (s.mains.retiring_main == "") ≡ true
      → s.mains.has_main ≡ false
      → t.data_instances ≡ ds
      → In c (bootstrap s.registered ds)
      → Planned t s leader c
  unfolding bootstrap
  bootstrap-Planned [] no_handover no_retiring no_main e h = absurd h
  bootstrap-Planned (d ∷ ds) no_handover no_retiring no_main e (inl q) =
      subst (λ x. Planned t s leader x) q
        (bootstraps _ _ d ds no_handover no_retiring no_main e refl refl)
  bootstrap-Planned (d ∷ ds) no_handover no_retiring no_main e (inr h) = absurd h

  promotion-Planned :
      In c (promotion s.handover s.mains s.successors s.registered t.data_instances)
      → Planned t s leader c
  unfolding promotion
  promotion-Planned h = elim (Bool-cases (s.handover && not s.mains.has_main)) [
    | inl on ↦ elim (rw on at h) [
      | inl e ↦
          subst (λ d. Planned t s leader d) e
            (hands_over s.successors s.mains.retiring_main (ground arith) (ground arith) refl refl)
      | inr none ↦ absurd none
    ]
    | inr off ↦ elim (Bool-cases (s.mains.retiring_main == "" && not s.mains.has_main)) [
      | inl boot ↦
          bootstrap-Planned t.data_instances off (ground arith) (ground arith) refl
            (rw (off, boot) at h)
      | inr neither ↦ absurd (rw (off, neither) at h)
    ]
  ]

  yields-Planned :
      In c (yields (yield_from leader t.retiring_coordinators "")) → Planned t s leader c
  unfolding yields
  yields-Planned h = elim (Bool-cases (yield_from leader t.retiring_coordinators "" == "")) [
    | inl none ↦ absurd (rw none at h)
    | inr some ↦ elim (rw some at h) [
      | inl e ↦ subst (λ d. Planned t s leader d) e (yields_leader _ some refl)
      | inr none ↦ absurd none
    ]
  ]

  retirement-Planned : In c (retirement t s leader) → Planned t s leader c
  unfolding retirement
  retirement-Planned h = elim (In-append c _ _ h) [
    | inl a ↦ demotions-Planned a
    | inr h₁ ↦ elim (In-append c _ _ h₁) [
      | inl a ↦ promotion-Planned a
      | inr h₂ ↦ elim (In-append c _ _ h₂) [
        | inl a ↦
            loop-Planned _ _ _ (λ x i q. unregisters_instance x x.name i q refl)
              (subst (In c)
                (unregistrations-emit s.registered s.handover s.mains.retiring_main
                  t.retiring_data_instances)
                a)
        | inr h₃ ↦ elim (In-append c _ _ h₃) [
          | inl a ↦
              loop-Planned _ _ _ removes_coordinator
                (subst (In c) (removals-emit s.registered leader t.retiring_coordinators) a)
          | inr a ↦ yields-Planned a
        ]
      ]
    ]
  ]

-- Each command of a plan stands in it for one of the reasons.
pub plan-Planned :
    (t : Topology) (o : List Instance) (lag : List ReplicationLag) (c : Command)
    → In c (plan t o lag)
    → Planned t (survey t o lag) (leader_name o) c
unfolding plan
plan-Planned t o lag c h = elim (In-append c (registrations t (survey t o lag)) _ h) [
  | inl a ↦ registrations-Planned t (survey t o lag) (leader_name o) c a
  | inr a ↦ retirement-Planned t (survey t o lag) (leader_name o) c a
]
