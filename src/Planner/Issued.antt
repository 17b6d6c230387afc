-- ===== src/Planner/Issued.antt =====
-- internal/planner/planner.go: the other direction of Planner/Planned, from a reason to its
-- command.
use kubernetes_operator.Prelude.{
  ap, subst, ◌↔◌, inl, List, ◌++◌, emit, In, In-append_left, In-append_right, In-emit, arith,
  String,
}
use kubernetes_operator.Memgraph.{Instance, ReplicationLag}
use kubernetes_operator.Planner.Commands.{
  Command, add_coordinator, register_instance, update_coordinator_bolt_server,
  update_instance_bolt_server, set_instance_to_main, demote_instance, unregister_instance,
  remove_coordinator, yield_leadership,
}
use kubernetes_operator.Planner.View.{Topology, Survey, survey, leader_name}
use kubernetes_operator.Planner.{
  add_coordinators, register_instances, coordinator_updates, unregistrations, removals,
  bolt_server_updates, bootstrap, promotion, yield_from, yields, demotions, registrations,
  retirement, plan,
}
use kubernetes_operator.Planner.Loops.{
  add_coordinators-emit, register_instances-emit, coordinator_updates-emit, instance_updates-emit,
  unregisters, unregistrations-emit, removals-emit,
}
use kubernetes_operator.Planner.Planned.{
  Planned, adds, registers, moves_coordinator, moves_instance, demotes, hands_over, bootstraps,
  unregisters_instance, removes_coordinator, yields_leader, plan-Planned,
}

module _ (t : Topology) (s : Survey) (leader : String) where
  abbrev Issued : Command → Type 0
  Issued c = In c (registrations t s ++ retirement t s leader)

  registered : (c : Command) → In c (registrations t s) → Issued c
  registered c h = In-append_left c _ _ h

  -- The parts of the retirement, in their order.
  abbrev demoted : List Command
  demoted = demotions s.handover s.mains.retiring_main

  abbrev promoted : List Command
  promoted = promotion s.handover s.mains s.successors s.registered t.data_instances

  abbrev unregistered : List Command
  unregistered =
      unregistrations s.handover s.mains.retiring_main s.registered t.retiring_data_instances

  abbrev removed : List Command
  removed = removals s.registered leader t.retiring_coordinators

  abbrev yielded : List Command
  yielded = yields (yield_from leader t.retiring_coordinators "")

  retires : (c : Command) → In c (retirement t s leader) → Issued c
  retires c h = In-append_right c (registrations t s) (retirement t s leader) h

  demoted-Issued : (c : Command) → In c demoted → Issued c
  unfolding retirement
  demoted-Issued c h = retires c (In-append_left c demoted _ h)

  promoted-Issued : (c : Command) → In c promoted → Issued c
  unfolding retirement
  promoted-Issued c h = retires c (In-append_right c demoted _ (In-append_left c promoted _ h))

  unregistered-Issued : (c : Command) → In c unregistered → Issued c
  unfolding retirement
  unregistered-Issued c h = retires c (
      In-append_right c demoted _
        (In-append_right c promoted _ (In-append_left c unregistered _ h)))

  removed-Issued : (c : Command) → In c removed → Issued c
  unfolding retirement
  removed-Issued c h = retires c (
      In-append_right c demoted _ (
        In-append_right c promoted _
          (In-append_right c unregistered _ (In-append_left c removed _ h))))

  yielded-Issued : (c : Command) → In c yielded → Issued c
  unfolding retirement
  yielded-Issued c h = retires c (
      In-append_right c demoted _ (
        In-append_right c promoted _
          (In-append_right c unregistered _ (In-append_right c removed _ h))))

  Planned-Issued : (c : Command) → Planned t s leader c → Issued c
  unfolding registrations bolt_server_updates demotions promotion bootstrap yields
  Planned-Issued (add_coordinator c) (adds _ i q) = registered _ (
      In-append_left _ (add_coordinators s.registered t.coordinators) _
        (rw add_coordinators-emit (In-emit _ _ c _ i (ground arith))))
  Planned-Issued (register_instance d) (registers _ i q) = registered _ (
      In-append_right _ (add_coordinators s.registered t.coordinators) _ (
        In-append_left _ (register_instances s.registered t.data_instances) _
          (rw register_instances-emit (In-emit _ _ d _ i (ground arith)))))
  Planned-Issued (update_coordinator_bolt_server c) (moves_coordinator _ i q) = registered _ (
      In-append_right _ (add_coordinators s.registered t.coordinators) _ (
        In-append_right _ (register_instances s.registered t.data_instances) _ (
          In-append_left _ (coordinator_updates s.registered t.coordinators) _
            (rw coordinator_updates-emit (In-emit _ _ c _ i q)))))
  Planned-Issued (update_instance_bolt_server d) (moves_instance _ i q) = registered _ (
      In-append_right _ (add_coordinators s.registered t.coordinators) _ (
        In-append_right _ (register_instances s.registered t.data_instances) _ (
          In-append_right _ (coordinator_updates s.registered t.coordinators) _
            (rw instance_updates-emit (In-emit _ _ d _ i q)))))
  Planned-Issued (demote_instance n) (demotes _ on e) =
      demoted-Issued _ (rw on (inl (ap demote_instance e)))
  Planned-Issued (set_instance_to_main names n) (hands_over _ _ on no_main e r) =
      promoted-Issued _ (rw (on, no_main) (inl (ground arith)))
  Planned-Issued (set_instance_to_main names n) (bootstraps _ _ d ds off retiring no_main e p r) =
      promoted-Issued _ (rw (off, retiring, no_main, e) (inl (ground arith)))
  Planned-Issued (unregister_instance n) (unregisters_instance d _ i q e) = unregistered-Issued _ (
      rw unregistrations-emit (
        subst
          (λ k. In (unregister_instance k) (
            emit (unregisters s.registered s.handover s.mains.retiring_main)
              (λ x. unregister_instance x.name) t.retiring_data_instances))
          e (In-emit _ (λ x. unregister_instance x.name) d _ i q)))
  Planned-Issued (remove_coordinator c) (removes_coordinator _ i q) =
      removed-Issued _ (rw removals-emit (In-emit _ _ c _ i q))
  Planned-Issued (yield_leadership n) (yields_leader _ some e) =
      yielded-Issued _ (rw some (inl (ap yield_leadership e)))

-- A plan holds exactly the commands for which there is a reason.
pub plan_iff :
    (t : Topology) (o : List Instance) (lag : List ReplicationLag) (c : Command)
    → In c (plan t o lag) ↔ Planned t (survey t o lag) (leader_name o) c
unfolding plan
plan_iff t o lag c = (plan-Planned t o lag c, Planned-Issued t (survey t o lag) (leader_name o) c)
