-- ===== src/Scenarios/Rolling.antt =====
-- Steps of a roll: a replica, and the MAIN once a replica can be promoted.
use kubernetes_operator.Prelude.{
  ℕ, String, ◌≡◌, ◌≢◌, ◌↔◌, ◌⊎◌, refl, sym, ◌∙◌, subst, inl, inr, true, false, List, [], ◌∷◌, In,
  ◌==◌, eq_iff, concat,
}
use kubernetes_operator.Prelude.Map.{lookup, insert, index_into}
use kubernetes_operator.Memgraph.{
  Instance, ReplicationLag, equal_fold, is_main, is_up, is_leader, is_caught_up,
  databases_caught_up, behind,
}
use kubernetes_operator.Planner.View.{index, index_lag, lag_caught_up, registered_up}
use kubernetes_operator.Rollout.Roles.{
  Pod, Role, done, is_outdated, is_updated, outdated, updated, first_unready, present, better,
  highest_from, highest_ordinal_except,
}
use kubernetes_operator.Rollout.{
  Range, first_with, main_instance, leader_instance, replicating, survivor_loop, restart_main,
  restart_replica, next_data_instance, coordinators_back, restart_coordinator, next_coordinator,
  coordinators_turn, data_turn, next,
}
use kubernetes_operator.Rollout.Choice.{AllPresent}
use kubernetes_operator.Rollout.Restarts.DataRole.{Deletes}
use kubernetes_operator.Rollout.Order.{
  UpRow, CaughtUpRow, Deletes-outdated, main_last, replicas_back,
}
use kubernetes_operator.Rollout.Done.{next-done}
use kubernetes_operator.Rollout.Healthy.{IsHealthy, roll_proceeds}
use kubernetes_operator.Scenarios.Cluster.{row, lag_of}

abbrev in_order : Range
in_order m = m

abbrev pod : String → String → ℕ → String → Pod
pod name instance_name ordinal revision_hash = record {
  name = name;
  uid = name;
  instance_name = instance_name;
  ordinal = ordinal;
  revision_hash = revision_hash;
  current = false;
  ready = true;
}

abbrev old_0 : Pod
old_0 = pod "demo-data-0" "instance_0" 0 "old"

abbrev new_0 : Pod
new_0 = pod "demo-data-0" "instance_0" 0 "new"

abbrev old_1 : Pod
old_1 = pod "demo-data-1" "instance_1" 1 "old"

abbrev new_1 : Pod
new_1 = pod "demo-data-1" "instance_1" 1 "new"

abbrev new_2 : Pod
new_2 = pod "demo-data-2" "instance_2" 2 "new"

abbrev old_coordinator : Pod
old_coordinator = pod "demo-coordinator-0" "coordinator_0" 0 "old"

abbrev role_of : ℕ → List Pod → Role
role_of replicas pods = record {
  replicas = replicas;
  update_revision = "new";
  stale = false;
  pods = pods;
}

-- A replica is outdated, then only MAIN, then only the leader.
abbrev replica_left : Role
replica_left = role_of 3 (old_0 ∷ old_1 ∷ new_2 ∷ [])

abbrev main_left : Role
main_left = role_of 2 (old_0 ∷ new_1 ∷ [])

abbrev none_left : Role
none_left = role_of 2 (new_0 ∷ new_1 ∷ [])

abbrev leader_left : Role
leader_left = role_of 1 (old_coordinator ∷ [])

abbrev rows : List Instance
rows =
    row "coordinator_0" "c0" "leader"
    ∷ row "instance_0" "d0" "main"
    ∷ row "instance_1" "d1" "replica"
    ∷ row "instance_2" "d2" "replica"
    ∷ []

abbrev lag : List ReplicationLag
lag = lag_of "instance_0" 0 ∷ lag_of "instance_1" 0 ∷ lag_of "instance_2" 0 ∷ []

replica_step : Deletes (next in_order replica_left leader_left rows lag) old_1
unfolding next data_turn coordinators_turn next_data_instance restart_main restart_replica
    replicating survivor_loop present first_unready outdated is_outdated updated is_updated
    highest_ordinal_except highest_from better main_instance leader_instance first_with
    next_coordinator coordinators_back restart_coordinator concat registered_up lag_caught_up index
    index_lag index_into insert lookup is_main is_leader is_up is_caught_up equal_fold
    databases_caught_up behind
replica_step = refl

main_step : Deletes (next in_order main_left leader_left rows lag) old_0
unfolding next data_turn coordinators_turn next_data_instance restart_main restart_replica
    replicating survivor_loop present first_unready outdated is_outdated updated is_updated
    highest_ordinal_except highest_from better main_instance leader_instance first_with
    next_coordinator coordinators_back restart_coordinator concat registered_up lag_caught_up index
    index_lag index_into insert lookup is_main is_leader is_up is_caught_up equal_fold
    databases_caught_up behind
main_step = refl

main_is : main_instance in_order (index rows) ≡ "instance_0"
unfolding main_instance first_with index index_into insert lookup is_main equal_fold
main_is = refl

main_outdated : outdated main_left ≡ old_0 ∷ []
unfolding outdated is_outdated
main_outdated = refl

replica_outdated : outdated replica_left ≡ old_0 ∷ old_1 ∷ []
unfolding outdated is_outdated
replica_outdated = refl

replica_updated : updated replica_left ≡ new_2 ∷ []
unfolding updated is_updated
replica_updated = refl

main_some : outdated main_left ≢ []
main_some e = let never : old_0 ∷ [] ≡ [] = subst (λ l. l ≡ []) main_outdated e in cc

replica_some : outdated replica_left ≢ []
replica_some e = let never : old_0 ∷ old_1 ∷ [] ≡ [] = subst (λ l. l ≡ []) replica_outdated e in cc

not_main : old_1.instance_name ≢ main_instance in_order (index rows)
not_main e =
    let never : (old_1.instance_name == "instance_0") ≡ true = (eq_iff _ _).1 (e ∙ main_is) in cc

Deletes-outdated_example :
    AllPresent main_left
    × (In old_0 (outdated main_left)
        ⊎ ((outdated main_left ≡ []) × AllPresent leader_left × In old_0 (outdated leader_left)))
Deletes-outdated_example = Deletes-outdated in_order main_left leader_left rows lag old_0 main_step

main_last_example :
    ((q : Pod) → In q (outdated main_left) → q.instance_name ≡ main_instance in_order (index rows))
    × ((main_left.replicas ≡ 1)
        ⊎ (UpRow rows (main_instance in_order (index rows))
            × ((q : Pod) × In q main_left.pods
                × (q.instance_name ≢ main_instance in_order (index rows))
                × UpRow rows q.instance_name
                × CaughtUpRow lag q.instance_name)))
main_last_example =
    main_last in_order main_left leader_left rows lag old_0 main_some (sym main_is) main_step

replicas_back_example : UpRow rows "instance_2" × CaughtUpRow lag "instance_2"
replicas_back_example =
    replicas_back in_order replica_left leader_left rows lag old_1 replica_some not_main
      replica_step new_2 (subst (In new_2) (sym replica_updated) (inl refl))

next-done_example :
    (next in_order none_left leader_left rows lag ≡ done)
    ↔ ((false ≡ false) × (false ≡ false) × (outdated none_left ≡ []) × (outdated leader_left ≡ []))
next-done_example = next-done in_order none_left leader_left rows lag

healthy : IsHealthy in_order main_left leader_left (index rows) (index_lag lag)
unfolding next data_turn coordinators_turn next_data_instance restart_main restart_replica
    replicating survivor_loop present first_unready outdated is_outdated updated is_updated
    highest_ordinal_except highest_from better main_instance leader_instance first_with
    next_coordinator coordinators_back restart_coordinator concat registered_up lag_caught_up index
    index_lag index_into insert lookup is_main is_leader is_up is_caught_up equal_fold
    databases_caught_up behind
healthy = record {
  data_fresh = refl;
  coordinators_fresh = refl;
  data_present = (
    refl,
    λ p i. elim i [
      | inl e ↦ subst (λ (x : Pod). x.ready ≡ true) e refl
      | inr j ↦ elim j [ inl e ↦ subst (λ (x : Pod). x.ready ≡ true) e refl | inr n ↦ absurd n ]
    ],
  );
  coordinators_present = (
    refl,
    λ p i. elim i [ inl e ↦ subst (λ (x : Pod). x.ready ≡ true) e refl | inr n ↦ absurd n ],
  );
  data_up = λ p i. elim i [
    | inl e ↦ subst (λ (x : Pod). registered_up (index rows) x.instance_name ≡ true) e refl
    | inr j ↦ elim j [
      | inl e ↦ subst (λ (x : Pod). registered_up (index rows) x.instance_name ≡ true) e refl
      | inr n ↦ absurd n
    ]
  ];
  data_caught_up = λ p i. elim i [
    | inl e ↦ subst (λ (x : Pod). lag_caught_up (index_lag lag) x.instance_name ≡ true) e refl
    | inr j ↦ elim j [
      | inl e ↦ subst (λ (x : Pod). lag_caught_up (index_lag lag) x.instance_name ≡ true) e refl
      | inr n ↦ absurd n
    ]
  ];
  coordinators_up = λ p i. elim i [
    | inl e ↦ subst (λ (x : Pod). registered_up (index rows) x.instance_name ≡ true) e refl
    | inr n ↦ absurd n
  ];
  has_main = refl;
  main_up = refl;
  has_leader = refl;
  can_hand_over = inr (new_1, inr (inl refl), is_other);
}
  where
    is_other : new_1.instance_name ≢ main_instance in_order (index rows)
    is_other e = let never : (new_1.instance_name == "instance_0") ≡ true = (eq_iff _ _).1 e in cc

roll_proceeds_example : (p : Pod) × Deletes (next in_order main_left leader_left rows lag) p
roll_proceeds_example =
    roll_proceeds in_order main_left leader_left rows lag healthy (inl main_some)
