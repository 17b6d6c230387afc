-- ===== src/Rollout/Restarts.antt =====
-- internal/rollout/rollout.go: what stands behind a decision to delete a pod.
pub mod DataRole
use kubernetes_operator.Prelude.{
  String, ◌≡◌, ◌≢◌, refl, subst, ◌⊎◌, inl, inr, true, false, ◌&&◌, Option, none, some, List, [],
  ◌∷◌, In, eqb, eqb_iff, ◌==◌, eq_iff, Bool-cases, arith,
}
use kubernetes_operator.Prelude.Map.{Map}
use kubernetes_operator.Memgraph.{Instance, ReplicationLag}
use kubernetes_operator.Planner.View.{index, index_lag, registered_up, lag_caught_up}
use kubernetes_operator.Rollout.Roles.{
  Pod, Role, Decision, done, wait, delete, outdated, updated, present, highest_ordinal_except,
  or_go, if_found,
}
use kubernetes_operator.Rollout.{
  Range, main_instance, leader_instance, replicating, survivor_loop, restart_main, restart_replica,
  next_data_instance, coordinators_back, restart_coordinator, next_coordinator, coordinators_turn,
  data_turn, next,
}
use kubernetes_operator.Rollout.Choice.{
  Waits, Highest, highest_ordinal_except_lem, AllPresent, present_cases, replicating_cases,
  coordinators_back_cases,
}
use kubernetes_operator.Rollout.Restarts.DataRole.{
  Deletes, LastMain, Replica, pass, restart_main-Deletes, restart_replica-Deletes,
}

-- What a deletion of a data pod rests on.
abbrev pub DataRestart : Range → Role → List Pod → Map Instance → Map ReplicationLag → Pod → Type 0
DataRestart range r pending instances lags p =
    AllPresent r
    × ((main_instance range instances == "") ≡ false)
    × (Replica r pending (main_instance range instances) instances lags p
        ⊎ LastMain r pending (main_instance range instances) instances lags p)

next_data_instance-Deletes :
    (range : Range) (r : Role) (first : Pod) (rest : List Pod) (instances : Map Instance)
    (lags : Map ReplicationLag) (p : Pod)
    → Deletes (next_data_instance range r first rest instances lags) p
    → DataRestart range r (first ∷ rest) instances lags p
unfolding next_data_instance
next_data_instance-Deletes range r first rest instances lags p h = elim (present_cases r) [
  | inr w ↦ absurd (pass (present r) _ p w h)
  | inl (e, all) ↦ elim (Bool-cases (main_instance range instances == "")) [
    | inl blank ↦ absurd (rw (e, blank) at h)
    | inr named ↦ (
      all,
      named,
      choose (highest_ordinal_except (first ∷ rest) (main_instance range instances)) refl
          (highest_ordinal_except_lem (main_instance range instances) (first ∷ rest))
          (rw (e, named) at h),
    )
  ]
]
  where
    choose :
        (o : Option Pod)
        → highest_ordinal_except (first ∷ rest) (main_instance range instances) ≡ o
        → Highest (main_instance range instances) (λ q. In q (first ∷ rest)) o
        → Deletes
            (if_found
              (highest_ordinal_except (first ∷ rest) (main_instance range instances))
              (λ q. restart_replica r q instances lags)
              (restart_main r (main_instance range instances) first instances lags))
            p
        → Replica r (first ∷ rest) (main_instance range instances) instances lags p
          ⊎ LastMain r (first ∷ rest) (main_instance range instances) instances lags p
    choose none q h d =
        let (e, why) = restart_main-Deletes r _ first p instances lags (rw q at d) in
        inr (inl e, h, why)
    choose (some m) q h d =
        let (e, back) = restart_replica-Deletes r m p instances lags (rw q at d) in
        inl (
          subst (λ x. Highest (main_instance range instances) (λ y. In y (first ∷ rest)) (some x)) e
              h,
          back,
        )

-- What a deletion of a coordinator's pod rests on: each pod of the role is there, the restarted ones
-- are reachable, a leader is known, and the pod is the highest that does not hold leadership, or
-- the leader's, and the last one.
abbrev pub CoordinatorRestart : Range → Role → List Pod → Map Instance → Pod → Type 0
CoordinatorRestart range r pending instances p =
    AllPresent r
    × ((q : Pod) → In q (updated r) → registered_up instances q.instance_name ≡ true)
    × ((leader_instance range instances == "") ≡ false)
    × (Highest (leader_instance range instances) (λ q. In q pending) (some p)
        ⊎ (In p pending
            × ((q : Pod) → In q pending → q.instance_name ≡ leader_instance range instances)))

restart_coordinator-Deletes :
    (leader : String) (first : Pod) (rest : List Pod) (p : Pod)
    → Deletes (restart_coordinator leader first rest) p
    → Highest leader (λ q. In q (first ∷ rest)) (some p)
      ⊎ (In p (first ∷ rest) × ((q : Pod) → In q (first ∷ rest) → q.instance_name ≡ leader))
unfolding restart_coordinator
restart_coordinator-Deletes leader first rest p h =
    choose (highest_ordinal_except (first ∷ rest) leader) refl
      (highest_ordinal_except_lem leader (first ∷ rest))
  where
    choose :
        (o : Option Pod)
        → highest_ordinal_except (first ∷ rest) leader ≡ o
        → Highest leader (λ q. In q (first ∷ rest)) o
        → Highest leader (λ q. In q (first ∷ rest)) (some p)
          ⊎ (In p (first ∷ rest) × ((q : Pod) → In q (first ∷ rest) → q.instance_name ≡ leader))
    choose none q top = inr (inl (rw q at h), top)
    choose (some m) q top =
        inl (subst (λ x. Highest leader (λ y. In y (first ∷ rest)) (some x)) (rw q at h) top)

next_coordinator-Deletes :
    (range : Range) (r : Role) (first : Pod) (rest : List Pod) (instances : Map Instance) (p : Pod)
    → Deletes (next_coordinator range r first rest instances) p
    → CoordinatorRestart range r (first ∷ rest) instances p
unfolding next_coordinator
next_coordinator-Deletes range r first rest instances p h = elim (present_cases r) [
  | inr w ↦ absurd (pass (present r) _ p w h)
  | inl (e, all) ↦ elim (coordinators_back_cases (updated r) instances) [
    | inr w ↦ absurd (pass (coordinators_back (updated r) instances) _ p w (rw e at h))
    | inl (back, up) ↦ elim (Bool-cases (leader_instance range instances == "")) [
      | inl blank ↦ absurd (rw (e, back, blank) at h)
      | inr named ↦ (
        all,
        up,
        named,
        restart_coordinator-Deletes (leader_instance range instances) first rest p
            (rw (e, back, named) at h),
      )
    ]
  ]
]

-- A decision deletes a pod only of a role whose StatefulSet is not stale, and only as the rules for
-- the role allow: data pods first, and a coordinator only while no data pod is outdated and each
-- data pod is there and ready.
pub next-Deletes :
    (range : Range) (data_role coordinators : Role) (o : List Instance) (lag : List ReplicationLag)
    (p : Pod)
    → Deletes (next range data_role coordinators o lag) p
    → (data_role.stale ≡ false)
      × (coordinators.stale ≡ false)
      × (DataRestart range data_role (outdated data_role) (index o) (index_lag lag) p
          ⊎ ((outdated data_role ≡ [])
              × AllPresent data_role
              × CoordinatorRestart range coordinators (outdated coordinators) (index o) p))
unfolding next data_turn coordinators_turn
next-Deletes range data_role coordinators o lag p h = elim (Bool-cases data_role.stale) [
  | inl stale ↦ absurd (simp stale at h)
  | inr fresh ↦ elim (Bool-cases coordinators.stale) [
    | inl stale ↦ absurd (simp (fresh, stale) at h)
    | inr both ↦ (fresh, both, turn (outdated data_role) refl (simp (fresh, both) at h))
  ]
]
  where
    second :
        (ps : List Pod)
        → outdated coordinators ≡ ps
        → outdated data_role ≡ []
        → Deletes (coordinators_turn range data_role coordinators ps (index o)) p
        → (outdated data_role ≡ [])
          × AllPresent data_role
          × CoordinatorRestart range coordinators (outdated coordinators) (index o) p
    second [] e none_left d = absurd d
    second (q ∷ qs) e none_left d = elim (present_cases data_role) [
      | inr w ↦ absurd (pass (present data_role) _ p w d)
      | inl (here, all) ↦ (
        none_left,
        all,
        rw e (next_coordinator-Deletes range coordinators q qs (index o) p (rw here at d)),
      )
    ]

    turn :
        (ps : List Pod)
        → outdated data_role ≡ ps
        → Deletes
            (data_turn range data_role coordinators (outdated data_role) (index o) (index_lag lag))
            p
        → DataRestart range data_role (outdated data_role) (index o) (index_lag lag) p
          ⊎ ((outdated data_role ≡ [])
              × AllPresent data_role
              × CoordinatorRestart range coordinators (outdated coordinators) (index o) p)
    turn [] e d = inr (second (outdated coordinators) refl e (rw e at d))
    turn (q ∷ qs) e d = inl (
        rw e
          (next_data_instance-Deletes range data_role q qs (index o) (index_lag lag) p (rw e at d)))
