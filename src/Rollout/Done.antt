-- ===== src/Rollout/Done.antt =====
-- internal/rollout/rollout.go: when `Next` answers that the roll is done.
use kubernetes_operator.Prelude.{
  String, ◌≡◌, refl, subst, ◌↔◌, ◌⊎◌, inl, inr, false, ◌&&◌, Option, none, some, List, [], ◌∷◌, eqb,
  ◌==◌, Bool-cases, Option-cases,
}
use kubernetes_operator.Prelude.Map.{Map}
use kubernetes_operator.Memgraph.{Instance, ReplicationLag}
use kubernetes_operator.Planner.View.{index, index_lag, registered_up, lag_caught_up}
use kubernetes_operator.Rollout.Roles.{
  Pod, Role, Decision, done, wait, delete, outdated, updated, present, highest_ordinal_except,
  or_go,
}
use kubernetes_operator.Rollout.{
  Range, main_instance, leader_instance, replicating, survivor_loop, restart_main, restart_replica,
  next_data_instance, coordinators_back, restart_coordinator, next_coordinator, coordinators_turn,
  data_turn, next,
}
use kubernetes_operator.Rollout.Choice.{
  Waits, present_cases, replicating_cases, coordinators_back_cases,
}

-- The decision leaves something to do.
abbrev pub Unfinished : Decision → Type 0
Unfinished done = ⊥
Unfinished (wait reason message) = Unit
Unfinished (delete p reason message) = Unit

or_go-Unfinished :
    (o : Option Decision) (d : Decision)
    → ((o ≡ none) ⊎ Waits o)
    → Unfinished d
    → Unfinished (or_go o d)
or_go-Unfinished none d h u = u
or_go-Unfinished (some done) d (inl e) u = cc
or_go-Unfinished (some done) d (inr w) u = absurd w
or_go-Unfinished (some (wait reason message)) d h u = tt
or_go-Unfinished (some (delete p reason message)) d h u = tt

passes : {X : Type 0} (o : Option Decision) → (((o ≡ none) × X) ⊎ Waits o) → (o ≡ none) ⊎ Waits o
passes o (inl h) = inl h.0
passes o (inr w) = inr w

present-Unfinished : (r : Role) (d : Decision) → Unfinished d → Unfinished (or_go (present r) d)
present-Unfinished r d = or_go-Unfinished (present r) d (passes (present r) (present_cases r))

survivor_loop-Unfinished :
    (ps : List Pod) (main : String) (m : Pod) (instances : Map Instance) (lags : Map ReplicationLag)
    → Unfinished (survivor_loop ps main m instances lags)
unfolding survivor_loop
survivor_loop-Unfinished [] main m instances lags = tt
survivor_loop-Unfinished (x ∷ ps) main m instances lags =
    elim (Bool-cases (x.instance_name == main)) [
      | inl skip ↦ rw skip (survivor_loop-Unfinished ps main m instances lags)
      | inr other ↦
          elim (Bool-cases
            (registered_up instances x.instance_name && lag_caught_up lags x.instance_name)) [
              | inl fit ↦ rw (other, fit) tt
              | inr unfit ↦ rw (other, unfit) (survivor_loop-Unfinished ps main m instances lags)
            ]
    ]

restart_main-Unfinished :
    (r : Role) (main : String) (m : Pod) (instances : Map Instance) (lags : Map ReplicationLag)
    → Unfinished (restart_main r main m instances lags)
unfolding restart_main
restart_main-Unfinished r main m instances lags = elim (Bool-cases (eqb r.replicas 1)) [
  | inl one ↦ rw one tt
  | inr more ↦ elim (Bool-cases (registered_up instances main)) [
    | inr down ↦ rw (more, down) tt
    | inl up ↦ rw (more, up) (survivor_loop-Unfinished r.pods main m instances lags)
  ]
]

next_data_instance-Unfinished :
    (range : Range) (r : Role) (first : Pod) (rest : List Pod) (instances : Map Instance)
    (lags : Map ReplicationLag)
    → Unfinished (next_data_instance range r first rest instances lags)
unfolding next_data_instance restart_replica
next_data_instance-Unfinished range r first rest instances lags =
    present-Unfinished r _ (elim (Bool-cases (main_instance range instances == "")) [
      | inl blank ↦ rw blank tt
      | inr named ↦
          rw named
            (elim (Option-cases
              (highest_ordinal_except (first ∷ rest) (main_instance range instances))) [
                | inl nothing ↦ rw nothing (restart_main-Unfinished r _ first instances lags)
                | inr (p, found) ↦ rw found (
                    or_go-Unfinished (replicating (updated r) instances lags) _
                      (passes _ (replicating_cases (updated r) instances lags)) tt)
              ])
    ])

next_coordinator-Unfinished :
    (range : Range) (r : Role) (first : Pod) (rest : List Pod) (instances : Map Instance)
    → Unfinished (next_coordinator range r first rest instances)
unfolding next_coordinator restart_coordinator
next_coordinator-Unfinished range r first rest instances = present-Unfinished r _ (
    or_go-Unfinished (coordinators_back (updated r) instances) _
      (passes _ (coordinators_back_cases (updated r) instances))
      (elim (Bool-cases (leader_instance range instances == "")) [
        | inl blank ↦ rw blank tt
        | inr named ↦
            rw named
              (elim (Option-cases
                (highest_ordinal_except (first ∷ rest) (leader_instance range instances))) [
                  | inl nothing ↦ rw nothing tt
                  | inr (p, found) ↦ rw found tt
                ])
      ]))

data_turn-Unfinished :
    (range : Range) (data_role coordinators : Role) (pending : List Pod) (instances : Map Instance)
    (lags : Map ReplicationLag)
    → data_turn range data_role coordinators pending instances lags ≡ done
    → (pending ≡ []) × (outdated coordinators ≡ [])
unfolding data_turn coordinators_turn
data_turn-Unfinished range data_role coordinators (p ∷ ps) instances lags e =
    absurd (subst Unfinished e (next_data_instance-Unfinished range data_role p ps instances lags))
data_turn-Unfinished range data_role coordinators [] instances lags e =
    (refl, second (outdated coordinators) e)
  where
    second :
        (qs : List Pod)
        → coordinators_turn range data_role coordinators qs instances ≡ done
        → qs ≡ []
    second [] d = refl
    second (q ∷ qs) d = absurd (
        subst Unfinished d (
          present-Unfinished data_role _
            (next_coordinator-Unfinished range coordinators q qs instances)))

module _ (range : Range) (data_role coordinators : Role) (o : List Instance)
    (lag : List ReplicationLag) where
  done_nothing :
      next range data_role coordinators o lag ≡ done
      → (data_role.stale ≡ false)
        × (coordinators.stale ≡ false)
        × (outdated data_role ≡ [])
        × (outdated coordinators ≡ [])
  unfolding next
  done_nothing e = elim (Bool-cases data_role.stale) [
    | inl stale ↦ absurd (subst Unfinished (simp stale at e) tt)
    | inr fresh ↦ elim (Bool-cases coordinators.stale) [
      | inl stale ↦ absurd (subst Unfinished (simp (fresh, stale) at e) tt)
      | inr both ↦
          let (data_left, coordinators_left) =
            data_turn-Unfinished range data_role coordinators (outdated data_role) (index o)
              (index_lag lag) (simp (fresh, both) at e) in
          (fresh, both, data_left, coordinators_left)
    ]
  ]

  -- The roll is done exactly when the status of both StatefulSets describes their current template
  -- and neither role has an outdated pod.
  pub next-done : (next range data_role coordinators o lag ≡ done) ↔ (
      (data_role.stale ≡ false)
      × (coordinators.stale ≡ false)
      × (outdated data_role ≡ [])
      × (outdated coordinators ≡ []))
  unfolding next data_turn coordinators_turn
  next-done = (
    done_nothing,
    λ (fresh, both, data_left, coordinators_left).
        simp (fresh, both, data_left, coordinators_left) refl,
  )
