-- ===== src/Rollout/Healthy.antt =====
-- internal/rollout/rollout.go: `Next` on a cluster that is healthy.
use kubernetes_operator.Prelude.{
  String, ◌≡◌, ◌≢◌, refl, sym, ap, ◌∙◌, subst, ◌⊎◌, inl, inr, true, false, ◌&&◌, none, List, [],
  ◌∷◌, In, In_of_In-filter, eqb, eqb_iff, ◌==◌, eq_iff, Bool-cases, Option-cases,
}
use kubernetes_operator.Prelude.Map.{Map}
use kubernetes_operator.Memgraph.{Instance, ReplicationLag}
use kubernetes_operator.Planner.View.{index, index_lag, registered_up, lag_caught_up}
use kubernetes_operator.Rollout.Roles.{
  Pod, Role, Decision, done, wait, delete, is_updated, outdated, updated, first_unready, present,
  highest_ordinal_except,
}
use kubernetes_operator.Rollout.{
  Range, main_instance, leader_instance, replicating, survivor_loop, restart_main, restart_replica,
  next_data_instance, coordinators_back, restart_coordinator, next_coordinator, coordinators_turn,
  data_turn, next,
}
use kubernetes_operator.Rollout.Choice.{AllPresent}
use kubernetes_operator.Rollout.Restarts.DataRole.{Deletes, Survivor}

abbrev Acts : Decision → Type 0
Acts done = ⊥
Acts (wait reason message) = ⊥
Acts (delete p reason message) = Unit

Acts-Deletes : (d : Decision) → Acts d → (p : Pod) × Deletes d p
Acts-Deletes done a = absurd a
Acts-Deletes (wait reason message) a = absurd a
Acts-Deletes (delete p reason message) a = (p, refl)

first_unready-none :
    (ps : List Pod) → ((p : Pod) → In p ps → p.ready ≡ true) → first_unready ps ≡ none
unfolding first_unready
first_unready-none [] h = refl
first_unready-none (p ∷ ps) h = rw (h p (inl refl)) (first_unready-none ps (λ q i. h q (inr i)))

present-none : (r : Role) → AllPresent r → present r ≡ none
unfolding present
present-none r (full, ready) = simp ((eqb_iff _ _).1 full) (first_unready-none r.pods ready)

In-updated : (r : Role) (p : Pod) → In p (updated r) → In p r.pods
unfolding updated
In-updated r p h = elim (Bool-cases (r.update_revision == "")) [
  | inl blank ↦ absurd (simp blank at h)
  | inr named ↦ (In_of_In-filter (is_updated r) p r.pods (simp named at h)).0
]

-- The leader reaches the instance of each pod.
abbrev pub AllUp : List Pod → Map Instance → Type 0
AllUp ps instances = (p : Pod) → In p ps → registered_up instances p.instance_name ≡ true

-- The instance of each pod holds every transaction of MAIN.
abbrev pub AllCaughtUp : List Pod → Map ReplicationLag → Type 0
AllCaughtUp ps lags = (p : Pod) → In p ps → lag_caught_up lags p.instance_name ≡ true

replicating-none :
    (ps : List Pod) (instances : Map Instance) (lags : Map ReplicationLag)
    → AllUp ps instances
    → AllCaughtUp ps lags
    → replicating ps instances lags ≡ none
unfolding replicating
replicating-none [] instances lags up caught = refl
replicating-none (p ∷ ps) instances lags up caught =
    rw (up p (inl refl), caught p (inl refl))
      (replicating-none ps instances lags (λ q i. up q (inr i)) (λ q i. caught q (inr i)))

coordinators_back-none :
    (ps : List Pod) (instances : Map Instance)
    → AllUp ps instances
    → coordinators_back ps instances ≡ none
unfolding coordinators_back
coordinators_back-none [] instances up = refl
coordinators_back-none (p ∷ ps) instances up =
    rw (up p (inl refl)) (coordinators_back-none ps instances (λ q i. up q (inr i)))

survivor_loop-Acts :
    (ps : List Pod) (main : String) (m : Pod) (instances : Map Instance) (lags : Map ReplicationLag)
    → Survivor ps main instances lags
    → Acts (survivor_loop ps main m instances lags)
unfolding survivor_loop
survivor_loop-Acts [] main m instances lags (q, i, _, _, _) = absurd i
survivor_loop-Acts (x ∷ ps) main m instances lags (q, inl e, other, up, caught) =
    let skip : (x.instance_name == main) ≡ false = elim (Bool-cases (x.instance_name == main)) [
      | inl same ↦ absurd (other (sym (ap (λ (y : Pod). y.instance_name) e) ∙ (eq_iff _ _).0 same))
      | inr f ↦ f
    ] in
    let up' : registered_up instances x.instance_name ≡ true =
      subst (λ (y : Pod). registered_up instances y.instance_name ≡ true) (sym e) up in
    let caught' : lag_caught_up lags x.instance_name ≡ true =
      subst (λ (y : Pod). lag_caught_up lags y.instance_name ≡ true) (sym e) caught in
    rw (skip, up', caught') tt
survivor_loop-Acts (x ∷ ps) main m instances lags (q, inr i, other, up, caught) =
    let ih = survivor_loop-Acts ps main m instances lags (q, i, other, up, caught) in
    elim (Bool-cases (x.instance_name == main)) [
      | inl skip ↦ rw skip ih
      | inr stay ↦
          elim (Bool-cases
            (registered_up instances x.instance_name && lag_caught_up lags x.instance_name)) [
              | inl fit ↦ rw (stay, fit) tt
              | inr unfit ↦ rw (stay, unfit) ih
            ]
    ]

restart_main-Acts :
    (r : Role) (main : String) (m : Pod) (instances : Map Instance) (lags : Map ReplicationLag)
    → registered_up instances main ≡ true
    → (r.replicas ≡ 1) ⊎ Survivor r.pods main instances lags
    → Acts (restart_main r main m instances lags)
unfolding restart_main
restart_main-Acts r main m instances lags up (inl one) = simp ((eqb_iff _ _).1 one) tt
restart_main-Acts r main m instances lags up (inr s) = elim (Bool-cases (eqb r.replicas 1)) [
  | inl one ↦ rw one tt
  | inr more ↦ rw (more, up) (survivor_loop-Acts r.pods main m instances lags s)
]

next_data_instance-Acts :
    (range : Range) (r : Role) (first : Pod) (rest : List Pod) (instances : Map Instance)
    (lags : Map ReplicationLag)
    → AllPresent r
    → AllUp r.pods instances
    → AllCaughtUp r.pods lags
    → (main_instance range instances == "") ≡ false
    → registered_up instances (main_instance range instances) ≡ true
    → (r.replicas ≡ 1) ⊎ Survivor r.pods (main_instance range instances) instances lags
    → Acts (next_data_instance range r first rest instances lags)
unfolding next_data_instance restart_replica
next_data_instance-Acts range r first rest instances lags all up caught named main_up spare =
    rw (present-none r all, named)
      (elim (Option-cases (highest_ordinal_except (first ∷ rest) (main_instance range instances))) [
        | inl nothing ↦ rw nothing (restart_main-Acts r _ first instances lags main_up spare)
        | inr (p, found) ↦
            rw
              (
                found,
                replicating-none (updated r) instances lags (λ q i. up q (In-updated r q i))
                    (λ q i. caught q (In-updated r q i)),
              )
              tt
      ])

next_coordinator-Acts :
    (range : Range) (r : Role) (first : Pod) (rest : List Pod) (instances : Map Instance)
    → AllPresent r
    → AllUp r.pods instances
    → (leader_instance range instances == "") ≡ false
    → Acts (next_coordinator range r first rest instances)
unfolding next_coordinator restart_coordinator
next_coordinator-Acts range r first rest instances all up named =
    rw
      (
        present-none r all,
        coordinators_back-none (updated r) instances (λ q i. up q (In-updated r q i)),
        named,
      )
      (elim (Option-cases
        (highest_ordinal_except (first ∷ rest) (leader_instance range instances))) [
          | inl nothing ↦ rw nothing tt
          | inr (p, found) ↦ rw found tt
        ])

-- What a roll needs of the cluster in order not to wait: both statuses are current, each pod exists
-- and is ready, the leader reaches each member, each data instance holds all of MAIN's transactions,
-- there are a MAIN and a leader, and MAIN is not the only one of several data instances.
pub record IsHealthy (range : Range) (data_role coordinators : Role) (instances : Map Instance)
    (lags : Map ReplicationLag) : Type 0 where
  pub data_fresh : data_role.stale ≡ false
  pub coordinators_fresh : coordinators.stale ≡ false
  pub data_present : AllPresent data_role
  pub coordinators_present : AllPresent coordinators
  pub data_up : AllUp data_role.pods instances
  pub data_caught_up : AllCaughtUp data_role.pods lags
  pub coordinators_up : AllUp coordinators.pods instances
  pub has_main : (main_instance range instances == "") ≡ false
  pub main_up : registered_up instances (main_instance range instances) ≡ true
  pub has_leader : (leader_instance range instances == "") ≡ false
  pub can_hand_over :
      (data_role.replicas ≡ 1)
      ⊎ ((q : Pod) × In q data_role.pods × (q.instance_name ≢ main_instance range instances))

-- While the cluster is healthy and a pod is outdated, the roll deletes a pod.
pub roll_proceeds :
    (range : Range) (data_role coordinators : Role) (o : List Instance) (lag : List ReplicationLag)
    → IsHealthy range data_role coordinators (index o) (index_lag lag)
    → (outdated data_role ≢ []) ⊎ (outdated coordinators ≢ [])
    → (p : Pod) × Deletes (next range data_role coordinators o lag) p
unfolding next data_turn coordinators_turn
roll_proceeds range data_role coordinators o lag h some_left =
    Acts-Deletes _ (simp (h.data_fresh, h.coordinators_fresh) (turn (outdated data_role) some_left))
  where
    spare :
        (data_role.replicas ≡ 1)
        ⊎ Survivor data_role.pods (main_instance range (index o)) (index o) (index_lag lag)
    spare = elim h.can_hand_over [
      | inl one ↦ inl one
      | inr (q, i, other) ↦ inr (q, i, other, h.data_up q i, h.data_caught_up q i)
    ]

    second :
        (qs : List Pod)
        → qs ≢ []
        → Acts (coordinators_turn range data_role coordinators qs (index o))
    second [] left = absurd (left refl)
    second (q ∷ qs) left = rw (present-none data_role h.data_present) (
        next_coordinator-Acts range coordinators q qs (index o) h.coordinators_present
          h.coordinators_up h.has_leader)

    turn :
        (ps : List Pod)
        → (ps ≢ []) ⊎ (outdated coordinators ≢ [])
        → Acts (data_turn range data_role coordinators ps (index o) (index_lag lag))
    turn (p ∷ ps) left =
        next_data_instance-Acts range data_role p ps (index o) (index_lag lag) h.data_present
          h.data_up h.data_caught_up h.has_main h.main_up spare
    turn [] (inl left) = absurd (left refl)
    turn [] (inr left) = second (outdated coordinators) left
