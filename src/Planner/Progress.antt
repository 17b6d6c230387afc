-- ===== src/Planner/Progress.antt =====
-- internal/planner/planner.go: what `Plan` issues while a retirement is not done.
use text.Mathlib.TextLemmas.{append-eq-nil_iff}
use kubernetes_operator.Prelude.{
  concat, String, ◌≡◌, ◌≢◌, refl, ap, ◌∙◌, subst, ◌⊎◌, inl, inr, true, false, not, ◌&&◌, List, [],
  ◌∷◌, In, ◌==◌, eq_iff, Bool-cases, arith,
}
use kubernetes_operator.Prelude.Map.{Map}
use kubernetes_operator.Memgraph.{
  Instance, CoordinatorSpec, DataInstanceSpec, ReplicationLag, coordinator_name,
}
use kubernetes_operator.Planner.Commands.{unregister_instance, remove_coordinator, yield_leadership}
use kubernetes_operator.Planner.View.{
  Topology, index, index_lag, instance_registered, coordinator_registered, registered_up,
  lag_caught_up, handover_candidates, is_empty, leader_name, survey,
}
use kubernetes_operator.Planner.{plan, yield_from, retired}
use kubernetes_operator.Planner.Planned.{unregisters_instance, removes_coordinator, yields_leader}
use kubernetes_operator.Planner.Issued.{plan_iff}
use kubernetes_operator.Planner.Handover.{Retires, MainRow, retiring_main_row}
use kubernetes_operator.Planner.Retirement.{retired-Left}

no_candidate :
    (r : Map Instance) (lag : Map ReplicationLag) (ds : List DataInstanceSpec)
    (d : DataInstanceSpec)
    → is_empty (handover_candidates r lag ds) ≡ true
    → In d ds
    → (registered_up r d.name && lag_caught_up lag d.name) ≡ false
unfolding handover_candidates is_empty
no_candidate r lag [] d h i = absurd i
no_candidate r lag (x ∷ ds) d h (inl e) =
    subst (λ y. (registered_up r y.name && lag_caught_up lag y.name) ≡ false) e (ground arith)
no_candidate r lag (x ∷ ds) d h (inr i) = no_candidate r lag ds d (ground arith) i

-- From the leader on, the variable holds the leader.
pub yield_from_leader :
    (leader : String) (cs : List CoordinatorSpec) → yield_from leader cs leader ≡ leader
unfolding yield_from
yield_from_leader leader [] = refl
yield_from_leader leader (c ∷ cs) = elim (Bool-cases (coordinator_name c == leader)) [
  | inl t ↦ rw t (yield_from_leader leader cs)
  | inr f ↦ rw f (yield_from_leader leader cs)
]

pub yield_from_member :
    (leader : String) (cs : List CoordinatorSpec) (y : String) (c : CoordinatorSpec)
    → In c cs
    → coordinator_name c ≡ leader
    → yield_from leader cs y ≡ leader
unfolding yield_from
yield_from_member leader [] y c h e = absurd h
yield_from_member leader (d ∷ cs) y c (inl s) e =
    rw ((eq_iff (coordinator_name d) leader).1 (ap coordinator_name s ∙ e))
      (yield_from_leader leader cs)
yield_from_member leader (d ∷ cs) y c (inr h) e = yield_from_member leader cs _ c h e

pub coordinator_named : (c : CoordinatorSpec) → (coordinator_name c == "") ≡ false
unfolding coordinator_name concat
coordinator_named c = elim (Bool-cases (coordinator_name c == "")) [
  | inr named ↦ named
  | inl blank ↦
      let nothing : "coordinator_" ≡ "" =
        (append-eq-nil_iff.0 ((eq_iff (coordinator_name c) "").0 blank)).0 in
      let test : ("coordinator_" == "") ≡ true = (eq_iff "coordinator_" "").1 nothing in cc
]

filled : {a b : String} → a ≡ b → a ≢ "" → (b == "") ≡ false
filled {a} {b} same named = elim (Bool-cases (b == "")) [
  | inr f ↦ f
  | inl blank ↦ absurd (named (same ∙ (eq_iff b "").0 blank))
]

module _ (t : Topology) (o : List Instance) (lag : List ReplicationLag) where
  -- A MAIN waits: it is retiring, and no declared instance is both up and caught up.
  abbrev pub Waits : Type 0
  Waits =
      (n : String) × MainRow o n
      × Retires t n
      × ((d : DataInstanceSpec)
          → In d t.data_instances
          → (registered_up (index o) d.name && lag_caught_up (index_lag lag) d.name) ≡ false)

  waits :
      (survey t o lag).handover ≡ false
      → ((survey t o lag).mains.retiring_main == "") ≡ false
      → Waits
  unfolding survey
  waits off named = (
    (survey t o lag).mains.retiring_main,
    (retiring_main_row t o lag named).0,
    (retiring_main_row t o lag named).1,
    λ d i. no_candidate (index o) (index_lag lag) t.data_instances d (ground arith) i,
  )

  coordinator_progress :
      (c : CoordinatorSpec)
      → In c t.retiring_coordinators
      → coordinator_registered (index o) c ≡ true
      → ((d : CoordinatorSpec) × In (remove_coordinator d) (plan t o lag))
        ⊎ ((n : String) × In (yield_leadership n) (plan t o lag))
        ⊎ Waits
  coordinator_progress c i r = elim (Bool-cases (coordinator_name c == leader_name o)) [
    | inl leads ↦
        let same = (eq_iff (coordinator_name c) (leader_name o)).0 leads in
        let from = yield_from_member (leader_name o) t.retiring_coordinators "" c i same in
        inr (
          inl (
            leader_name o,
            (plan_iff t o lag _).1 (
                yields_leader (leader_name o)
                  (rw from (subst (λ k. (k == "") ≡ false) same (coordinator_named c))) from),
          ))
    | inr follows ↦ inl (
      c,
      (plan_iff t o lag _).1 (removes_coordinator c i (unfold survey in rw (follows, r) refl)),
    )
  ]

  instance_progress :
      (d : DataInstanceSpec)
      → In d t.retiring_data_instances
      → d.name ≢ ""
      → instance_registered (index o) d.name ≡ true
      → ((n : String) × In (unregister_instance n) (plan t o lag))
        ⊎ ((c : CoordinatorSpec) × In (remove_coordinator c) (plan t o lag))
        ⊎ ((n : String) × In (yield_leadership n) (plan t o lag))
        ⊎ Waits
  instance_progress d i named r =
      elim (Bool-cases
        (d.name == (survey t o lag).mains.retiring_main && not (survey t o lag).handover)) [
          | inl main ↦
              let same = (eq_iff d.name (survey t o lag).mains.retiring_main).0 (ground arith) in
              inr (inr (inr (waits (ground arith) (filled same named))))
          | inr other ↦ inl (
            d.name,
            (plan_iff t o lag _).1
                (unregisters_instance d d.name i (unfold survey in rw (r, other) refl) refl),
          )
        ]

  -- While a retirement is not done, the plan unregisters, removes or yields, or a retiring MAIN waits
  -- for a survivor that is reachable and caught up. No retiring data instance has an empty name; rows
  -- may.
  pub retirement_progress :
      ((d : DataInstanceSpec) → In d t.retiring_data_instances → d.name ≢ "")
      → retired t o ≡ false
      → ((n : String) × In (unregister_instance n) (plan t o lag))
        ⊎ ((c : CoordinatorSpec) × In (remove_coordinator c) (plan t o lag))
        ⊎ ((n : String) × In (yield_leadership n) (plan t o lag))
        ⊎ Waits
  retirement_progress named h = elim (retired-Left t o h) [
    | inl (d, i, r) ↦ instance_progress d i (named d i) r
    | inr (c, i, r) ↦ inr (coordinator_progress c i r)
  ]
