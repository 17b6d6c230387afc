-- ===== src/Planner/Promotion.antt =====
-- internal/planner/planner.go: promotions, and the unregistrations that follow them.
use kubernetes_operator.Prelude.{
  String, ◌≡◌, ◌≢◌, refl, sym, ap, ◌∙◌, subst, ◌⊎◌, inl, inr, true, false, not, List, [], ◌∷◌, In,
  all, eq_iff, Bool-cases, arith,
}
use kubernetes_operator.Prelude.Map.{Map}
use kubernetes_operator.Memgraph.{Instance, DataInstanceSpec, ReplicationLag, is_main}
use kubernetes_operator.Planner.Commands.{
  set_instance_to_main, demote_instance, unregister_instance,
}
use kubernetes_operator.Planner.View.{
  Topology, index, retiring_names, registered_up, leader_name, survey,
}
use kubernetes_operator.Planner.{plan, first_up, promotion_target}
use kubernetes_operator.Planner.Observed.{scan_mains_complete}
use kubernetes_operator.Planner.Planned.{
  Planned, demotes, hands_over, bootstraps, unregisters_instance, plan-Planned,
}
use kubernetes_operator.Planner.Issued.{plan_iff}
use kubernetes_operator.Planner.Handover.{
  Retires, CanTakeOver, MainRow, is_named-Retires, Retires-is_named, successors_take_over,
  no_main_retires, no_retiring_main,
}

-- The target is the fallback, or an instance of the list that is up.
first_up_cases :
    (r : Map Instance) (ds : List DataInstanceSpec) (fallback : String)
    → ((d : DataInstanceSpec) × In d ds
        × (d.name ≡ first_up r ds fallback)
        × (registered_up r d.name ≡ true))
      ⊎ ((first_up r ds fallback ≡ fallback) × (all (λ d. not (registered_up r d.name)) ds ≡ true))
unfolding first_up
first_up_cases r [] fallback = inr (refl, refl)
first_up_cases r (d ∷ ds) fallback = elim (Bool-cases (registered_up r d.name)) [
  | inl up ↦ inl (d, inl refl, rw up refl, up)
  | inr down ↦ elim (first_up_cases r ds fallback) [
    | inl (x, i, e, up) ↦ inl (x, inr i, rw down e, up)
    | inr (e, none) ↦ inr (rw down e, rw (down, none) refl)
  ]
]

-- The instance is declared, and is up unless no declared instance is.
abbrev pub IsTarget : Topology → List Instance → String → Type 0
IsTarget t o k =
    (d : DataInstanceSpec) × In d t.data_instances
    × (d.name ≡ k)
    × ((registered_up (index o) k ≡ true)
        ⊎ (all (λ x. not (registered_up (index o) x.name)) t.data_instances ≡ true))

pub IsTarget-cases :
    (t : Topology) (o : List Instance) (d : DataInstanceSpec) (ds : List DataInstanceSpec)
    → t.data_instances ≡ d ∷ ds
    → IsTarget t o (promotion_target (index o) d ds)
unfolding promotion_target
IsTarget-cases t o d ds e = elim (first_up_cases (index o) (d ∷ ds) d.name) [
  | inl (x, i, q, up) ↦ (x, rw e i, q, inl (subst (λ k. registered_up (index o) k ≡ true) q up))
  | inr (q, none) ↦ (d, rw e (inl refl), sym q, inr (rw e none))
]

module _ (t : Topology) (o : List Instance) (lag : List ReplicationLag) where
  -- No row says MAIN.
  abbrev pub NoMain : Type 0
  NoMain = (i : Instance) → In i o → is_main i ≡ false

  pub registered_index : (survey t o lag).registered ≡ index o
  unfolding survey
  registered_index = refl

  -- A plan promotes only while no MAIN is staying. Either it demotes the instance that it would
  -- restore, and each candidate can take over, or no row says MAIN, and the only candidate is a
  -- declared instance that is up if any is. No retiring data instance has an empty name; rows may.
  pub promotion_justified :
      (names : List String) (r : String)
      → ((d : DataInstanceSpec) → In d t.retiring_data_instances → d.name ≢ "")
      → In (set_instance_to_main names r) (plan t o lag)
      → ((i : Instance) → In i o → is_main i ≡ true → Retires t i.name)
        × ((In (demote_instance r) (plan t o lag)
              × ((k : String) → In k names → CanTakeOver t o lag k))
            ⊎ ((r ≡ "") × NoMain × ((k : String) × (names ≡ k ∷ []) × IsTarget t o k)))
  promotion_justified names r named h = from_reason names r (plan-Planned t o lag _ h)
    where
      from_reason :
          (ms : List String) (n : String)
          → Planned t (survey t o lag) (leader_name o) (set_instance_to_main ms n)
          → ((i : Instance) → In i o → is_main i ≡ true → Retires t i.name)
            × ((In (demote_instance n) (plan t o lag)
                  × ((k : String) → In k ms → CanTakeOver t o lag k))
                ⊎ ((n ≡ "") × NoMain × ((k : String) × (ms ≡ k ∷ []) × IsTarget t o k)))
      from_reason ms n (hands_over _ _ on none e m) = (
        λ i j q. is_named-Retires t o lag i.name (no_main_retires t o lag none i j q),
        inl (
          (plan_iff t o lag _).1 (demotes n on m),
          λ k j. successors_take_over t o lag k on (rw e j),
        ),
      )
      from_reason ms n (bootstraps _ _ d ds off nothing none e p q) = (
        λ i j m. is_named-Retires t o lag i.name (no_main_retires t o lag none i j m),
        inr (
          sym q,
          λ i j. elim (Bool-cases (is_main i)) [
            | inr no_main ↦ no_main
            | inl m ↦
                let (x, k, main, nameless) =
                  no_retiring_main t o lag nothing i j m (no_main_retires t o lag none i j m) in
                let (spec, l, same) =
                  is_named-Retires t o lag x.name (no_main_retires t o lag none x k main) in
                absurd (named spec l (same ∙ nameless))
          ],
          (
            promotion_target (index o) d ds,
            sym p ∙ ap (λ g. promotion_target g d ds ∷ []) registered_index,
            IsTarget-cases t o d ds e,
          ),
        ),
      )

  -- Rows that say MAIN carry one name.
  abbrev pub OneMain : Type 0
  OneMain =
      (i j : Instance) → In i o → In j o → is_main i ≡ true → is_main j ≡ true → i.name ≡ j.name

  survey_retiring_main :
      OneMain → (n : String) → MainRow o n → Retires t n → (survey t o lag).mains.retiring_main ≡ n
  unfolding survey
  survey_retiring_main one n (i, j, e, m) r =
      let retires = subst (λ k. Retires t k) (sym e) r in
      let (x, k, q, rx) =
        scan_mains_complete (retiring_names t) o (record { retiring_main = ""; has_main = false }) i
          j (m, Retires-is_named t o lag i.name retires) in
      sym q ∙ one x i k j rx.0 m ∙ e

  -- Where at most one instance is MAIN, a plan that unregisters an observed MAIN demotes it too.
  pub unregister_demotes :
      (n : String)
      → OneMain
      → MainRow o n
      → In (unregister_instance n) (plan t o lag)
      → In (demote_instance n) (plan t o lag)
  unregister_demotes n one row h = from_reason n row (plan-Planned t o lag _ h)
    where
      from_reason :
          (m : String)
          → MainRow o m
          → Planned t (survey t o lag) (leader_name o) (unregister_instance m)
          → In (demote_instance m) (plan t o lag)
      from_reason m main (unregisters_instance d _ i q e) =
          let same = survey_retiring_main one m main (d, i, e) in
          (plan_iff t o lag _).1 (
            demotes m
              (ground
                (arith, q, (eq_iff d.name (survey t o lag).mains.retiring_main).1 (e ∙ sym same)))
              same)
