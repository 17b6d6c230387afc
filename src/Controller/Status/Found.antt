-- ===== src/Controller/Status/Found.antt =====
-- internal/controller/memgraphdbcluster_controller.go, `setStatus` and `summarizeReady`: Ready of the
-- conditions that a pass set.
use kubernetes_operator.Prelude.{
  ℕ, String, ◌≡◌, refl, sym, ap, ◌∙◌, subst, ◌↔◌, inl, inr, true, Option, none, some, List, [], ◌∷◌,
  eqb, ◌==◌, eq_iff, if◌then◌else◌, Bool-cases,
}
use kubernetes_operator.Controller.Conditions.{
  Condition, condition, is_true, ready_condition, judge_all, judge, judged, undecided, not_true,
}
use kubernetes_operator.Controller.Ready.{ready_iff}
use kubernetes_operator.Controller.Status.{
  Conditions, AreConditions, Observation, Status, set_conditions, set_status, without_verdict,
  summarize_ready,
}

-- The condition of a type once a pass has set its own, in order.
abbrev pub found_after : ℕ → String → List Condition → Option Condition → Option Condition
found_after generation t [] o = o
found_after generation t (c ∷ cs) o =
    found_after generation t cs
      (if c.condition_type == t then some (record c { observed_generation = generation }) else o)

judged-type :
    (generation : ℕ) (t : String) (o : Option Condition) (rest : Condition)
    → rest.condition_type ≡ "Ready"
    → (judged t o generation rest).condition_type ≡ "Ready"
unfolding judged undecided not_true condition
judged-type generation t none rest h = refl
judged-type generation t (some c) rest h =
    elim (Bool-cases (eqb c.observed_generation generation)) [
      | inr old ↦ rw old refl
      | inl current ↦ elim (Bool-cases (c.status == "True")) [
        | inr other ↦ rw (current, other) refl
        | inl sound ↦ rw (current, sound) h
      ]
    ]

judge-type :
    (find : String → Option Condition) (generation : ℕ) (main : String) (ts : List String)
    → (judge find ts generation main).condition_type ≡ "Ready"
unfolding judge condition
judge-type find generation main [] = refl
judge-type find generation main (t ∷ ts) =
    judged-type generation t (find t) (judge find ts generation main)
      (judge-type find generation main ts)

ready_condition-type :
    (find : String → Option Condition) (verdict : Condition) (main : String) (generation : ℕ)
    → (ready_condition find (some verdict) main generation).condition_type ≡ "Ready"
unfolding ready_condition condition
ready_condition-type find verdict main generation = elim (Bool-cases (verdict.status == "True")) [
  | inl sound ↦ rw sound (
      unfold judge_all in
      judge-type find generation main ("LicenseApplied" ∷ "Converged" ∷ "Updated" ∷ []))
  | inr other ↦ rw other refl
]

-- The condition of a type is True for the generation of the pass.
abbrev pub Holds : ℕ → Option Condition → Type 0
Holds generation o = is_true o generation ≡ true

-- Ready is True, once the pass is summarized.
abbrev pub IsReady : {C : Type 0} → Conditions C → ℕ → Status C → Type 0
IsReady conditions generation status =
    (c : Condition) × (conditions.find (summarize_ready conditions generation status).conditions
        "Ready"
      ≡ some c)
    × (c.status ≡ "True")

module _ {C : Type 0} (conditions : Conditions C) (laws : AreConditions conditions)
    (generation : ℕ) where
  find-set_one :
      (c : Condition) (cs : C) (t : String)
      → conditions.find (conditions.set c cs) t
        ≡ (if c.condition_type == t then some c else conditions.find cs t)
  find-set_one c cs t = elim (Bool-cases (c.condition_type == t)) [
    | inl same ↦ rw same (
        subst (λ u. conditions.find (conditions.set c cs) u ≡ some c)
          ((eq_iff c.condition_type t).0 same) (laws.find-set c cs))
    | inr other ↦ rw other (laws.find-set_other c cs t other)
  ]

  pub find-set_conditions :
      (new : List Condition) (cs : C) (t : String)
      → conditions.find (set_conditions conditions generation new cs) t
        ≡ found_after generation t new (conditions.find cs t)
  unfolding set_conditions
  find-set_conditions [] cs t = refl
  find-set_conditions (c ∷ new) cs t =
      find-set_conditions new (conditions.set (record c { observed_generation = generation }) cs) t
      ∙ ap (found_after generation t new)
          (find-set_one (record c { observed_generation = generation }) cs t)

  ready_iff_verdict :
      (rest : C) (verdict : Condition) (main : String)
      → ((c : Condition) × (conditions.find
              (conditions.set
                (record (ready_condition (conditions.find rest) (some verdict) main generation) {
                  observed_generation = generation;
                })
                rest)
              "Ready"
            ≡ some c)
          × (c.status ≡ "True"))
        ↔ ((verdict.status ≡ "True")
            × Holds generation (conditions.find rest "LicenseApplied")
            × Holds generation (conditions.find rest "Converged")
            × Holds generation (conditions.find rest "Updated"))
  ready_iff_verdict rest verdict main =
      let ready = ready_condition (conditions.find rest) (some verdict) main generation in
      let set : conditions.find
            (conditions.set (record ready { observed_generation = generation }) rest) "Ready"
          ≡ some (record ready { observed_generation = generation }) =
        find-set_one (record ready { observed_generation = generation }) rest "Ready"
        ∙ rw (ready_condition-type (conditions.find rest) verdict main generation) refl in
      let both = ready_iff (conditions.find rest) generation main (some verdict) in
      (
        λ (c, here, true_).
            let same : some (record ready { observed_generation = generation }) ≡ some c =
              sym set ∙ here in
            let status : ready.status ≡ "True" = cc in
            let (serves, license, converged, updated) = both.0 status in
            ((eq_iff verdict.status "True").0 serves, license, converged, updated),
        λ (serves, license, converged, updated). (
          record ready { observed_generation = generation },
          set,
          both.1 ((eq_iff verdict.status "True").1 serves, license, converged, updated),
        ),
      )

  pub summarized_iff :
      (status : Status C) (verdict : Condition)
      → conditions.find status.conditions "Serving" ≡ some verdict
      → IsReady conditions generation status ↔ (
          (verdict.status ≡ "True")
          × Holds generation (conditions.find status.conditions "LicenseApplied")
          × Holds generation (conditions.find status.conditions "Converged")
          × Holds generation (conditions.find status.conditions "Updated"))
  unfolding summarize_ready without_verdict
  summarized_iff status verdict h =
      rw
        (
          h,
          sym (laws.find-remove_other "Serving" status.conditions "LicenseApplied" refl),
          sym (laws.find-remove_other "Serving" status.conditions "Converged" refl),
          sym (laws.find-remove_other "Serving" status.conditions "Updated" refl),
        )
        (ready_iff_verdict (conditions.remove "Serving" status.conditions) verdict status.main)

  -- Ready of the conditions that a pass set, of which one is its verdict.
  pub IsReady-after :
      (o : Observation) (new : List Condition) (status : Status C) (verdict : Condition)
      → found_after generation "Serving" new (conditions.find status.conditions "Serving")
        ≡ some verdict
      → IsReady conditions generation (set_status conditions generation o new status) ↔ (
          (verdict.status ≡ "True")
          × Holds generation (
              found_after generation "LicenseApplied" new
                (conditions.find status.conditions "LicenseApplied"))
          × Holds generation (
              found_after generation "Converged" new
                (conditions.find status.conditions "Converged"))
          × Holds generation
              (found_after generation "Updated" new (conditions.find status.conditions "Updated")))
  unfolding set_status
  IsReady-after o new status verdict h =
      rw
        (
          sym (find-set_conditions new status.conditions "LicenseApplied"),
          sym (find-set_conditions new status.conditions "Converged"),
          sym (find-set_conditions new status.conditions "Updated"),
        )
        (summarized_iff _ verdict (find-set_conditions new status.conditions "Serving" ∙ h))
