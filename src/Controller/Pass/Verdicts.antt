-- ===== src/Controller/Pass/Verdicts.antt =====
-- internal/controller/memgraphdbcluster_controller.go, `reconcileRegistration`: Ready after each of its
-- returns.
use kubernetes_operator.Prelude.{
  ℕ, String, ◌≡◌, ◌≢◌, refl, sym, subst, ◌↔◌, inl, inr, true, some, List, [], ◌∷◌, eqb, eqb_iff,
  ◌==◌, eq_iff, Bool-cases, arith,
}
use kubernetes_operator.Planner.View.{Topology}
use kubernetes_operator.Controller.Conditions.{Condition, condition}
use kubernetes_operator.Controller.Exposure.{ExternalAccess}
use kubernetes_operator.Controller.Settling.{SettingsOutcome}
use kubernetes_operator.Controller.Convergence.{
  VolumeOutcome, not_converged, not_updated, converged_condition, settled_ending, roll_ending,
  wait_for_flag_classes,
}
use kubernetes_operator.Rollout.Roles.{Decision, done, wait, delete}
use kubernetes_operator.Controller.Status.{
  Conditions, AreConditions, Observation, Status, set_status, not_serving, serving_or_not,
}
use kubernetes_operator.Controller.Status.Found.{found_after, Holds, IsReady, IsReady-after}

pub serving_or_not-type : (main : String) → (serving_or_not main).condition_type ≡ "Serving"
unfolding serving_or_not not_serving condition
serving_or_not-type main = elim (Bool-cases (main == "")) [ inl t ↦ rw t refl | inr f ↦ rw f refl ]

pub serving_or_not_iff : (main : String) → ((serving_or_not main).status ≡ "True") ↔ (main ≢ "")
unfolding serving_or_not not_serving condition
serving_or_not_iff main = elim (Bool-cases (main == "")) [
  | inl t ↦
      rw t (λ h. ground (arith, eq_iff "False" "True"), λ h. absurd (h ((eq_iff main "").0 t)))
  | inr f ↦ rw f (λ h e. let t : (main == "") ≡ true = (eq_iff main "").1 e in cc, λ h. refl)
]

pub converged_condition-type :
    (t : Topology) (exposure : ExternalAccess) (monitor_failure : String)
    (applied : SettingsOutcome) (claims : VolumeOutcome)
    → (converged_condition t exposure monitor_failure applied claims).condition_type ≡ "Converged"
unfolding converged_condition not_converged condition
converged_condition-type t exposure monitor_failure applied claims = ground arith

pub settled_ending-type :
    (keys : List String) (decision : Decision) (applied : SettingsOutcome) (claims : VolumeOutcome)
    → (settled_ending keys decision applied claims).updated.condition_type ≡ "Updated"
unfolding settled_ending roll_ending wait_for_flag_classes not_updated condition
settled_ending-type (k ∷ ks) decision applied claims = refl
settled_ending-type [] (delete victim reason message) applied claims = refl
settled_ending-type [] (wait reason message) applied claims = refl
settled_ending-type [] done applied claims = refl

-- Updated is True exactly if no key is unclassified and the roll is done.
pub settled_ending_iff :
    (keys : List String) (decision : Decision) (applied : SettingsOutcome) (claims : VolumeOutcome)
    → ((settled_ending keys decision applied claims).updated.status ≡ "True")
      ↔ ((keys ≡ []) × (decision ≡ done))
unfolding settled_ending roll_ending wait_for_flag_classes not_updated condition
settled_ending_iff (k ∷ ks) decision applied claims =
    (λ h. ground (arith, eq_iff "False" "True"), λ h. cc)
settled_ending_iff [] (delete victim reason message) applied claims =
    (λ h. ground (arith, eq_iff "False" "True"), λ h. cc)
settled_ending_iff [] (wait reason message) applied claims =
    (λ h. ground (arith, eq_iff "False" "True"), λ h. cc)
settled_ending_iff [] done applied claims = (λ h. (refl, refl), λ h. refl)

-- A condition that was just set holds exactly if it is True.
pub Holds-iff :
    (generation : ℕ) (c : Condition)
    → Holds generation (some (record c { observed_generation = generation })) ↔ (c.status ≡ "True")
Holds-iff generation c =
    let same : eqb generation generation ≡ true = (eqb_iff generation generation).1 refl in
    rw same ((λ h. (eq_iff c.status "True").0 h), (λ h. (eq_iff c.status "True").1 h))

module _ {C : Type 0} (conditions : Conditions C) (laws : AreConditions conditions) (generation : ℕ)
    (o : Observation) (status : Status C) where
  -- Of a verdict and a Converged that is False, Ready is not True.
  pub not_converged-unready :
      (verdict : Condition) (reason message : String)
      → verdict.condition_type ≡ "Serving"
      → IsReady conditions generation
          (set_status conditions generation o (verdict ∷ not_converged reason message ∷ []) status)
      → ⊥
  unfolding not_converged condition
  not_converged-unready verdict reason message ta h =
      let (_, _, converged, _) =
        (IsReady-after conditions laws generation o (verdict ∷ not_converged reason message ∷ [])
            status (record verdict { observed_generation = generation }) (rw ta refl)).0
          h in
      let holds : Holds generation
          (some (record (not_converged reason message) { observed_generation = generation })) =
        converged in
      let no : "False" ≡ "True" = (Holds-iff generation (not_converged reason message)).0 holds in
      ground (arith, eq_iff "False" "True")

  -- Of all three conditions, Ready is True exactly if they are, and the license is applied.
  pub three_iff :
      (a b c : Condition)
      → a.condition_type ≡ "Serving"
      → b.condition_type ≡ "Converged"
      → c.condition_type ≡ "Updated"
      → IsReady conditions generation (set_status conditions generation o (a ∷ b ∷ c ∷ []) status)
        ↔ ((a.status ≡ "True")
            × Holds generation (conditions.find status.conditions "LicenseApplied")
            × (b.status ≡ "True")
            × (c.status ≡ "True"))
  three_iff a b c ta tb tc =
      let new = a ∷ b ∷ c ∷ [] in
      let all =
        IsReady-after conditions laws generation o new status
          (record a { observed_generation = generation }) (rw (ta, tb, tc) refl) in
      let license : found_after generation "LicenseApplied" new
            (conditions.find status.conditions "LicenseApplied")
          ≡ conditions.find status.conditions "LicenseApplied" =
        rw (ta, tb, tc) refl in
      let converged : found_after generation "Converged" new
            (conditions.find status.conditions "Converged")
          ≡ some (record b { observed_generation = generation }) =
        rw (tb, tc) refl in
      let updated : found_after generation "Updated" new
            (conditions.find status.conditions "Updated")
          ≡ some (record c { observed_generation = generation }) =
        rw tc refl in
      (
        λ h.
            let (serves, l, m, u) = all.0 h in
            (
              serves,
              subst (Holds generation) license l,
              (Holds-iff generation b).0 (subst (Holds generation) converged m),
              (Holds-iff generation c).0 (subst (Holds generation) updated u),
            ),
        λ (serves, l, m, u). all.1 (
          serves,
          subst (Holds generation) (sym license) l,
          subst (Holds generation) (sym converged) ((Holds-iff generation b).1 m),
          subst (Holds generation) (sym updated) ((Holds-iff generation c).1 u),
        ),
      )
