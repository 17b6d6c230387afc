-- ===== src/Controller/Ready.antt =====
-- internal/controller/memgraphdbcluster_controller.go, `readyCondition`: when Ready is True, and whose
-- reason it carries otherwise.
use kubernetes_operator.Prelude.{
  ℕ, String, ◌≡◌, refl, ap, ◌∙◌, ◌↔◌, inl, inr, Bool, true, false, not, ◌&&◌, Option, none, some,
  List, [], ◌∷◌, all, eqb, ◌==◌, eq_iff, Bool-cases, arith,
}
use kubernetes_operator.Controller.Conditions.{
  Condition, condition, keeps_previous, undecided, not_true, judged, is_true, judge, judge_all,
  unobserved, ready_condition,
}

judged_true :
    (t : String) (o : Option Condition) (generation : ℕ) (rest : Condition)
    → ((judged t o generation rest).status == "True")
      ≡ (is_true o generation && (rest.status == "True"))
unfolding judged undecided not_true condition
judged_true t none generation rest = refl
judged_true t (some c) generation rest = elim (Bool-cases (eqb c.observed_generation generation)) [
  | inr old ↦ simp old refl
  | inl current ↦ elim (Bool-cases (c.status == "True")) [
    | inr other ↦ simp (current, other) refl
    | inl sound ↦ simp (current, sound) refl
  ]
]

-- The pass does not hold that the cluster does not serve.
abbrev pub serves : Option Condition → Option Condition → Bool
serves (some serving) previous = serving.status == "True"
serves none none = true
serves none (some previous) = not (keeps_previous previous)

three_true :
    (c : Condition) (x y z : Bool)
    → (c.status == "True") ≡ (x && (y && (z && true)))
    → (c.status ≡ "True") ↔ ((x ≡ true) × (y ≡ true) × (z ≡ true))
three_true c x y z e = ground (arith, eq_iff c.status "True")

keeps_not_true : (c : Condition) → keeps_previous c ≡ true → c.status ≡ "True" → ⊥
unfolding keeps_previous
keeps_not_true c kept e =
    let test : (c.status == "True") ≡ true = (eq_iff c.status "True").1 e in
    let no : (c.status == "True") ≡ false = ground arith in cc

module _ (find : String → Option Condition) (generation : ℕ) (main : String) where
  judge_true :
      (ts : List String)
      → ((judge find ts generation main).status == "True")
        ≡ all (λ t. is_true (find t) generation) ts
  unfolding judge condition
  judge_true [] = refl
  judge_true (t ∷ ts) =
      judged_true t (find t) generation (judge find ts generation main)
      ∙ ap (λ b. is_true (find t) generation && b) (judge_true ts)

  all_iff : ((judge_all find generation main).status ≡ "True") ↔ (
      (is_true (find "LicenseApplied") generation ≡ true)
      × (is_true (find "Converged") generation ≡ true)
      × (is_true (find "Updated") generation ≡ true))
  unfolding judge_all
  all_iff =
      three_true (judge_all find generation main) _ _ _
        (judge_true ("LicenseApplied" ∷ "Converged" ∷ "Updated" ∷ []))

  clash : {b : Bool} → b ≡ false → b ≡ true → ⊥
  clash p q = cc

  kept_iff :
      (o : Option Condition)
      → ((unobserved find o generation main).status ≡ "True") ↔ (
          (serves none o ≡ true)
          × (is_true (find "LicenseApplied") generation ≡ true)
          × (is_true (find "Converged") generation ≡ true)
          × (is_true (find "Updated") generation ≡ true))
  unfolding unobserved
  kept_iff none =
      (λ h. let (x, y, z) = all_iff.0 h in (refl, x, y, z), λ (_, x, y, z). all_iff.1 (x, y, z))
  kept_iff (some previous) = elim (Bool-cases (keeps_previous previous)) [
    | inl kept ↦ simp kept (λ h. absurd (keeps_not_true previous kept h), λ h. cc)
    | inr free ↦
        simp free
          (λ h. let (x, y, z) = all_iff.0 h in (refl, x, y, z), λ (_, x, y, z). all_iff.1 (x, y, z))
  ]

  -- Ready is True exactly if the cluster serves, by this pass's verdict or, where there is none, unless
  -- the previous Ready said that it does not or was undecided, and LicenseApplied, Converged and
  -- Updated are True for the current generation.
  pub ready_iff :
      (serving : Option Condition)
      → ((ready_condition find serving main generation).status ≡ "True") ↔ (
          (serves serving (find "Ready") ≡ true)
          × (is_true (find "LicenseApplied") generation ≡ true)
          × (is_true (find "Converged") generation ≡ true)
          × (is_true (find "Updated") generation ≡ true))
  unfolding ready_condition condition
  ready_iff none = kept_iff (find "Ready")
  ready_iff (some serving) = elim (Bool-cases (serving.status == "True")) [
    | inl sound ↦
        simp sound
          (λ h. let (x, y, z) = all_iff.0 h in (refl, x, y, z), λ (_, x, y, z). all_iff.1 (x, y, z))
    | inr other ↦
        simp other (λ h. absurd (clash other ((eq_iff serving.status "True").1 h)), λ h. cc)
  ]
