-- ===== src/Controller/Convergence/Complete.antt =====
-- internal/controller/memgraphdbcluster_controller.go: when the Converged and Updated conditions are True.
use Prim.Native.String.{◌++◌}
use text.Mathlib.TextLemmas.{append-eq-nil_iff}
use kubernetes_operator.Prelude.{
  String, ◌≡◌, refl, ◌↔◌, inl, inr, Bool, true, false, not, ◌&&◌, List, [], ◌∷◌, ◌==◌, eq_iff,
  Bool-cases, if◌then◌else◌, join, arith,
}
use kubernetes_operator.Planner.View.{Topology, is_empty}
use kubernetes_operator.Rollout.Roles.{Decision, done, wait, delete}
use kubernetes_operator.Controller.Conditions.{Condition, condition}
use kubernetes_operator.Controller.Settling.{SettingsOutcome, is_done}
use kubernetes_operator.Controller.Exposure.{ExternalAccess}
use kubernetes_operator.Controller.Convergence.{
  VolumeOutcome, is_grown, non_empty, join_non_empty, not_converged, converged_condition,
  while_pending, on_resync, wait_for_flag_classes, roll_ending, settled_ending,
}

is_empty_iff : (l : List String) → (is_empty l ≡ true) ↔ (l ≡ [])
unfolding is_empty
is_empty_iff [] = (λ h. refl, λ h. refl)
is_empty_iff (x ∷ xs) = (λ h. cc, λ h. cc)

joined_iff :
    (first second : String)
    → ((join_non_empty (first ∷ second ∷ []) == "") ≡ true) ↔ ((first ≡ "") × (second ≡ ""))
unfolding join_non_empty non_empty join
joined_iff first second = elim (Bool-cases (first == "")) [
  | inl t ↦ elim (Bool-cases (second == "")) [
    | inl u ↦ rw (t, u) (λ h. ((eq_iff first "").0 t, (eq_iff second "").0 u), λ h. refl)
    | inr u ↦
        rw (t, u) (λ h. cc, λ h. let no : (second == "") ≡ true = (eq_iff second "").1 h.1 in cc)
  ]
  | inr f ↦ elim (Bool-cases (second == "")) [
    | inl u ↦
        rw (f, u) (λ h. cc, λ h. let no : (first == "") ≡ true = (eq_iff first "").1 h.0 in cc)
    | inr u ↦
        rw (f, u)
          (
            λ h.
                let none_left = append-eq-nil_iff.0 ((eq_iff (first ++ (". " ++ second)) "").0 h) in
                let no : (first == "") ≡ true = (eq_iff first "").1 none_left.0 in cc,
            λ h. let no : (first == "") ≡ true = (eq_iff first "").1 h.0 in cc,
          )
  ]
]

-- Nothing that the spec asks for beyond the registration is left to do.
pub record IsComplete (exposure : ExternalAccess) (monitor_failure : String)
    (applied : SettingsOutcome) (claims : VolumeOutcome) : Type 0 where
  pub servable : exposure.failure ≡ ""
  pub monitored : monitor_failure ≡ ""
  pub exposed : exposure.pending ≡ []
  pub settled : is_done applied ≡ true
  pub grown : is_grown claims ≡ true

-- One test of the `switch`.
test_iff :
    (b : Bool) (reason message : String) (rest : Condition)
    → ((if not b then not_converged reason message else rest).status ≡ "True")
      ↔ ((b ≡ true) × (rest.status ≡ "True"))
unfolding not_converged condition
test_iff true reason message rest = (λ h. (refl, h), λ h. h.1)
test_iff false reason message rest = (λ h. ground (arith, eq_iff "False" "True"), λ h. cc)

-- Converged is True exactly if nothing that the spec asks for is left: the exposure and the monitoring can
-- be served, each exposed member has its address, no setting is pending, refused or unknown, and no
-- claim is growing, refused or given up on.
pub converged_iff :
    (t : Topology) (exposure : ExternalAccess) (monitor_failure : String)
    (applied : SettingsOutcome) (claims : VolumeOutcome)
    → ((converged_condition t exposure monitor_failure applied claims).status ≡ "True")
      ↔ IsComplete exposure monitor_failure applied claims
unfolding converged_condition is_done is_grown
converged_iff t exposure monitor_failure applied claims = (
  λ h.
      let (served, h1) =
        (test_iff (join_non_empty (exposure.failure ∷ monitor_failure ∷ []) == "") _ _ _).0 h in
      let (refused, h2) = (test_iff (is_empty claims.refused) _ _ _).0 h1 in
      let (failed, h3) = (test_iff (is_empty claims.failed) _ _ _).0 h2 in
      let (pending, h4) = (test_iff (is_empty exposure.pending) _ _ _).0 h3 in
      let (rejected, h5) = (test_iff (is_empty applied.rejected) _ _ _).0 h4 in
      let (unknown, h6) = (test_iff (applied.unknown == "") _ _ _).0 h5 in
      let (growing, h7) = (test_iff (is_empty claims.growing) _ _ _).0 h6 in
      let (owed, _) = (test_iff (is_empty applied.pending) _ _ _).0 h7 in
      let (servable, monitored) = (joined_iff exposure.failure monitor_failure).0 served in
      record {
        servable = servable;
        monitored = monitored;
        exposed = (is_empty_iff exposure.pending).0 pending;
        settled = rw (owed, rejected, unknown) refl;
        grown = rw (growing, refused, failed) refl;
      },
  λ c.
      let settled : (is_empty applied.pending
            && (is_empty applied.rejected && (applied.unknown == "")))
          ≡ true =
        c.settled in
      let grown : (is_empty claims.growing && (is_empty claims.refused && is_empty claims.failed))
          ≡ true =
        c.grown in
      (test_iff (join_non_empty (exposure.failure ∷ monitor_failure ∷ []) == "") _ _ _).1 (
        (joined_iff exposure.failure monitor_failure).1 (c.servable, c.monitored),
        (test_iff (is_empty claims.refused) _ _ _).1 (
          ground arith,
          (test_iff (is_empty claims.failed) _ _ _).1 (
            ground arith,
            (test_iff (is_empty exposure.pending) _ _ _).1 (
              (is_empty_iff exposure.pending).1 c.exposed,
              (test_iff (is_empty applied.rejected) _ _ _).1 (
                ground arith,
                (test_iff (applied.unknown == "") _ _ _).1 (
                  ground arith,
                  (test_iff (is_empty claims.growing) _ _ _).1 (
                    ground arith,
                    (test_iff (is_empty applied.pending) _ _ _).1
                        (ground arith, unfold condition in refl),
                  ),
                ),
              ),
            ),
          ),
        ),
      ),
)

-- The pass is left to the resync exactly if no key is unclassified, the roll is done, and no setting and
-- no claim is owed; and then Updated is True and no pod is deleted.
pub resync_iff :
    (keys : List String) (decision : Decision) (applied : SettingsOutcome) (claims : VolumeOutcome)
    → ((settled_ending keys decision applied claims).requeue ≡ on_resync)
      ↔ ((keys ≡ []) × (decision ≡ done) × (is_done applied ≡ true) × (is_grown claims ≡ true))
unfolding settled_ending roll_ending wait_for_flag_classes
resync_iff (k ∷ ks) decision applied claims = (λ h. cc, λ h. cc)
resync_iff [] (delete pod reason message) applied claims = (λ h. cc, λ h. cc)
resync_iff [] (wait reason message) applied claims = (λ h. cc, λ h. cc)
resync_iff [] done applied claims = (
  λ h. elim (Bool-cases (is_done applied)) [
    | inl t ↦ elim (Bool-cases (is_grown claims)) [
      | inl u ↦ (refl, refl, t, u)
      | inr u ↦ let no : while_pending ≡ on_resync = rw (t, u) at h in cc
    ]
    | inr t ↦ let no : while_pending ≡ on_resync = rw t at h in cc
  ],
  λ (_, _, t, u). rw (t, u) refl,
)
