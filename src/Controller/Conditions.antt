-- ===== src/Controller/Conditions.antt =====
-- internal/controller/memgraphdbcluster_controller.go: the Ready condition of a pass. The lookup
-- `apimeta.FindStatusCondition` is Kubernetes' and a parameter, `find`. A generation is never negative.
-- Go cuts a message at a byte, which may leave part of a character; here that part is dropped.
use Prim.Native.String.{◌++◌, len, slice}
use kubernetes_operator.Prelude.{
  ℕ, String, Bool, false, not, ◌&&◌, ◌||◌, Option, none, some, List, [], ◌∷◌, any, eqb, leb, ◌==◌,
  if◌then◌else◌, concat,
}

-- What is read of a `metav1.Condition`.
pub record Condition : Type 0 where
  pub condition_type : String
  pub status : String
  pub reason : String
  pub message : String
  pub observed_generation : ℕ

unfoldable pub condition : String → String → String → String → Condition
condition condition_type status reason message = record {
  condition_type = condition_type;
  status = status;
  reason = reason;
  message = message;
  observed_generation = 0;
}

-- `truncateMessage`
unfoldable pub truncate_message : String → String
truncate_message message = if leb (len message) 1024 then message else slice message 0 1021 ++ "..."

-- `servingReasons[reason]`
unfoldable pub is_serving_reason : String → Bool
is_serving_reason reason =
    any (λ s. s == reason)
      ("ApplyFailed" ∷ "WorkloadsNotReady" ∷ "CoordinatorUnreachable" ∷ "NoCoordinatorLeader"
        ∷ "NoMainElected" ∷ [])

-- `previous.Status != metav1.ConditionTrue && (servingReasons[…] || …)`
unfoldable pub keeps_previous : Condition → Bool
unfolding is_serving_reason
keeps_previous previous =
    not (previous.status == "True")
    && (is_serving_reason previous.reason || (previous.reason == "Reconciling"))

-- The loop over the three types, of a condition that was looked up.
unfoldable pub undecided : String → Condition
unfolding condition concat
undecided t =
    condition "Ready" "Unknown" "Reconciling"
      (concat (t ∷ " has not been decided for the current spec yet" ∷ []))

unfoldable pub not_true : String → Condition → Condition
unfolding condition truncate_message concat
not_true t c = condition "Ready" c.status c.reason (
    truncate_message
      (concat (t ∷ ": " ∷ (if c.message == "" then "not decided yet" else c.message) ∷ [])))

unfoldable pub judged : String → Option Condition → ℕ → Condition → Condition
unfolding undecided not_true
judged t none generation rest = undecided t
judged t (some c) generation rest =
    if not (eqb c.observed_generation generation)
    then undecided t
    else if not (c.status == "True")
    then not_true t c
    else rest

abbrev pub is_true : Option Condition → ℕ → Bool
is_true none generation = false
is_true (some c) generation = eqb c.observed_generation generation && (c.status == "True")

module _ (find : String → Option Condition) where
  unfoldable pub judge : List String → ℕ → String → Condition
  unfolding judged condition concat
  judge [] generation main =
      condition "Ready" "True" "Reconciled" (
        concat
          ("Data instance " ∷ main ∷ " is MAIN and the cluster runs the spec it declares" ∷ []))
  judge (t ∷ ts) generation main = judged t (find t) generation (judge ts generation main)

  unfoldable pub judge_all : ℕ → String → Condition
  unfolding judge
  judge_all generation main =
      judge ("LicenseApplied" ∷ "Converged" ∷ "Updated" ∷ []) generation main

  -- `serving == nil`
  unfoldable pub unobserved : Option Condition → ℕ → String → Condition
  unfolding judge_all keeps_previous
  unobserved none generation main = judge_all generation main
  unobserved (some previous) generation main =
      if keeps_previous previous then previous else judge_all generation main

  -- `readyCondition`
  unfoldable pub ready_condition : Option Condition → String → ℕ → Condition
  unfolding unobserved judge_all condition
  ready_condition none main generation = unobserved (find "Ready") generation main
  ready_condition (some serving) main generation =
      if not (serving.status == "True")
      then condition "Ready" serving.status serving.reason serving.message
      else judge_all generation main
