-- ===== src/Controller/Status.antt =====
-- internal/controller/memgraphdbcluster_controller.go: the status that a pass leaves on the resource,
-- `setStatus` and `summarizeReady`. The list of conditions and its three functions are Kubernetes'
-- `apimeta`, and a parameter.
pub mod Found
use kubernetes_operator.Prelude.{
  ℕ, String, ◌≡◌, Bool, false, Option, none, some, List, [], ◌∷◌, ◌==◌, if◌then◌else◌, concat,
}
use kubernetes_operator.Memgraph.{Instance}
use kubernetes_operator.Planner.View.{Topology}
use kubernetes_operator.Planner.{registered_counts}
use kubernetes_operator.Controller.Conditions.{Condition, condition, ready_condition}
use kubernetes_operator.Controller.Exposure.{ExternalAccess, ExternalAccessStatus}
use kubernetes_operator.Controller.Registration.{observed_main}

-- `FindStatusCondition`, `SetStatusCondition` and `RemoveStatusCondition`
pub record Conditions (C : Type 0) : Type 0 where
  pub find : C → String → Option Condition
  pub set : Condition → C → C
  pub remove : String → C → C

-- What is relied on: a condition that is set is found, and the other types are left as they are.
pub record AreConditions {C : Type 0} (conditions : Conditions C) : Type 0 where
  pub find-set :
      (c : Condition) (cs : C) → conditions.find (conditions.set c cs) c.condition_type ≡ some c
  pub find-set_other :
      (c : Condition) (cs : C) (t : String)
      → (c.condition_type == t) ≡ false
      → conditions.find (conditions.set c cs) t ≡ conditions.find cs t
  pub find-remove_other :
      (gone : String) (cs : C) (t : String)
      → (gone == t) ≡ false
      → conditions.find (conditions.remove gone cs) t ≡ conditions.find cs t

-- `observation`
pub record Observation : Type 0 where
  pub main : String
  pub registered_coordinators : ℕ
  pub registered_data_instances : ℕ
  pub external_access : Option ExternalAccessStatus

-- `MemgraphDBClusterStatus`
pub record Status (C : Type 0) : Type 0 where
  pub main : String
  pub coordinators : ℕ
  pub data_instances : ℕ
  pub external_access : Option ExternalAccessStatus
  pub conditions : C

-- `observe`
unfoldable pub observe_view : Topology → List Instance → Observation
unfolding registered_counts observed_main
observe_view t observed =
    let counts = registered_counts t observed in
    record {
      main = observed_main observed;
      registered_coordinators = counts.0;
      registered_data_instances = counts.1;
      external_access = none;
    }

-- `exposedAt`
unfoldable pub exposed_at : Observation → ExternalAccess → Observation
exposed_at o exposure = record o { external_access = exposure.status }

-- `lastObserved`
unfoldable pub last_observed : {C : Type 0} → Status C → Observation
last_observed status = record {
  main = status.main;
  registered_coordinators = status.coordinators;
  registered_data_instances = status.data_instances;
  external_access = status.external_access;
}

-- `notServingCondition`
unfoldable pub not_serving : String → String → Condition
unfolding condition
not_serving reason message = condition "Serving" "False" reason message

-- `servingOrNot`
unfoldable pub serving_or_not : String → Condition
unfolding not_serving condition concat
serving_or_not main =
    if main == ""
    then not_serving "NoMainElected" "No data instance has been promoted to MAIN yet"
    else condition "Serving" "True" "MainElected"
        (concat ("Data instance " ∷ main ∷ " is MAIN" ∷ []))

module _ {C : Type 0} (conditions : Conditions C) where
  -- The loop of `setStatus` over the conditions of a pass.
  unfoldable pub set_conditions : ℕ → List Condition → C → C
  set_conditions generation [] cs = cs
  set_conditions generation (c ∷ rest) cs =
      set_conditions generation rest
        (conditions.set (record c { observed_generation = generation }) cs)

  -- `setStatus`
  unfoldable pub set_status : ℕ → Observation → List Condition → Status C → Status C
  unfolding set_conditions
  set_status generation o new status = record {
    main = o.main;
    coordinators = o.registered_coordinators;
    data_instances = o.registered_data_instances;
    external_access = o.external_access;
    conditions = set_conditions generation new status.conditions;
  }

  unfoldable pub without_verdict : Option Condition → C → C
  without_verdict none cs = cs
  without_verdict (some serving) cs = conditions.remove "Serving" cs

  -- `summarizeReady`
  unfoldable pub summarize_ready : ℕ → Status C → Status C
  unfolding without_verdict ready_condition
  summarize_ready generation status =
      let serving = conditions.find status.conditions "Serving" in
      let rest = without_verdict serving status.conditions in
      let ready = ready_condition (conditions.find rest) serving status.main generation in
      record status {
        conditions = conditions.set (record ready { observed_generation = generation }) rest;
      }
