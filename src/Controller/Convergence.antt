-- ===== src/Controller/Convergence.antt =====
-- internal/controller/memgraphdbcluster_controller.go: the Converged condition of a cluster whose members
-- are all registered, and how a pass over such a cluster ends. A length in bytes is one in characters
-- here. `monitor_failure` is what `serviceMonitorFailure` answers. Log lines are left out.
pub mod Complete
use Prim.Native.String.{len, slice, ◌++◌}
use kubernetes_operator.Prelude.{
  ℕ, ◌+◌, ◌-◌, String, Bool, true, false, not, ◌&&◌, ◌||◌, Option, none, some, List, [], ◌∷◌,
  length, ltb, ◌==◌, if◌then◌else◌, concat, join,
}
use kubernetes_operator.Prelude.Decimal.{decimal}
use kubernetes_operator.Planner.View.{Topology, is_empty}
use kubernetes_operator.Rollout.Roles.{Pod, Decision, done, wait, delete}
use kubernetes_operator.Controller.Conditions.{Condition, condition, truncate_message}
use kubernetes_operator.Controller.Settling.{SettingsOutcome, is_done}
use kubernetes_operator.Controller.Exposure.{ExternalAccess}

-- `volumeOutcome`
pub record VolumeOutcome : Type 0 where
  pub growing : List String
  pub errors : List String
  pub refused : List String
  pub failed : List String

abbrev pub nothing_grown : VolumeOutcome
nothing_grown = record { growing = []; errors = []; refused = []; failed = [] }

-- `done` of `volumeOutcome`
unfoldable pub is_grown : VolumeOutcome → Bool
unfolding is_empty
is_grown o = is_empty o.growing && (is_empty o.refused && is_empty o.failed)

unfoldable pub driver_report : String → String → String
driver_report message report =
    if ltb 1024 (len message + len report)
    then message ++ ("..." ++ slice report (len report - (1024 - len message - 3)) (len report))
    else message ++ report

unfoldable pub growing_text : String → List String → String
unfolding driver_report concat
growing_text waiting [] =
    concat
      (waiting ∷ ". This takes about a minute on a storage driver that grows volumes in use" ∷ [])
growing_text waiting (e ∷ es) =
    driver_report (concat (waiting ∷ ". The storage driver reports " ∷ [])) e

-- `growingMessage`
unfoldable pub growing_message : VolumeOutcome → String
unfolding growing_text concat join
growing_message o =
    growing_text
      (concat ("Waiting for " ∷ join ", " o.growing ∷ " to reach the declared size" ∷ [])) o.errors

unfoldable pub non_empty : List String → List String
non_empty [] = []
non_empty (m ∷ ms) = let rest = non_empty ms in if not (m == "") then m ∷ rest else rest

-- `joinNonEmpty`
unfoldable pub join_non_empty : List String → String
unfolding non_empty join
join_non_empty messages = join ". " (non_empty messages)

-- `notConvergedCondition`
unfoldable pub not_converged : String → String → Condition
unfolding condition
not_converged reason message = condition "Converged" "False" reason message

-- `convergedCondition`
unfoldable pub converged_condition :
    Topology → ExternalAccess → String → SettingsOutcome → VolumeOutcome → Condition
unfolding not_converged condition truncate_message join_non_empty growing_message concat join
    decimal is_empty
converged_condition t exposure monitor_failure applied claims =
    let unservable = join_non_empty (exposure.failure ∷ monitor_failure ∷ []) in
    if not (unservable == "")
    then not_converged "ApplyFailed" unservable
    else if not (is_empty claims.refused)
    then not_converged "VolumeExpansionRefused" (truncate_message (join "; " claims.refused))
    else if not (is_empty claims.failed)
    then not_converged "VolumeExpansionFailed" (truncate_message (join "; " claims.failed))
    else if not (is_empty exposure.pending)
    then not_converged "ExternalAddressPending"
        (concat ("Waiting for an external address on " ∷ join ", " exposure.pending ∷ []))
    else if not (is_empty applied.rejected)
    then not_converged "SettingsRejected" (truncate_message (join "; " applied.rejected))
    else if not (applied.unknown == "")
    then not_converged "UnknownFlags" (truncate_message applied.unknown)
    else if not (is_empty claims.growing)
    then not_converged "VolumeExpansionInProgress" (truncate_message (growing_message claims))
    else if not (is_empty applied.pending)
    then not_converged "SettingsPending"
        (concat ("Waiting to apply run-time settings on " ∷ join ", " applied.pending ∷ []))
    else condition "Converged" "True" "AllInstancesRegistered" (
        concat (
          "All "
          ∷ decimal (length t.coordinators + length t.data_instances)
          ∷ " declared instances are registered"
          ∷ []))

-- When the pass is made again.
pub data Requeue : Type 0 where
  while_pending : Requeue
  after_registration : Requeue
  on_resync : Requeue

-- How a pass ends over a cluster with all members registered: its Updated condition, the pod that it
-- deletes, and when it is made again. Converged is the condition above.
pub record Ending : Type 0 where
  pub updated : Condition
  pub deleted : Option Pod
  pub requeue : Requeue

-- `notUpdatedCondition`
unfoldable pub not_updated : String → String → Condition
unfolding condition
not_updated reason message = condition "Updated" "False" reason message

-- `waitForFlagClasses`
unfoldable pub wait_for_flag_classes : List String → Ending
unfolding not_updated concat join
wait_for_flag_classes keys = record {
  updated = not_updated "FlagsUnclassified" (
      concat (
        "Waiting for a coordinator leader to say whether "
        ∷ join ", " keys
        ∷ " are startup flags before restarting any pod for them"
        ∷ []));
  deleted = none;
  requeue = while_pending;
}

-- The `switch` on the decision, and what follows.
unfoldable pub roll_ending : Decision → SettingsOutcome → VolumeOutcome → Ending
unfolding not_updated condition is_done is_grown
roll_ending (delete pod reason message) applied claims = record {
  updated = not_updated reason message;
  deleted = some pod;
  requeue = while_pending;
}
roll_ending (wait reason message) applied claims = record {
  updated = not_updated reason message;
  deleted = none;
  requeue = while_pending;
}
roll_ending done applied claims = record {
  updated =
      condition "Updated" "True" "AllPodsUpdated"
        "All workload pods run the pod template the spec describes";
  deleted = none;
  requeue = if not (is_done applied) || not (is_grown claims) then while_pending else on_resync;
}

-- The end of such a pass, of the keys that `exemptCurrentPods` could not classify.
unfoldable pub settled_ending : List String → Decision → SettingsOutcome → VolumeOutcome → Ending
unfolding wait_for_flag_classes roll_ending
settled_ending [] decision applied claims = roll_ending decision applied claims
settled_ending (k ∷ ks) decision applied claims = wait_for_flag_classes (k ∷ ks)
