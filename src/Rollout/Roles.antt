-- ===== src/Rollout/Roles.antt =====
-- internal/rollout/rollout.go: pods and roles, the decision, and the tests on one role.
use kubernetes_operator.Prelude.{
  ℕ, String, Bool, not, ◌&&◌, ◌||◌, Option, none, some, List, [], ◌∷◌, length, filter, ltb, eqb,
  ◌==◌, if◌then◌else◌, concat,
}

pub record Pod : Type 0 where
  pub name : String
  pub uid : String
  pub instance_name : String
  pub ordinal : ℕ
  pub revision_hash : String
  pub current : Bool
  pub ready : Bool

pub record Role : Type 0 where
  pub replicas : ℕ
  pub update_revision : String
  pub stale : Bool
  pub pods : List Pod

-- The three values of `Action`, each with the fields of `Decision` that it sets: the pod of a
-- `Delete`, and the reason and message of both.
pub data Decision : Type 0 where
  done : Decision
  wait : String → String → Decision
  delete : Pod → String → String → Decision

-- The condition reasons of api/v1alpha1.
abbrev pub workloads_not_ready : String
workloads_not_ready = "WorkloadsNotReady"

abbrev pub no_main_elected : String
no_main_elected = "NoMainElected"

abbrev pub waiting_for_catch_up : String
waiting_for_catch_up = "WaitingForCatchUp"

abbrev pub no_caught_up_survivor : String
no_caught_up_survivor = "NoCaughtUpSurvivor"

abbrev pub no_coordinator_leader : String
no_coordinator_leader = "NoCoordinatorLeader"

abbrev pub rolling_restart_in_progress : String
rolling_restart_in_progress = "RollingRestartInProgress"

abbrev pub waiting : String → String → Decision
waiting reason message = wait reason message

abbrev pub restarting : Pod → String → Decision
restarting pod message = delete pod rolling_restart_in_progress message

-- `if wait, ok := …; !ok { return wait }`, and what follows.
abbrev pub or_go : Option Decision → Decision → Decision
or_go none rest = rest
or_go (some d) rest = d

-- `if next, ok := highestOrdinalExcept(…); ok { … }`, and what follows.
abbrev pub if_found : Option Pod → (Pod → Decision) → Decision → Decision
if_found none found rest = rest
if_found (some p) found rest = found p

-- The tests of the loops of `outdated` and `updated`.
unfoldable pub is_outdated : Role → Pod → Bool
is_outdated r p =
    not (p.revision_hash == "") && (not (p.revision_hash == r.update_revision) && not p.current)

unfoldable pub is_updated : Role → Pod → Bool
is_updated r p = p.revision_hash == r.update_revision || p.current

unfoldable pub outdated : Role → List Pod
unfolding is_outdated
outdated r = if r.update_revision == "" then [] else filter (is_outdated r) r.pods

unfoldable pub updated : Role → List Pod
unfolding is_updated
updated r = if r.update_revision == "" then [] else filter (is_updated r) r.pods

-- `InProgress`
unfoldable pub in_progress : Role → Bool
unfolding outdated
in_progress r = ltb 0 (length (outdated r))

unfoldable pub first_unready : List Pod → Option Decision
unfolding concat
first_unready [] = none
first_unready (p ∷ ps) =
    if not p.ready
    then some (
        waiting workloads_not_ready
          (concat ("Waiting for pod " ∷ p.name ∷ " to become ready" ∷ [])))
    else first_unready ps

-- `present`: nothing, or what is waited for.
unfoldable pub present : Role → Option Decision
unfolding first_unready
present r =
    if not (eqb (length r.pods) r.replicas)
    then some (waiting workloads_not_ready "Waiting for the pod restarted last to be recreated")
    else first_unready r.pods

-- The variables `next` and `found` of the loop of `highestOrdinalExcept`.
unfoldable pub better : Pod → Option Pod → Option Pod
better p none = some p
better p (some q) = if ltb q.ordinal p.ordinal then some p else some q

unfoldable pub highest_from : List Pod → String → Option Pod → Option Pod
highest_from [] instance best = best
highest_from (p ∷ ps) instance best =
    highest_from ps instance (if p.instance_name == instance then best else better p best)

unfoldable pub highest_ordinal_except : List Pod → String → Option Pod
unfolding highest_from better
highest_ordinal_except pending instance = highest_from pending instance none
