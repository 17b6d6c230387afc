-- ===== src/Controller/Settling.antt =====
-- internal/controller/memgraphdbcluster_controller.go: the step of a pass that brings the ready pods'
-- run-time settings in line, `reconcileSettings`. Its loop is that of `reconcileAWSCredentials` and
-- `reconcileLicense` too, with another plan and another description of a SET: `sweep`. Log lines are
-- left out.
pub mod Swept
use kubernetes_operator.Prelude.{
  ℕ, String, Bool, true, false, Option, none, some, List, [], ◌∷◌, ◌++◌, ◌==◌, ◌&&◌, if◌then◌else◌,
  concat, join,
}
use kubernetes_operator.Prelude.Map.{Map, lookup, insert}
use kubernetes_operator.Prelude.Ranges.{Entries}
use kubernetes_operator.Planner.View.{is_empty}
use kubernetes_operator.Rollout.Roles.{Pod}
use kubernetes_operator.Settings.{Change, plan, diff, license_changes}
use kubernetes_operator.Topology.{Endpoint, Cluster, data_endpoints, coordinator_endpoints}
use kubernetes_operator.Controller.Conditions.{Condition, condition, truncate_message}
use kubernetes_operator.Controller.Events.{Event}
use kubernetes_operator.Controller.Applying.{
  Instances, Reads, Ending, landed, refused, unreachable, Application, run_time_setting,
  secret_setting, apply_settings,
}

-- `settingsOutcome`
pub record SettingsOutcome : Type 0 where
  pub pending : List String
  pub rejected : List String
  pub unknown : String

abbrev pub nothing_owed : SettingsOutcome
nothing_owed = record { pending = []; rejected = []; unknown = "" }

-- `done` of `settingsOutcome`
unfoldable pub is_done : SettingsOutcome → Bool
is_done o = is_empty o.pending && (is_empty o.rejected && (o.unknown == ""))

unfoldable pub merge : SettingsOutcome → SettingsOutcome → SettingsOutcome
merge o other = record o {
  pending = o.pending ++ other.pending;
  rejected = o.rejected ++ other.rejected;
}

-- `ready[pod.Name] = pod.Ready`, for each pod.
unfoldable pub index_ready : List Pod → Map Bool → Map Bool
unfolding insert
index_ready [] m = m
index_ready (p ∷ ps) m = index_ready ps (insert p.name p.ready m)

unfoldable pub is_ready : Map Bool → String → Bool
unfolding lookup
is_ready ready name = elim (lookup name ready) [ none ↦ false | some b ↦ b ]

-- What an application leaves to be reported.
unfoldable pub owed : String → Ending → SettingsOutcome
unfolding concat
owed name landed = nothing_owed
owed name (unreachable e) = record nothing_owed { pending = name ∷ [] }
owed name (refused command e) = record nothing_owed {
  rejected = concat (name ∷ " rejected " ∷ command ∷ ": " ∷ e ∷ []) ∷ [];
}

-- What a step leaves.
pub record Sweep (S : Type 0) : Type 0 where
  pub outcome : SettingsOutcome
  pub events : List Event
  pub reads : Reads
  pub state : S

module _ {S Connection : Type 0} (instances : Instances S Connection) (describe : Change → String)
    (action : String) (planned : Map String → List Change) where
  unfoldable pub swept : String → Application S → (Reads → S → Sweep S) → Sweep S
  unfolding owed merge
  swept name a next =
      let rest = next a.reads a.state in
      record rest {
        outcome = merge (owed name a.ending) rest.outcome;
        events = a.events ++ rest.events;
      }

  -- The loop over the endpoints, of which only those of ready pods are visited.
  unfoldable pub sweep : Map Bool → List Endpoint → Reads → S → Sweep S
  unfolding swept is_ready apply_settings
  sweep ready [] reads s = record { outcome = nothing_owed; events = []; reads = reads; state = s }
  sweep ready (e ∷ es) reads s =
      let rest = sweep ready es in
      if is_ready ready e.pod
      then swept e.pod (apply_settings instances describe action e planned reads s) rest
      else rest reads s

-- A role of the loops: its endpoints and its pods.
pub record Part : Type 0 where
  pub endpoints : List Endpoint
  pub pods : List Pod

-- A role's part of a pass: its endpoints are those of the count that is applied.
abbrev pub data_part : Cluster → ℕ → List Pod → Part
data_part cluster count pods = record { endpoints = data_endpoints cluster count; pods = pods }

abbrev pub coordinator_part : Cluster → ℕ → List Pod → Part
coordinator_part cluster count pods = record {
  endpoints = coordinator_endpoints cluster count;
  pods = pods;
}

-- Two parts, one after the other.
unfoldable pub both : {S : Type 0} → Sweep S → (Reads → S → Sweep S) → Sweep S
unfolding merge
both first next =
    let rest = next first.reads first.state in
    record rest { outcome = merge first.outcome rest.outcome; events = first.events ++ rest.events }

module _ {S Connection : Type 0} (instances : Instances S Connection)
    (quote : String → String) where
  -- `reconcileSettings`, with the flags of each role's file, and the orders in which maps are met.
  unfoldable pub reconcile_settings :
      (Map String → Entries String) → Part → Part → Map String → Map String → Reads → S → Sweep S
  unfolding both sweep index_ready run_time_setting plan
  reconcile_settings range data_part coordinator_part data_flags coordinator_flags reads s =
      both
        (sweep instances (run_time_setting quote) "SetRunTimeFlags" (plan range (range data_flags))
          (index_ready data_part.pods []) data_part.endpoints reads s)
        (sweep instances (run_time_setting quote) "SetRunTimeFlags"
          (plan range (range coordinator_flags)) (index_ready coordinator_part.pods [])
          coordinator_part.endpoints)
