-- ===== src/Controller/CoordinatorSettings.antt =====
-- internal/controller/memgraphdbcluster_controller.go, `reconcileCoordinatorSettings`: the cluster-wide
-- settings, written over the leader's connection, which is a parameter. A map is ranged over in the
-- order of `range`; `quote` is Go's `%q`. Log lines are left out.
use kubernetes_operator.Prelude.{
  String, not, none, some, List, [], ◌∷◌, ◌++◌, if◌then◌else◌, concat, join,
}
use kubernetes_operator.Prelude.Map.{Map, insert}
use kubernetes_operator.Prelude.Ranges.{Entries}
use kubernetes_operator.Planner.View.{is_empty}
use kubernetes_operator.Planner.Commands.{Outcome}
use kubernetes_operator.Settings.{Change, setting_value, diff}
use kubernetes_operator.Topology.{Cluster}
use kubernetes_operator.Controller.Events.{Event, event, warning, coordinator_pod}
use kubernetes_operator.Controller.Settling.{SettingsOutcome, nothing_owed}
use kubernetes_operator.Controller.FlagClasses.{FlagClasses}

-- What `reconcileCoordinatorSettings` leaves.
pub record CoordinatorSettings (S : Type 0) : Type 0 where
  pub outcome : SettingsOutcome
  pub events : List Event
  pub state : S

-- `desired[key] = flags[key]`, for each key that is a coordinator setting.
unfoldable pub desired_coordinator_settings : List String → Map String → Map String → Map String
unfolding setting_value insert
desired_coordinator_settings [] flags desired = desired
desired_coordinator_settings (k ∷ ks) flags desired =
    desired_coordinator_settings ks flags (insert k (setting_value flags k) desired)

unfoldable pub coordinator_setting : (String → String) → Change → String
unfolding concat
coordinator_setting quote c =
    concat ("SET COORDINATOR SETTING " ∷ quote c.setting ∷ " TO " ∷ quote c.value ∷ [])

module _ {S : Type 0} (quote : String → String) (set : String → String → S → Outcome S)
    (cluster : Cluster) (leader_name : String) where
  -- `recordRan`
  unfoldable pub ran_event : List String → List Event
  unfolding event coordinator_pod concat join
  ran_event [] = []
  ran_event (r ∷ ran) =
      event (coordinator_pod cluster leader_name) "CoordinatorSettingApplied"
        "SetCoordinatorSetting" (concat ("Ran " ∷ join ", " (r ∷ ran) ∷ []))
      ∷ []

  unfoldable pub rejection : Change → String → String
  unfolding coordinator_setting concat
  rejection c e =
      concat ("the coordinators rejected " ∷ coordinator_setting quote c ∷ ": " ∷ e ∷ [])

  unfoldable pub set_answered :
      Change
      → List String
      → Outcome S
      → (List String → S → CoordinatorSettings S)
      → CoordinatorSettings S
  unfolding ran_event rejection warning coordinator_pod coordinator_setting
  set_answered c ran (none, s) next = next (ran ++ (coordinator_setting quote c ∷ [])) s
  set_answered c ran (some e, s) next = record {
    outcome = record nothing_owed { rejected = rejection c e ∷ [] };
    events =
        ran_event ran
        ++ (warning (coordinator_pod cluster leader_name) "SettingRejected" "SetCoordinatorSetting"
              (rejection c e)
            ∷ []);
    state = s;
  }

  -- The loop over the changes; `ran` are those that were accepted.
  unfoldable pub set_each : List Change → List String → S → CoordinatorSettings S
  unfolding set_answered ran_event
  set_each [] ran s = record { outcome = nothing_owed; events = ran_event ran; state = s }
  set_each (c ∷ cs) ran s = set_answered c ran (set c.setting c.value s) (set_each cs)

  unfoldable pub write_desired :
      (Map String → Entries String) → Map String → Map String → S → CoordinatorSettings S
  unfolding set_each diff
  write_desired range [] observed s = record { outcome = nothing_owed; events = []; state = s }
  write_desired range (d ∷ desired) observed s = set_each (diff (range (d ∷ desired)) observed) [] s

  -- `reconcileCoordinatorSettings`, of `CoordinatorFlags` and of the flags that the spec gives the
  -- coordinators.
  unfoldable pub reconcile_coordinator_settings :
      (Map String → Entries String)
      → Map String
      → Map String
      → FlagClasses
      → S
      → CoordinatorSettings S
  unfolding write_desired desired_coordinator_settings is_empty
  reconcile_coordinator_settings range flags spec classes s =
      if not classes.coordinator_settings_known
      then record {
        outcome = if is_empty spec then nothing_owed else record nothing_owed {
          pending = "the Raft leader, which did not report the coordinator settings" ∷ [];
        };
        events = [];
        state = s;
      }
      else write_desired range
          (desired_coordinator_settings classes.coordinators.coordinator_settings flags [])
          classes.coordinator_settings s
