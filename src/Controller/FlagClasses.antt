-- ===== src/Controller/FlagClasses.antt =====
-- internal/controller/memgraphdbcluster_controller.go: what the running Memgraph says of the keys of
-- spec.flags, and the three decisions that this feeds: which coordinator settings are written, which
-- keys are reported, and which pods a changed template leaves with nothing to restart for. The queries
-- over the leader connection are parameters. A map that is nil and one that is empty are one. Log lines
-- are left out.
pub mod Exempting
pub mod Justified
pub mod Opened
use kubernetes_operator.Prelude.{
  String, Bool, true, false, not, ◌&&◌, ◌||◌, ◌⊎◌, inl, inr, Option, none, some, List, [], ◌∷◌,
  ◌++◌, map, ◌==◌, if◌then◌else◌, concat, join,
}
use kubernetes_operator.Prelude.Map.{Map, lookup, insert}
use kubernetes_operator.Prelude.Ranges.{Entries}
use kubernetes_operator.Prelude.Sorted.{sort_by}
use kubernetes_operator.Planner.View.{is_empty}
use kubernetes_operator.Rollout.Roles.{Pod, Role}
use kubernetes_operator.Settings.{Change, Classification, classify, is_runtime, setting_value, diff}
use kubernetes_operator.Flags.{changed_flags}
use kubernetes_operator.Topology.{Endpoint}
use kubernetes_operator.Controller.Events.{Event, event, warning, coordinator_pod}
use kubernetes_operator.Controller.Applying.{Instances, Read, read_instance}
use kubernetes_operator.Controller.Settling.{SettingsOutcome, nothing_owed}

-- `rolloutRoles`
pub record RolloutRoles : Type 0 where
  pub data_role : Role
  pub coordinators : Role
  pub data_flags : String
  pub coordinator_flags : String
  pub pod_flags : Map String
  pub data_template : String
  pub coordinator_template : String
  pub pod_templates : Map String

-- `onTemplate`
unfoldable pub on_template : Map String → String → String → Bool
unfolding setting_value
on_template pod_templates pod template =
    let hash = setting_value pod_templates pod in not (hash == "") && (hash == template)

-- `flagClasses`
pub record FlagClasses : Type 0 where
  pub config : Map String
  pub config_known : Bool
  pub coordinator_settings : Map String
  pub coordinator_settings_known : Bool
  pub coordinator_settings_err : String
  pub coordinators : Classification
  pub data_flags : Classification

abbrev pub nothing_classified : Classification
nothing_classified = record { flags = []; coordinator_settings = []; unknown = [] }

-- `startupKeys`
unfoldable pub startup_keys : Entries String → List String
unfolding is_runtime
startup_keys [] = []
startup_keys ((key, value) ∷ flags) =
    let rest = startup_keys flags in if not (is_runtime key) then key ∷ rest else rest

-- The two switches over what the views answered.
unfoldable pub known_config : Read → FlagClasses
known_config (inr (e ∷ config)) = record {
  config = e ∷ config;
  config_known = true;
  coordinator_settings = [];
  coordinator_settings_known = false;
  coordinator_settings_err = "";
  coordinators = nothing_classified;
  data_flags = nothing_classified;
}
known_config other = record {
  config = [];
  config_known = false;
  coordinator_settings = [];
  coordinator_settings_known = false;
  coordinator_settings_err = "";
  coordinators = nothing_classified;
  data_flags = nothing_classified;
}

unfoldable pub known_settings : Read → FlagClasses → FlagClasses
known_settings (inl e) classes = record classes { coordinator_settings_err = e }
known_settings (inr []) classes = record classes {
  coordinator_settings_err = "no ready leader reported them";
}
known_settings (inr (e ∷ settings)) classes = record classes {
  coordinator_settings = e ∷ settings;
  coordinator_settings_known = true;
}

-- The end of `classifyFlags`, with the flags of the spec of each role.
unfoldable pub classified : Entries String → Entries String → FlagClasses → FlagClasses
unfolding classify startup_keys
classified coordinators_spec data_spec classes =
    if not classes.config_known then classes else record classes {
      coordinators =
          classify (startup_keys coordinators_spec) classes.config classes.coordinator_settings;
      data_flags = classify (startup_keys data_spec) classes.config classes.coordinator_settings;
    }

module _ {S Connection : Type 0} (instances : Instances S Connection)
    (leader_config leader_settings : S → Read × S) where
  unfoldable pub config_answer : Read × S → (S → Option (Map String) × S) → Option (Map String) × S
  config_answer (inl e, s) next = next s
  config_answer (inr [], s) next = next s
  config_answer (inr (e ∷ config), s) next = (some (e ∷ config), s)

  unfoldable pub config_of_pod : String → List Endpoint → S → Option (Map String) × S
  unfolding config_answer read_instance
  config_of_pod name [] s = (none, s)
  config_of_pod name (e ∷ es) s =
      let later = config_of_pod name es in
      if e.pod == name
      then config_answer (read_instance instances instances.show_config e s) later
      else later s

  unfoldable pub or_else :
      Option (Map String) × S → (S → Option (Map String) × S) → Option (Map String) × S
  or_else (none, s) next = next s
  or_else (some config, s) next = (some config, s)

  unfoldable pub config_of_pods :
      Map String → String → List Endpoint → List Pod → S → Option (Map String) × S
  unfolding or_else config_of_pod on_template
  config_of_pods pod_templates template endpoints [] s = (none, s)
  config_of_pods pod_templates template endpoints (p ∷ ps) s =
      let later = config_of_pods pod_templates template endpoints ps in
      if not p.ready || not (on_template pod_templates p.name template)
      then later s
      else or_else (config_of_pod p.name endpoints s) later

  unfoldable pub or_leader : Option (Map String) × S → Read × S
  or_leader (some config, s) = (inr config, s)
  or_leader (none, s) = leader_config s

  -- `showConfig`
  unfoldable pub show_config : RolloutRoles → List Endpoint → List Endpoint → S → Read × S
  unfolding or_leader or_else config_of_pods
  show_config roles data_endpoints coordinator_endpoints s = or_leader (
      or_else
        (config_of_pods roles.pod_templates roles.data_template data_endpoints roles.data_role.pods
          s)
        (config_of_pods roles.pod_templates roles.coordinator_template coordinator_endpoints
          roles.coordinators.pods))

  -- `classifyFlags`
  unfoldable pub classify_flags :
      RolloutRoles
      → List Endpoint
      → List Endpoint
      → Entries String
      → Entries String
      → S
      → FlagClasses × S
  unfolding show_config known_config known_settings classified
  classify_flags roles data_endpoints coordinator_endpoints coordinators_spec data_spec s =
      let config = show_config roles data_endpoints coordinator_endpoints s in
      let settings = leader_settings config.1 in
      (
        classified coordinators_spec data_spec (known_settings settings.0 (known_config config.0)),
        settings.1,
      )

-- The parts of `unknownMessage`, of each role's keys.
unfoldable pub unknown_part : String → List String → List String
unfolding concat join
unknown_part role [] = []
unknown_part role (k ∷ ks) = concat (role ∷ ": " ∷ join ", " (k ∷ ks) ∷ []) ∷ []

unfoldable pub unknown_text : List String → List String → String
unfolding concat join
unknown_text misplaced [] = ""
unknown_text misplaced (p ∷ ps) = concat (
    "spec.flags names flags this Memgraph does not have ("
    ∷ join "; " (p ∷ ps)
    ∷ "); nothing is restarted or applied for them until they are removed or corrected"
    ∷ (if is_empty misplaced
        then ""
        else "; a coordinator setting belongs under flags.coordinators")
    ∷ [])

-- `unknownMessage`
unfoldable pub unknown_message : FlagClasses → String
unfolding unknown_text unknown_part sort_by
unknown_message c =
    if not c.config_known || not c.coordinator_settings_known
    then ""
    else unknown_text c.data_flags.coordinator_settings (
        unknown_part "coordinators" c.coordinators.unknown
        ++ unknown_part "data"
            (sort_by (λ s. s) (c.data_flags.unknown ++ c.data_flags.coordinator_settings)))
