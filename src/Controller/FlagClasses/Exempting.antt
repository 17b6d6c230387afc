-- ===== src/Controller/FlagClasses/Exempting.antt =====
-- internal/controller/memgraphdbcluster_controller.go: the pods that a changed template leaves with
-- nothing to restart for. `range` is the order in which a loop meets the flags of a map.
use kubernetes_operator.Controller.FlagClasses.{RolloutRoles, on_template, FlagClasses}
use kubernetes_operator.Prelude.{String, not, ◌||◌, List, [], ◌∷◌, ◌++◌, ◌==◌, if◌then◌else◌}
use kubernetes_operator.Prelude.Map.{Map}
use kubernetes_operator.Prelude.Ranges.{Entries}
use kubernetes_operator.Prelude.Sorted.{sort_by}
use kubernetes_operator.Planner.View.{is_empty}
use kubernetes_operator.Rollout.Roles.{Pod, Role}
use kubernetes_operator.Settings.{classify, setting_value}
use kubernetes_operator.Flags.{changed_flags}

-- A pod as `exemptCurrentPods` leaves it, and the keys that it could not classify.
abbrev pub Exemption : Type 0
Exemption = Pod × List String

module _ (range : Map String → Entries String) (roles : RolloutRoles) (classes : FlagClasses) where
  unfoldable pub exempt_changed : Pod → List String → Exemption
  unfolding classify
  exempt_changed p [] = (p, [])
  exempt_changed p (k ∷ ks) =
      if not classes.config_known || not classes.coordinator_settings_known then (p, k ∷ ks) else (
        record p {
          current = is_empty (classify (k ∷ ks) classes.config classes.coordinator_settings).flags;
        },
        [],
      )

  unfoldable pub exempt_pod : String → String → String → Pod → Exemption
  unfolding exempt_changed on_template changed_flags setting_value
  exempt_pod flags template revision p =
      if p.revision_hash == "" || (p.revision_hash == revision)
      then (p, [])
      else if not (on_template roles.pod_templates p.name template)
      then (p, [])
      else exempt_changed p (changed_flags range (setting_value roles.pod_flags p.name) flags)

  unfoldable pub exempt_pods : String → String → String → List Pod → List Pod × List String
  unfolding exempt_pod
  exempt_pods flags template revision [] = ([], [])
  exempt_pods flags template revision (p ∷ ps) =
      let first = exempt_pod flags template revision p in
      let rest = exempt_pods flags template revision ps in (first.0 ∷ rest.0, first.1 ++ rest.1)

  unfoldable pub exempt_role : String → String → Role → Role × List String
  unfolding exempt_pods
  exempt_role flags template r =
      let done = exempt_pods flags template r.update_revision r.pods in
      (record r { pods = done.0 }, done.1)

-- `slices.Compact`: of equal neighbours the first stays.
unfoldable pub compact_after : String → List String → List String
compact_after k [] = []
compact_after k (j ∷ js) = let rest = compact_after j js in if k == j then rest else j ∷ rest

unfoldable pub compact : List String → List String
unfolding compact_after
compact [] = []
compact (k ∷ ks) = k ∷ compact_after k ks

-- `exemptCurrentPods`: the roles as it leaves them, and the keys to wait for, if any.
unfoldable pub exempt_current_pods :
    (Map String → Entries String) → RolloutRoles → FlagClasses → RolloutRoles × List String
unfolding exempt_role compact sort_by
exempt_current_pods range roles classes =
    let data_part =
      exempt_role range roles classes roles.data_flags roles.data_template roles.data_role in
    let coordinator_part =
      exempt_role range roles classes roles.coordinator_flags roles.coordinator_template
        roles.coordinators in
    (
      record roles { data_role = data_part.0; coordinators = coordinator_part.0 },
      compact (sort_by (λ s. s) (data_part.1 ++ coordinator_part.1)),
    )
