-- ===== src/Scenarios/Exempting.antt =====
-- A roll after the flags were classified: a data pod's template differs in more than the flags.
use kubernetes_operator.Prelude.{
  ℕ, String, ◌≡◌, ◌≢◌, ◌↔◌, ◌⊎◌, refl, subst, inl, inr, true, false, none, some, List, [], ◌∷◌, In,
  concat, ◌==◌, eq_iff, Bool-cases, if◌then◌else◌,
}
use kubernetes_operator.Prelude.Map.{Map, lookup, insert, remove, index_into}
use kubernetes_operator.Prelude.Ranges.{each_once, each_once-IsRange}
use kubernetes_operator.Prelude.Sorted.{sort_by}
use kubernetes_operator.Prelude.Pieces.{is_without}
use kubernetes_operator.Memgraph.{
  Instance, ReplicationLag, equal_fold, is_main, is_up, is_leader, is_caught_up,
  databases_caught_up, behind,
}
use kubernetes_operator.Planner.View.{index, index_lag, lag_caught_up, registered_up}
use kubernetes_operator.Rollout.Roles.{
  Pod, Role, is_outdated, is_updated, outdated, updated, first_unready, present, better,
  highest_from, highest_ordinal_except,
}
use kubernetes_operator.Rollout.{
  Range, first_with, main_instance, leader_instance, replicating, survivor_loop, restart_main,
  restart_replica, next_data_instance, coordinators_back, restart_coordinator, next_coordinator,
  coordinators_turn, data_turn, next,
}
use kubernetes_operator.Rollout.Restarts.DataRole.{Deletes}
use kubernetes_operator.Settings.{is_runtime, setting_value}
use kubernetes_operator.Flags.{flags_digests, changed_flags}
use kubernetes_operator.Flags.Digests.{IsKey, digested}
use kubernetes_operator.Flags.Changed.{changed_flags_iff}
use kubernetes_operator.Controller.FlagClasses.{
  RolloutRoles, FlagClasses, nothing_classified, on_template,
}
use kubernetes_operator.Controller.FlagClasses.Exempting.{
  exempt_changed, exempt_pod, exempt_pods, exempt_role, compact, exempt_current_pods,
}
use kubernetes_operator.Controller.FlagClasses.Justified.{Reason, restart_justified}
use kubernetes_operator.Scenarios.Cluster.{row, lag_of}

abbrev in_order : Range
in_order m = m

abbrev pod : String → String → ℕ → String → Pod
pod name instance_name ordinal revision_hash = record {
  name = name;
  uid = name;
  instance_name = instance_name;
  ordinal = ordinal;
  revision_hash = revision_hash;
  current = false;
  ready = true;
}

abbrev old_main : Pod
old_main = pod "demo-data-0" "instance_0" 0 "old"

abbrev role_of : ℕ → List Pod → Role
role_of replicas pods = record {
  replicas = replicas;
  update_revision = "new";
  stale = false;
  pods = pods;
}

abbrev roles : RolloutRoles
roles = record {
  data_role = role_of 1 (old_main ∷ []);
  coordinators = role_of 1 (pod "demo-coordinator-0" "coordinator_0" 0 "new" ∷ []);
  data_flags = "";
  coordinator_flags = "";
  pod_flags = [];
  data_template = "t2";
  coordinator_template = "t2";
  pod_templates = ("demo-data-0", "t1") ∷ [];
}

abbrev classes : FlagClasses
classes = record {
  config = [];
  config_known = false;
  coordinator_settings = [];
  coordinator_settings_known = false;
  coordinator_settings_err = "";
  coordinators = nothing_classified;
  data_flags = nothing_classified;
}

abbrev rows : List Instance
rows = row "coordinator_0" "c0" "leader" ∷ row "instance_0" "d0" "main" ∷ []

abbrev lag : List ReplicationLag
lag = lag_of "instance_0" 0 ∷ []

nothing_unclassified : (exempt_current_pods each_once roles classes).1 ≡ []
unfolding exempt_current_pods exempt_role exempt_pods exempt_pod exempt_changed on_template
    setting_value lookup compact sort_by each_once remove
nothing_unclassified = refl

main_deleted :
    Deletes
      (next in_order
        (exempt_current_pods each_once roles classes).0.data_role
        (exempt_current_pods each_once roles classes).0.coordinators
        rows
        lag)
      old_main
unfolding next data_turn coordinators_turn next_data_instance restart_main restart_replica
    replicating survivor_loop present first_unready outdated is_outdated updated is_updated
    highest_ordinal_except highest_from better main_instance leader_instance first_with
    next_coordinator coordinators_back restart_coordinator concat registered_up lag_caught_up index
    index_lag index_into insert lookup is_main is_leader is_up is_caught_up equal_fold
    databases_caught_up behind exempt_current_pods exempt_role exempt_pods exempt_pod exempt_changed
    on_template setting_value
main_deleted = refl

restart_justified_example :
    (In old_main (outdated (exempt_current_pods each_once roles classes).0.data_role)
      × Reason each_once roles classes "" "t2" old_main)
    ⊎ (In old_main (outdated (exempt_current_pods each_once roles classes).0.coordinators)
        × Reason each_once roles classes "" "t2" old_main)
restart_justified_example =
    restart_justified each_once roles classes in_order rows lag old_main nothing_unclassified
      main_deleted

-- A flag is changed.
abbrev flags : String → Map String
flags level = ("bolt_num_workers", level) ∷ []

keys : (level j v : String) → lookup j (flags level) ≡ some v → IsKey j
unfolding lookup
keys level j v h = elim (Bool-cases ("bolt_num_workers" == j)) [
  | inl t ↦ subst IsKey ((eq_iff "bolt_num_workers" j).0 t) (refl, refl, refl)
  | inr f ↦ let never : none ≡ some v = rw f at h in cc
]

abbrev digest : String → String
digest value = if value == "4" then "4b227777d4dd1fc6" else "2c624232cdd221b6"

one_line : (v : String) → is_without "\n" (digest v) ≡ true
one_line v = elim (Bool-cases (v == "4")) [ inl t ↦ rw t refl | inr f ↦ rw f refl ]

full : (v : String) → digest v ≢ ""
full v e = elim (Bool-cases (v == "4")) [
  | inl t ↦ let never : ◌≡◌ {A = String} "4b227777d4dd1fc6" "" = rw t at e in cc
  | inr f ↦ let never : ◌≡◌ {A = String} "2c624232cdd221b6" "" = rw f at e in cc
]

changed_flags_iff_example :
    In "bolt_num_workers" (
      changed_flags each_once
        (flags_digests digest each_once (flags "4"))
        (flags_digests digest each_once (flags "8")))
    ↔ (digested digest (is_runtime "bolt_num_workers") (lookup "bolt_num_workers" (flags "4"))
        ≢ digested digest (is_runtime "bolt_num_workers") (lookup "bolt_num_workers" (flags "8")))
changed_flags_iff_example =
    changed_flags_iff digest each_once (flags "4") (flags "8") "bolt_num_workers" one_line full
      each_once-IsRange (keys "4") (keys "8")
