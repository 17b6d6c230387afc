-- ===== src/Settings.antt =====
-- internal/settings/settings.go and secrets.go: the flags that are run-time settings, and the changes
-- that bring an observed view in line. A loop over a map takes the entries in the order in which Go
-- meets them, which no order of the map's own fixes.
pub mod Spelling
pub mod Diffs
pub mod Plans
pub mod Classes
pub mod Licenses
use kubernetes_operator.Prelude.{
  ℕ, String, Bool, true, false, not, ◌&&◌, Option, none, some, List, [], ◌∷◌, ◌++◌, eqb, ◌==◌,
  if◌then◌else◌,
}
use kubernetes_operator.Prelude.Map.{Map, lookup, insert}
use kubernetes_operator.Prelude.Ranges.{Entries}
use kubernetes_operator.Prelude.Sorted.{sort_by}
use kubernetes_operator.Settings.Spelling.{normalize}

abbrev pub also_log_to_stderr : String
also_log_to_stderr = "also_log_to_stderr"

abbrev pub scheduler_flag : String
scheduler_flag = "scheduler"

-- `runtimeSettings`
unfoldable pub runtime_settings : Map String
runtime_settings =
    ("bolt_server_name_for_init", "server.name")
    ∷ ("query_execution_timeout_sec", "query.timeout")
    ∷ ("hops_limit_partial_results", "hops_limit_partial_results")
    ∷ ("log_level", "log.level")
    ∷ (also_log_to_stderr, "log.to_stderr")
    ∷ ("cartesian_product_enabled", "cartesian-product-enabled")
    ∷ ("debug_query_plans", "debug-query-plans")
    ∷ ("storage_gc_aggressive", "storage-gc-aggressive")
    ∷ (
      "storage_omit_vector_index_properties_on_return",
      "storage.omit_vector_index_properties_on_return",
    )
    ∷ ("timezone", "timezone")
    ∷ ("storage_snapshot_interval", "storage.snapshot.interval")
    ∷ ("file_download_conn_timeout_sec", "file.download_conn_timeout_sec")
    ∷ ("storage_access_timeout_sec", "storage.access_timeout_sec")
    ∷ ("log_min_duration_ms", "log.min_duration_ms")
    ∷ ("log_failed_queries", "log.failed_queries")
    ∷ ("log_query_plan", "log.query_plan")
    ∷ []

-- `Setting`
unfoldable pub setting : String → Option String
setting flag = lookup (normalize flag) runtime_settings

-- `IsRuntime`
unfoldable pub is_runtime : String → Bool
is_runtime flag = elim (setting flag) [ none ↦ false | some _ ↦ true ]

pub record Change : Type 0 where
  pub setting : String
  pub value : String

-- `current, reported := observed[setting]; reported && current == value`
unfoldable pub reports : Map String → String → String → Bool
unfolding lookup
reports observed k v = elim (lookup k observed) [ none ↦ false | some current ↦ current == v ]

unfoldable pub changes : Entries String → Map String → List Change
unfolding reports
changes [] observed = []
changes ((k, v) ∷ desired) observed =
    let rest = changes desired observed in
    if reports observed k v then rest else record { setting = k; value = v } ∷ rest

-- `Diff`
unfoldable pub diff : Entries String → Map String → List Change
unfolding changes sort_by
diff desired observed = sort_by (λ (c : Change). c.setting) (changes desired observed)

-- `if setting, ok := Setting(flag); ok { desired[setting] = value }`
unfoldable pub add_setting : Option String → String → Map String → Map String
unfolding insert
add_setting none value desired = desired
add_setting (some k) value desired = insert k value desired

unfoldable pub desired_settings : Entries String → Map String → Map String
unfolding add_setting
desired_settings [] desired = desired
desired_settings ((flag, value) ∷ flags) desired =
    desired_settings flags (add_setting (setting flag) value desired)

-- `Plan`, with the order in which `Diff` meets the settings.
unfoldable pub plan : (Map String → Entries String) → Entries String → Map String → List Change
unfolding desired_settings diff
plan range flags observed = diff (range (desired_settings flags [])) observed

pub record Classification : Type 0 where
  pub flags : List String
  pub coordinator_settings : List String
  pub unknown : List String

-- `hasKey`
unfoldable pub has_key : Map String → String → Bool
unfolding lookup
has_key view k = elim (lookup k view) [ none ↦ false | some _ ↦ true ]

-- `hiddenFlags[name]`
unfoldable pub is_hidden : String → Bool
is_hidden k = if k == also_log_to_stderr then true else k == scheduler_flag

-- One turn of the loop of `Classify`, before the keys that follow.
unfoldable pub classify_key : String → Map String → Map String → Classification → Classification
unfolding is_hidden has_key
classify_key k config coordinator_settings c =
    if is_hidden k
    then record c { flags = k ∷ c.flags }
    else if has_key config k
    then record c { flags = k ∷ c.flags }
    else if has_key coordinator_settings k
    then record c { coordinator_settings = k ∷ c.coordinator_settings }
    else record c { unknown = k ∷ c.unknown }

unfoldable pub classify_keys : List String → Map String → Map String → Classification
unfolding classify_key normalize
classify_keys [] config coordinator_settings = record {
  flags = [];
  coordinator_settings = [];
  unknown = [];
}
classify_keys (k ∷ ks) config coordinator_settings =
    classify_key (normalize k) config coordinator_settings
      (classify_keys ks config coordinator_settings)

-- `Classify`
unfoldable pub classify : List String → Map String → Map String → Classification
unfolding classify_keys sort_by
classify keys config coordinator_settings =
    let c = classify_keys keys config coordinator_settings in
    record {
      flags = sort_by (λ s. s) c.flags;
      coordinator_settings = sort_by (λ s. s) c.coordinator_settings;
      unknown = sort_by (λ s. s) c.unknown;
    }

abbrev pub license_setting : String
license_setting = "enterprise.license"

abbrev pub organization_setting : String
organization_setting = "organization.name"

-- `observed[name]`: a missing setting reads as the empty text.
unfoldable pub setting_value : Map String → String → String
unfolding lookup
setting_value observed k = elim (lookup k observed) [ none ↦ "" | some v ↦ v ]

unfoldable pub change_unless : Map String → String → String → List Change
unfolding setting_value
change_unless observed k v =
    if setting_value observed k == v then [] else record { setting = k; value = v } ∷ []

-- `License`
unfoldable pub license_changes : String → String → Map String → List Change
unfolding change_unless
license_changes license organization observed =
    change_unless observed organization_setting organization
    ++ change_unless observed license_setting license
