-- ===== src/Scenarios/Settling.antt =====
-- One data instance whose license is brought in line, and passes that end.
use kubernetes_operator.Prelude.{
  some, concat, String, ◌≡◌, ◌⊎◌, refl, inr, true, false, none, List, [], ◌∷◌,
}
use kubernetes_operator.Prelude.Map.{Map, lookup, insert}
use kubernetes_operator.Settings.{setting_value, change_unless, license_changes}
use kubernetes_operator.Prelude.Decimal.{decimal, emit, digit}
use kubernetes_operator.Topology.{
  Endpoint, Cluster, data_endpoints, coordinator_endpoints, endpoints_from, pod_name, data_set_name,
  coordinator_set_name,
}
use kubernetes_operator.Rollout.Roles.{Pod}
use kubernetes_operator.Controller.Conditions.{condition}
use kubernetes_operator.Controller.Applying.{
  Instances, Read, Reads, secret_setting, ran_events, ending_events, read_over, read_instance,
  kept_read, observed_settings, set_next, set_changes, apply_over, apply_planned, apply_read,
  apply_settings,
}
use kubernetes_operator.Controller.Applying.Once.{Attempt, attempts, Becomes, settings_read_once}
use kubernetes_operator.Controller.Settling.{
  owed, merge, index_ready, is_ready, swept, sweep, both, data_part, coordinator_part,
}
use kubernetes_operator.Controller.Secrets.{
  LicenseSecret, SecretRead, secret, read_license, license_values, license_condition, license_part,
  settle_license, reconcile_license,
}
use kubernetes_operator.Controller.Secrets.Licensed.{Licensed, ReadyOf, license_applied_lem}

-- The state is what the one instance is set to.
abbrev instances : Instances (Map String) Unit
instances = record {
  connect = λ address tls s. (inr tt, s);
  show_settings = λ c s. (inr s, s);
  show_config = λ c s. (inr [], s);
  set_setting = λ c k v s. (none, insert k v s);
  close = λ c s. (none, s);
}

abbrev quote : String → String
quote s = s

abbrev endpoint : Endpoint
endpoint = record { name = "instance_0"; pod = "demo-data-0"; address = "d0:7687"; tls = false }

abbrev cluster : Cluster
cluster = record {
  name = "demo";
  namespace = "db";
  coordinators = some 1;
  data_instances = some 1;
  cluster_domain = "cluster.local";
  bolt_tls_secret = "";
}

abbrev pod : String → String → Pod
pod name instance_name = record {
  name = name;
  uid = "u0";
  instance_name = instance_name;
  ordinal = 0;
  revision_hash = "new";
  current = false;
  ready = true;
}

abbrev data_pods : List Pod
data_pods = pod "demo-data-0" "instance_0" ∷ []

abbrev coordinator_pods : List Pod
coordinator_pods = pod "demo-coordinator-0" "coordinator_0" ∷ []

abbrev ref : LicenseSecret
ref = record { name = "memgraph"; license_key = "LICENSE"; organization_key = "ORGANIZATION" }

abbrev read : SecretRead
read = secret (("LICENSE", "L") ∷ ("ORGANIZATION", "O") ∷ [])

licensed :
    (reconcile_license instances quote ref read
      (data_part cluster 1 data_pods)
      (coordinator_part cluster 1 coordinator_pods)
      []
      []).condition.status
    ≡ "True"
unfolding reconcile_license settle_license license_part both license_condition sweep swept owed
    merge index_ready is_ready apply_settings apply_read apply_planned apply_over set_changes
    set_next observed_settings kept_read read_instance read_over ran_events ending_events lookup
    insert license_changes change_unless setting_value read_license license_values condition
    data_endpoints coordinator_endpoints endpoints_from pod_name data_set_name coordinator_set_name
    concat decimal emit digit
licensed = refl

license_applied_lem_example :
    (license organization : String) × (read_license ref read ≡ inr (license, organization))
    × ((e : Endpoint)
        → ReadyOf (data_part cluster 1 data_pods) e
          ⊎ ReadyOf (coordinator_part cluster 1 coordinator_pods) e
        → Licensed license organization e
            (reconcile_license instances quote ref read
              (data_part cluster 1 data_pods)
              (coordinator_part cluster 1 coordinator_pods)
              []
              []).reads)
license_applied_lem_example =
    license_applied_lem instances quote ref read cluster 1 1 data_pods coordinator_pods [] []
      licensed

-- The license is set, and then the settings are read again.
abbrev attempt : Attempt
attempt = record {
  describe = secret_setting quote;
  action = "SetLicense";
  endpoint = endpoint;
  plan = license_changes "L" "O";
}

abbrev first : Read × Reads × Map String
first = observed_settings instances endpoint [] []

abbrev after : Reads × Map String
after = attempts instances (attempt ∷ []) (first.1, first.2)

settings_read_once_example :
    (r : Read) × (observed_settings instances endpoint after.0 after.1 ≡ (r, after.0, after.1))
    × Becomes first.0 r
settings_read_once_example = settings_read_once instances endpoint [] [] (attempt ∷ [])
