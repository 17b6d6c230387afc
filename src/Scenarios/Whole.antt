-- ===== src/Scenarios/Whole.antt =====
-- A whole pass over a cluster that is as its spec says, with one coordinator and one data instance.
use kubernetes_operator.Prelude.{
  ℕ, suc, ◌-◌, String, ◌≡◌, refl, inr, false, true, none, some, List, [], ◌∷◌,
}
use kubernetes_operator.Prelude.Map.{Map, lookup, insert, remove}
use kubernetes_operator.Prelude.Int.{pos}
use kubernetes_operator.Prelude.Ranges.{each_once}
use kubernetes_operator.Memgraph.{Instance}
use kubernetes_operator.Planner.Commands.{Client}
use kubernetes_operator.Rollout.Roles.{Role}
use kubernetes_operator.Expectations.{nothing_expected}
use kubernetes_operator.Controller.Conditions.{Condition}
use kubernetes_operator.Controller.Convergence.{nothing_grown}
use kubernetes_operator.Controller.Exposure.{no_external_access}
use kubernetes_operator.Controller.Replicas.{RoleReplicas}
use kubernetes_operator.Controller.Secrets.{LicenseSecret, SecretRead, Licensing, no_secret, secret}
use kubernetes_operator.Controller.Secrets.Licensed.{Licensed}
use kubernetes_operator.Controller.Cycle.{license_of, finish_pass}
use kubernetes_operator.Controller.Status.{Conditions, Status}
use kubernetes_operator.Controller.Pass.{reconcile_registration}
use kubernetes_operator.Controller.Pass.Parts.{Inputs, PassEnd}
use kubernetes_operator.Controller.Pass.Calls.{World, applied, deleted}
use kubernetes_operator.Controller.Pass.Opened.{CountsAll, connections_closed}
use kubernetes_operator.Scenarios.Cluster.{row, caught_up}

-- Kubernetes' list of conditions, by type.
abbrev pub conditions : Conditions (Map Condition)
conditions = record {
  find = λ cs t. lookup t cs;
  set = λ c cs. insert c.condition_type c cs;
  remove = λ t cs. remove t cs;
}

abbrev rows : List Instance
rows =
    row "coordinator_0" "demo-coordinator-0.demo-coordinator.db.svc.cluster.local:7687" "leader"
    ∷ row "instance_0" "demo-data-0.demo-data.db.svc.cluster.local:7687" "main"
    ∷ []

abbrev accepts : Client ℕ
accepts = record {
  add = λ c n. (none, n);
  register = λ d n. (none, n);
  update_coordinator = λ id b n. (none, n);
  update_instance = λ name b n. (none, n);
  set_main = λ name n. (none, n);
  demote = λ name n. (none, n);
  unregister = λ name n. (none, n);
  remove = λ id n. (none, n);
  yield = λ n. (none, n);
}

-- The state counts the open connections, and a connection is the address that it was opened to.
abbrev pub world : World ℕ String
world = record {
  connector = record {
    connect = λ address tls n. (inr address, suc n);
    show = λ c n. (inr rows, n);
    close = λ c n. (none, n - 1);
  };
  instances = record {
    connect = λ address tls n. (inr address, suc n);
    show_settings = λ c n. (inr (("log.level", "INFO") ∷ []), n);
    show_config = λ c n. (inr (("bolt_port", "7687") ∷ []), n);
    set_setting = λ c k v n. (none, n);
    close = λ c n. (none, n - 1);
  };
  show_replication_lag = λ c n. (inr caught_up, n);
  show_coordinator_settings = λ c n. (inr (("enabled_reads_on_main", "false") ∷ []), n);
  set_coordinator_setting = λ c k v n. (none, n);
  commands = λ c. accepts;
  apply = λ name count n. (applied (record { uid = "u"; generation = pos 1 }), n);
  delete_pod = λ p n. (deleted, n);
}

abbrev opened : ℕ → ℕ
opened n = n

counts : CountsAll world opened
counts = record {
  connector = record {
    connects = λ address tls n. refl;
    shows = λ c n. refl;
    closes = λ c n. refl;
  };
  instances = record {
    connects = λ address tls n. refl;
    shows_settings = λ c n. refl;
    shows_config = λ c n. refl;
    sets = λ c k v n. refl;
    closes = λ c n. refl;
  };
  shows_lag = λ c n. refl;
  shows_coordinator_settings = λ c n. refl;
  sets_coordinator_setting = λ c k v n. refl;
  commands = λ c. record {
    adds = λ c n. refl;
    registers = λ d n. refl;
    updates_coordinator = λ id b n. refl;
    updates_instance = λ name b n. refl;
    sets_main = λ name n. refl;
    demotes = λ name n. refl;
    unregisters = λ name n. refl;
    removes = λ id n. refl;
    yields = λ n. refl;
  };
  applies = λ name count n. refl;
  deletes = λ p n. refl;
}

abbrev one_of : String → RoleReplicas
one_of name = record {
  name = name;
  declared = 1;
  applied = 1;
  stateful_set = some (record { spec_replicas = some 1; status_replicas = 1; ready_replicas = 1 });
}

abbrev updated_role : String → String → Role
updated_role name instance_name = record {
  replicas = 1;
  update_revision = "new";
  stale = false;
  pods =
      record {
        name = name;
        uid = "u";
        instance_name = instance_name;
        ordinal = 0;
        revision_hash = "new";
        current = false;
        ready = true;
      }
      ∷ [];
}

abbrev pub inputs : Inputs
inputs = record {
  cluster = record {
    name = "demo";
    namespace = "db";
    coordinators = some 1;
    data_instances = some 1;
    cluster_domain = "";
    bolt_tls_secret = "";
  };
  generation = 3;
  coordinators = one_of "demo-coordinator";
  data_instances = one_of "demo-data";
  exposure = no_external_access;
  roles = record {
    data_role = updated_role "demo-data-0" "instance_0";
    coordinators = updated_role "demo-coordinator-0" "coordinator_0";
    data_flags = "";
    coordinator_flags = "";
    pod_flags = [];
    data_template = "t";
    coordinator_template = "t";
    pod_templates = ("demo-data-0", "t") ∷ ("demo-coordinator-0", "t") ∷ [];
  };
  claims = nothing_grown;
  monitor_failure = "";
  coordinator_flags = [];
  data_flags = [];
  coordinators_spec = [];
  data_spec = [];
  aws_secret = "";
  aws_read = no_secret;
}

abbrev pub status : Status (Map Condition)
status = record {
  main = "";
  coordinators = 0;
  data_instances = 0;
  external_access = none;
  conditions = [];
}

abbrev pub in_order : Map Instance → List (String × Instance)
in_order m = m

abbrev ended : PassEnd ℕ (Map Condition)
ended =
    reconcile_registration world conditions (λ s. s) each_once in_order inputs nothing_expected
      status [] 0

abbrev ref : LicenseSecret
ref = record { name = "memgraph"; license_key = "LICENSE"; organization_key = "ORGANIZATION" }

abbrev read : SecretRead
read = secret (("LICENSE", "L") ∷ ("ORGANIZATION", "O") ∷ [])

abbrev license : Licensing ℕ
license = license_of world (λ s. s) inputs ref read 0

abbrev finished : PassEnd ℕ (Map Condition)
finished =
    finish_pass world conditions (λ s. s) each_once in_order inputs nothing_expected status ref read
      0

connections_closed_example : ended.state ≡ 0
connections_closed_example =
    connections_closed world conditions (λ s. s) each_once in_order inputs opened counts
      nothing_expected status [] 0
