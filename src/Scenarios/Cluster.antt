-- ===== src/Scenarios/Cluster.antt =====
-- A cluster of one coordinator and one data instance that shrinks from three and two. The data
-- instance that retires is MAIN, and a coordinator that retires leads.
use kubernetes_operator.Prelude.{ℕ, String, List, [], ◌∷◌}
use kubernetes_operator.Prelude.Int.{pos}
use kubernetes_operator.Memgraph.{Instance, CoordinatorSpec, DataInstanceSpec, ReplicationLag}
use kubernetes_operator.Planner.View.{Topology}

abbrev pub coordinator_spec : ℕ → String → CoordinatorSpec
coordinator_spec id bolt_server = record {
  id = id;
  bolt_server = bolt_server;
  coordinator_server = "c";
  management_server = "m";
}

abbrev pub data_spec : String → String → DataInstanceSpec
data_spec name bolt_server = record {
  name = name;
  bolt_server = bolt_server;
  management_server = "m";
  replication_server = "r";
}

abbrev pub c0 : CoordinatorSpec
c0 = coordinator_spec 0 "c0"

abbrev pub c1 : CoordinatorSpec
c1 = coordinator_spec 1 "c1"

abbrev pub c2 : CoordinatorSpec
c2 = coordinator_spec 2 "c2"

abbrev pub d0 : DataInstanceSpec
d0 = data_spec "instance_0" "d0"

abbrev pub d1 : DataInstanceSpec
d1 = data_spec "instance_1" "d1"

-- While the cluster shrinks, and once it is at its declared size.
abbrev pub shrinking : Topology
shrinking = record {
  coordinators = c0 ∷ [];
  data_instances = d0 ∷ [];
  retiring_coordinators = c1 ∷ c2 ∷ [];
  retiring_data_instances = d1 ∷ [];
}

abbrev pub steady : Topology
steady = record {
  coordinators = c0 ∷ [];
  data_instances = d0 ∷ [];
  retiring_coordinators = [];
  retiring_data_instances = [];
}

abbrev pub row : String → String → String → Instance
row name bolt_server role = record {
  name = name;
  bolt_server = bolt_server;
  coordinator_server = "";
  management_server = "";
  health = "up";
  role = role;
}

abbrev pub retiring_rows : List Instance
retiring_rows =
    row "coordinator_0" "c0" "follower"
    ∷ row "coordinator_1" "c1" "follower"
    ∷ row "coordinator_2" "c2" "leader"
    ∷ row "instance_0" "d0" "replica"
    ∷ row "instance_1" "d1" "main"
    ∷ []

-- Only the declared members are left.
abbrev pub steady_rows : List Instance
steady_rows = row "coordinator_0" "c0" "leader" ∷ row "instance_0" "d0" "main" ∷ []

abbrev pub lag_of : String → ℕ → ReplicationLag
lag_of name transactions = record {
  instance_name = name;
  databases =
      record { database = "memgraph"; committed_txns = pos 20; txns_behind_main = pos transactions }
      ∷ [];
}

abbrev pub caught_up : List ReplicationLag
caught_up = lag_of "instance_0" 0 ∷ []
