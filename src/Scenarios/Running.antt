-- ===== src/Scenarios/Running.antt =====
-- A promotion whose first candidate is refused.
use kubernetes_operator.Prelude.{
  ℕ, suc, String, ◌≡◌, ◌≢◌, ◌⊎◌, none, some, List, [], ◌∷◌, ◌==◌, if◌then◌else◌,
}
use kubernetes_operator.Planner.Commands.{Client, Outcome, Command, set_instance_to_main, run}
use kubernetes_operator.Topology.{Cluster}
use kubernetes_operator.Controller.Events.{run_commands, recording}
use kubernetes_operator.Controller.Events.Recording.{plain, run_commands-plain}
use kubernetes_operator.Planner.Run.{Promotes, Fails, run-promotion}

-- The state counts the commands that were sent; only `b` is accepted as MAIN.
abbrev accepts : ℕ → Outcome ℕ
accepts s = (none, suc s)

abbrev set_b : String → ℕ → Outcome ℕ
set_b name s = if name == "b" then (none, suc s) else (some "refused", suc s)

abbrev only_b : Client ℕ
only_b = record {
  add = λ c s. accepts s;
  register = λ d s. accepts s;
  update_coordinator = λ id server s. accepts s;
  update_instance = λ name server s. accepts s;
  set_main = set_b;
  demote = λ name s. accepts s;
  unregister = λ name s. accepts s;
  remove = λ id s. accepts s;
  yield = λ s. accepts s;
}

abbrev names : List String
names = "a" ∷ "b" ∷ []

some_names : names ≢ []
some_names e = cc

run-promotion_example :
    Promotes only_b names 0 (run only_b (set_instance_to_main names "c") 0)
    ⊎ Fails only_b names "c" 0 (run only_b (set_instance_to_main names "c") 0)
run-promotion_example = run-promotion only_b names "c" 0 some_names

abbrev cluster : Cluster
cluster = record {
  name = "demo";
  namespace = "db";
  coordinators = none;
  data_instances = none;
  cluster_domain = "";
  bolt_tls_secret = "";
}

abbrev commands : List Command
commands = set_instance_to_main names "" ∷ []

run_commands-plain_example :
    plain (run_commands (recording cluster "coordinator_0" only_b) commands (0, []))
    ≡ run_commands only_b commands 0
run_commands-plain_example = run_commands-plain cluster "coordinator_0" only_b commands 0 []
