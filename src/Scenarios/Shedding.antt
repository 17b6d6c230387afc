-- ===== src/Scenarios/Shedding.antt =====
-- A pass over a cluster that shrinks from two data instances to one, once the second is unregistered.
use kubernetes_operator.Prelude.{ℕ, some, []}
use kubernetes_operator.Prelude.Map.{Map}
use kubernetes_operator.Prelude.Ranges.{each_once}
use kubernetes_operator.Expectations.{NamespacedName, nothing_expected}
use kubernetes_operator.Controller.Conditions.{Condition}
use kubernetes_operator.Controller.Replicas.{RoleReplicas}
use kubernetes_operator.Controller.Pass.{reconcile_registration}
use kubernetes_operator.Controller.Pass.Parts.{Inputs, PassEnd}
use kubernetes_operator.Scenarios.Whole.{conditions, world, inputs, status, in_order}

abbrev two_left : RoleReplicas
two_left = record {
  name = "demo-data";
  declared = 1;
  applied = 2;
  stateful_set = some (record { spec_replicas = some 2; status_replicas = 2; ready_replicas = 2 });
}

abbrev shrinking_inputs : Inputs
shrinking_inputs = record inputs { data_instances = two_left }

abbrev data_set : NamespacedName
data_set = record { namespace = "db"; name = "demo-data" }

abbrev shed : PassEnd ℕ (Map Condition)
shed =
    reconcile_registration world conditions (λ s. s) each_once in_order shrinking_inputs
      nothing_expected status [] 0
