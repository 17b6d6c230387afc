-- ===== src/Controller/Pass/Shrunk.antt =====
-- internal/controller/memgraphdbcluster_controller.go, `reconcileRegistration` with `shedRetiredPods`:
-- when a pass shrinks a StatefulSet.
use kubernetes_operator.Prelude.{String, ◌≡◌, ◌≢◌, none, some, List, [], In}
use kubernetes_operator.Prelude.Map.{Map, last_named}
use kubernetes_operator.Prelude.Ranges.{Entries}
use kubernetes_operator.Memgraph.{Instance, CoordinatorSpec, DataInstanceSpec, coordinator_name}
use kubernetes_operator.Planner.{plan}
use kubernetes_operator.Rollout.{Range}
use kubernetes_operator.Expectations.{StatefulSets}
use kubernetes_operator.Controller.Registration.{Pass}
use kubernetes_operator.Controller.Status.{Conditions, Status}
use kubernetes_operator.Controller.Pass.Calls.{World}
use kubernetes_operator.Controller.Pass.Parts.{Inputs, topology_of, lag_or_none}

-- The last row under the coordinator's name has no Bolt server, where there is one.
abbrev pub IsRemoved : List Instance → CoordinatorSpec → Type 0
IsRemoved rows c =
    (i : Instance)
    → last_named (λ (x : Instance). x.name) (coordinator_name c) rows none ≡ some i
    → i.bolt_server ≡ ""

module _ {S Connection C : Type 0} (world : World S Connection) (conditions : Conditions C)
    (quote : String → String) (range : Map String → Entries String) (order : Range)
    (p : Inputs) where
  module _ (shrinks : StatefulSets) (status : Status C) where
    -- The view leaves nothing to plan, and the members that retire are gone from it.
    abbrev pub IsEmptied : Connection → List Instance → S → Type 0
    IsEmptied c rows t =
        (plan (topology_of p) rows (lag_or_none (world.show_replication_lag c t).0) ≡ [])
        × ((d : DataInstanceSpec)
            → In d (topology_of p).retiring_data_instances
            → (i : Instance) → In i rows
            → i.name ≢ d.name)
        × ((k : CoordinatorSpec) → In k (topology_of p).retiring_coordinators → IsRemoved rows k)
