-- ===== src/Controller/Cycle/Ready.antt =====
-- internal/controller/memgraphdbcluster_controller.go, `reconcileCluster` and `Reconcile`: what Ready says once
-- a pass is over.
use kubernetes_operator.Prelude.{◌≡◌, some}
use kubernetes_operator.Prelude.Map.{Map}
use kubernetes_operator.Controller.Conditions.{Condition}
use kubernetes_operator.Controller.Secrets.Licensed.{Licensed}
use kubernetes_operator.Controller.Status.{Conditions, Status}

-- The Ready condition of a status is True.
abbrev pub IsReadyNow : {C : Type 0} → Conditions C → Status C → Type 0
IsReadyNow conditions after =
    (c : Condition) × (conditions.find after.conditions "Ready" ≡ some c) × (c.status ≡ "True")
