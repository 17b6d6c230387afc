-- ===== src/Topology/Ordinals.antt =====
-- internal/resources/topology.go and internal/memgraph/client.go: the ordinal of the pod that runs a
-- named member.
use Prim.Native.String.{◌++◌}
use text.Mathlib.TextLemmas.{append-nil}
use kubernetes_operator.Prelude.{ℕ, ◌<◌, String, ◌≡◌, ap, ◌∙◌, Option, some}
use kubernetes_operator.Prelude.Int.{ℤ, pos}
use kubernetes_operator.Prelude.Decimal.{decimal}
use kubernetes_operator.Prelude.Scan.{scanf, scanf-decimal}
use kubernetes_operator.Memgraph.{coordinator_name}
use kubernetes_operator.Topology.{coordinator_instance_name, data_instance_name}

-- `CoordinatorIDFromName`
unfoldable pub coordinator_id_from_name : String → Option ℤ
unfolding scanf
coordinator_id_from_name text = scanf "coordinator_" text

-- `CoordinatorOrdinal`
unfoldable pub coordinator_ordinal : String → Option ℤ
unfolding coordinator_id_from_name
coordinator_ordinal text = coordinator_id_from_name text

-- `DataInstanceOrdinal`
unfoldable pub data_instance_ordinal : String → Option ℤ
unfolding scanf
data_instance_ordinal text = scanf "instance_" text

-- The names of the members give their ordinals back, if these are `int32`.
pub ordinals_of_names :
    (n : ℕ)
    → n < 2147483648
    → (coordinator_ordinal (coordinator_instance_name n) ≡ some (pos n))
      × (data_instance_ordinal (data_instance_name n) ≡ some (pos n))
unfolding coordinator_ordinal data_instance_ordinal coordinator_instance_name coordinator_name
    data_instance_name
ordinals_of_names n small = (
  ap (scanf "coordinator_") (ap (λ s. "coordinator_" ++ s) (append-nil (decimal n)))
      ∙ scanf-decimal "coordinator_" n small,
  ap (scanf "instance_") (ap (λ s. "instance_" ++ s) (append-nil (decimal n)))
      ∙ scanf-decimal "instance_" n small,
)
