-- ===== src/Memgraph/Laws.antt =====
-- internal/memgraph/client.go: facts about its tests and names.
use text.Mathlib.TextLemmas.{append_cancel_left, append-nil as text-append-nil}
use kubernetes_operator.Prelude.{◌≡◌, ◌∙◌, sym, concat}
use kubernetes_operator.Prelude.Decimal.{decimal, decimal_injective}
use kubernetes_operator.Memgraph.{CoordinatorSpec, coordinator_name}

-- Two coordinators have one name only if they have one ID.
pub coordinator_name_injective :
    (c d : CoordinatorSpec) → coordinator_name c ≡ coordinator_name d → c.id ≡ d.id
unfolding coordinator_name concat
coordinator_name_injective c d h = decimal_injective c.id d.id (
    sym (text-append-nil (decimal c.id))
    ∙ append_cancel_left "coordinator_" _ _ h
    ∙ text-append-nil (decimal d.id))
