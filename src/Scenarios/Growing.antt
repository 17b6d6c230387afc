-- ===== src/Scenarios/Growing.antt =====
-- Passes over the claims of a data role, with numbers as quantities and the count of writes as state.
use Prim.Native.Nat.{compare}
use kubernetes_operator.Prelude.{
  ℕ, suc, ◌≡◌, refl, ◌↔◌, true, false, inr, none, some, List, [], ◌∷◌,
}
use kubernetes_operator.Prelude.Decimal.{decimal}
use kubernetes_operator.Prelude.Map.{insert, lookup}
use kubernetes_operator.Prelude.Ranges.{each_once, each_once-IsRange}
use kubernetes_operator.Volumes.Templates.{Template}
use kubernetes_operator.Controller.Convergence.{is_grown}
use kubernetes_operator.Controller.Growing.{
  ClaimedRole, VolumeCalls, patched, goes_on, recreates, recreating_text, reconcile_volumes,
}
use kubernetes_operator.Controller.Growing.Settled.{AreResized, volumes_settled_iff}
use kubernetes_operator.Controller.Pass.Calls.{deleted}

abbrev template : ℕ → Template ℕ
template size = record { name = "lib-storage"; size = some size }

-- The spec wants 10.
abbrev data_role : ℕ → List (ClaimedRole ℕ)
data_role live =
    record {
      name = "demo-data";
      live = some (record { is_deleting = false; templates = template live ∷ [] });
      desired = template 10 ∷ [];
    }
    ∷ []

-- One claim, whose volume holds what it asks for.
abbrev calls : ℕ → VolumeCalls ℕ ℕ
calls size = record {
  list_claims = λ name s. (
    inr (
        record {
          name = "lib-storage-demo-data-0";
          phase = "Bound";
          request = some size;
          capacity = some size;
          conditions = [];
          allocated_status = none;
        }
        ∷ []),
    s,
  );
  list_pods = λ name s. (inr ("demo-data-0" ∷ []), s);
  patch_claim = λ name size s. (patched, suc s);
  orphan = λ name s. (deleted, suc s);
}

-- A small claim is patched, and the StatefulSet stays; the next pass recreates it; then nothing is left.
steps :
    ((reconcile_volumes (calls 1) 0 decimal compare each_once (data_role 1) 0).ending ≡ goes_on)
    × ((reconcile_volumes (calls 1) 0 decimal compare each_once (data_role 1) 0).outcome.growing
        ≡ "lib-storage-demo-data-0 (pod demo-data-0)" ∷ [])
    × ((reconcile_volumes (calls 1) 0 decimal compare each_once (data_role 1) 0).state ≡ 1)
    × ((reconcile_volumes (calls 10) 0 decimal compare each_once (data_role 1) 0).ending
        ≡ recreates (recreating_text "demo-data"))
    × ((reconcile_volumes (calls 10) 0 decimal compare each_once (data_role 1) 0).state ≡ 1)
    × ((reconcile_volumes (calls 10) 0 decimal compare each_once (data_role 10) 0).ending ≡ goes_on)
    × ((reconcile_volumes (calls 10) 0 decimal compare each_once (data_role 10) 0).state ≡ 0)
unfolding reconcile_volumes each_once decimal insert lookup
steps = (refl, refl, refl, refl, refl, refl, refl)

volumes_settled_iff_example :
    (((reconcile_volumes (calls 10) 0 decimal compare each_once (data_role 10) 0).ending ≡ goes_on)
      × (is_grown
            (reconcile_volumes (calls 10) 0 decimal compare each_once (data_role 10) 0).outcome
          ≡ true))
    ↔ AreResized (calls 10) 0 decimal compare each_once (data_role 10) 0
volumes_settled_iff_example =
    volumes_settled_iff (calls 10) 0 decimal compare each_once each_once-IsRange (data_role 10) 0
