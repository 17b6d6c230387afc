-- ===== src/Scenarios/Claims.antt =====
-- A role whose claims grow, with numbers as quantities.
use Prim.Native.Nat.compare
use Prim.Native.Nat.{compare}
use kubernetes_operator.Prelude.{
  ℕ, zero, suc, String, ◌≡◌, ◌↔◌, ap, ◌∙◌, true, false, none, some, [], ◌∷◌, In,
}
use kubernetes_operator.Prelude.Map.{Map}
use kubernetes_operator.Prelude.Ranges.{Entries, one_entry-IsRange}
use kubernetes_operator.Volumes.Claims.{Claim, Role}
use kubernetes_operator.Volumes.{is_less, decide}
use kubernetes_operator.Volumes.Patches.{is_short, size_of, patches_iff}
use kubernetes_operator.Volumes.Recreate.{Grew}
use kubernetes_operator.Volumes.Resize.{patched, recreated, resize_ends}
use kubernetes_operator.Volumes.Reading.{PersistentVolumeClaim, observe}
use kubernetes_operator.Volumes.Recognised.{Recognised, observe_iff}
use kubernetes_operator.Volumes.Templates.{Template}

abbrev claim : String → ℕ → ℕ → Claim ℕ
claim name request capacity = record {
  name = name;
  template = "lib-storage";
  ordinal = 0;
  bound = true;
  request = request;
  capacity = capacity;
  resize_pending = false;
  infeasible = "";
  resize_error = "";
}

-- One claim asks for 1 while the spec wants 10.
abbrev role : Role ℕ
role = record {
  stateful_set = "demo-data";
  desired = ("lib-storage", 10) ∷ [];
  live = some (("lib-storage", 1) ∷ []);
  claims = claim "lib-storage-demo-data-0" 1 1 ∷ [];
  pods = record { name = "demo-data-0"; ordinal = 0 } ∷ [];
}

abbrev in_order : Map ℕ → Entries ℕ
in_order m = m

patches_iff_example :
    In
      (record { claim = "lib-storage-demo-data-0"; size = 10 })
      (decide compare in_order role).patches
    ↔ ((c : Claim ℕ) × In c role.claims
        × (is_short compare (size_of role c) c ≡ true)
        × (size_of role c ≡ some 10)
        × (c.name ≡ "lib-storage-demo-data-0"))
patches_iff_example =
    patches_iff compare in_order role (record { claim = "lib-storage-demo-data-0"; size = 10 })

abbrev volume : PersistentVolumeClaim ℕ
volume = record {
  name = "lib-storage-demo-data-12";
  phase = "Bound";
  request = some 10;
  capacity = some 1;
  conditions = [];
  allocated_status = none;
}

observe_iff_example :
    (observe 0 "demo-data" ("lib-storage" ∷ []) volume
      ≡ some (claim "lib-storage-demo-data-12" 10 1))
    ↔ Recognised 0 "demo-data" ("lib-storage" ∷ []) volume (claim "lib-storage-demo-data-12" 10 1)
observe_iff_example =
    observe_iff 0 "demo-data" ("lib-storage" ∷ []) volume (claim "lib-storage-demo-data-12" 10 1)

abbrev template : String → ℕ → Template ℕ
template name size = record { name = name; size = some size }

no_less : (q : ℕ) → is_less (compare q q) ≡ false
no_less zero = ap is_less compare.zero-zero
no_less (suc q) = ap is_less (compare.suc-suc q q) ∙ no_less q

resize_ends_example :
    ((decide compare in_order (patched compare in_order role)).patches ≡ [])
    × (((decide compare in_order (patched compare in_order role)).recreate ≡ true) ↔ (
        (live : Map ℕ) × (some (("lib-storage", 1) ∷ []) ≡ some live)
        × Grew compare role.desired live))
    × ((decide compare in_order (recreated compare (patched compare in_order role))).patches ≡ [])
    × ((decide compare in_order (recreated compare (patched compare in_order role))).recreate
        ≡ false)
resize_ends_example =
    resize_ends compare in_order role (one_entry-IsRange "lib-storage" 10) no_less
      ((λ c i. absurd i), tt)
