-- ===== src/Scenarios/Trust.antt =====
-- A shrink that the cache shows late.
use kubernetes_operator.Prelude.{
  ◌≡◌, ◌↔◌, true, arith, refl, subst, inl, inr, Option, some, List, [], ◌∷◌, In,
}
use kubernetes_operator.Prelude.Int.{pos}
use kubernetes_operator.Expectations.{
  NamespacedName, Written, Cached, nothing_expected, expect, satisfied, Call, asked, after,
}
use kubernetes_operator.Expectations.Trust.{Leaves, Shows, written-satisfied}

abbrev data_set : NamespacedName
data_set = record { namespace = "db"; name = "demo-data" }

abbrev shrink : Written
shrink = record { uid = "u1"; generation = pos 4 }

abbrev copy : Option Cached
copy = some (record { uid = "u1"; generation = pos 3 })

abbrev fresh : Option Cached
fresh = some (record { uid = "u1"; generation = pos 4 })

-- A pass looks, and sees the copy from before the shrink.
abbrev looks : List Call
looks = asked data_set copy ∷ []

leaves : (c : Call) → In c looks → Leaves data_set shrink c
leaves c (inl e) = subst (Leaves data_set shrink) e (inr (refl, omega arith))
leaves c (inr never) = absurd never

written-satisfied_example :
    ((satisfied (after (expect nothing_expected data_set shrink) looks) data_set fresh).0 ≡ true)
    ↔ Shows shrink fresh
written-satisfied_example = written-satisfied nothing_expected data_set shrink looks fresh leaves
