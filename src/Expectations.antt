-- ===== src/Expectations.antt =====
-- internal/expectations/expectations.go: the StatefulSet writes that the informer cache has not shown
-- back. The methods hold one mutex for their whole length, so concurrent calls are a sequence of
-- steps. The map is a function, and the map that was never made is the one that holds nothing.
pub mod Trust
use kubernetes_operator.Prelude.{
  String, Bool, true, false, not, ◌&&◌, ◌||◌, Option, none, some, List, [], ◌∷◌, ◌==◌,
  if◌then◌else◌,
}
use kubernetes_operator.Prelude.Int.{ℤ, ltb_ℤ}

-- `types.NamespacedName`
pub record NamespacedName : Type 0 where
  pub namespace : String
  pub name : String

abbrev pub same_name : NamespacedName → NamespacedName → Bool
same_name a b = a.namespace == b.namespace && a.name == b.name

pub record Written : Type 0 where
  pub uid : String
  pub generation : ℤ

-- What the methods read of a `StatefulSet`.
pub record Cached : Type 0 where
  pub uid : String
  pub generation : ℤ

-- `StatefulSets`
abbrev pub StatefulSets : Type 0
StatefulSets = NamespacedName → Option Written

abbrev pub nothing_expected : StatefulSets
nothing_expected name = none

-- `Expect`
unfoldable pub expect : StatefulSets → NamespacedName → Written → StatefulSets
expect s name w n = if same_name name n then some w else s n

-- `delete(s.expected, name)`
unfoldable pub forget : StatefulSets → NamespacedName → StatefulSets
forget s name n = if same_name name n then none else s n

-- `cached == nil || cached.UID != want.uid || cached.Generation >= want.generation`
unfoldable pub caught_up : Written → Option Cached → Bool
caught_up want none = true
caught_up want (some c) = not (c.uid == want.uid) || not (ltb_ℤ c.generation want.generation)

unfoldable pub answer :
    StatefulSets → NamespacedName → Option Cached → Option Written → Bool × StatefulSets
unfolding forget caught_up
answer s name cached none = (true, s)
answer s name cached (some want) =
    if caught_up want cached then (true, forget s name) else (false, s)

-- `Satisfied`: the answer, and the expectations that are left.
unfoldable pub satisfied : StatefulSets → NamespacedName → Option Cached → Bool × StatefulSets
unfolding answer
satisfied s name cached = answer s name cached (s name)

-- A call of one of the two methods.
pub data Call : Type 0 where
  wrote : NamespacedName → Written → Call
  asked : NamespacedName → Option Cached → Call

unfoldable pub step : StatefulSets → Call → StatefulSets
unfolding expect satisfied
step s (wrote name w) = expect s name w
step s (asked name cached) = (satisfied s name cached).1

unfoldable pub after : StatefulSets → List Call → StatefulSets
unfolding step
after s [] = s
after s (c ∷ cs) = after (step s c) cs
