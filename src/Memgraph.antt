-- ===== src/Memgraph.antt =====
-- internal/memgraph/client.go: the rows of SHOW INSTANCES and SHOW REPLICATION LAG, the members that
-- a topology declares, and the tests on them. A coordinator ID is an `int32` that the code builds
-- from a pod ordinal, so it is a number here.
pub mod Laws
use Prim.Native.Char.{code}
use kubernetes_operator.Prelude.{
  ℕ, ◌+◌, String, Bool, true, false, not, ◌&&◌, List, [], ◌∷◌, all, ltb, leb, eqb, if◌then◌else◌,
  concat,
}
use kubernetes_operator.Prelude.Int.{ℤ, pos, ltb_ℤ}
use kubernetes_operator.Prelude.Decimal.{decimal}

pub record Instance : Type 0 where
  pub name : String
  pub bolt_server : String
  pub coordinator_server : String
  pub management_server : String
  pub health : String
  pub role : String

lower : ℕ → ℕ
lower c = if leb b'A' c && leb c b'Z' then c + 32 else c

-- `strings.EqualFold` against an ASCII word. Outside ASCII only U+017F and U+212A fold to an ASCII
-- letter, `s` and `k`, which no word that the code compares with holds.
unfoldable pub equal_fold : String → String → Bool
unfolding lower
equal_fold String.[] String.[] = true
equal_fold (String.◌∷◌ c s) (String.◌∷◌ d t) =
    let rest = equal_fold s t in eqb (lower (code c)) (lower (code d)) && rest
equal_fold _ _ = false

unfoldable pub is_leader : Instance → Bool
unfolding equal_fold
is_leader i = equal_fold i.role "leader"

unfoldable pub is_main : Instance → Bool
unfolding equal_fold
is_main i = equal_fold i.role "main"

unfoldable pub is_up : Instance → Bool
unfolding equal_fold
is_up i = equal_fold i.health "up"

pub record CoordinatorSpec : Type 0 where
  pub id : ℕ
  pub bolt_server : String
  pub coordinator_server : String
  pub management_server : String

-- `CoordinatorSpec.Name`: coordinator_<id>
unfoldable pub coordinator_name : CoordinatorSpec → String
unfolding concat decimal
coordinator_name c = concat ("coordinator_" ∷ decimal c.id ∷ [])

pub record DataInstanceSpec : Type 0 where
  pub name : String
  pub bolt_server : String
  pub management_server : String
  pub replication_server : String

pub record DatabaseLag : Type 0 where
  pub database : String
  pub committed_txns : ℤ
  pub txns_behind_main : ℤ

pub record ReplicationLag : Type 0 where
  pub instance_name : String
  pub databases : List DatabaseLag

-- The early return of the loop of `IsCaughtUp`.
unfoldable pub behind : DatabaseLag → Bool
behind d = ltb_ℤ (pos 0) d.txns_behind_main

unfoldable pub databases_caught_up : List DatabaseLag → Bool
unfolding behind
databases_caught_up [] = false
databases_caught_up (d ∷ ds) = all (λ e. not (behind e)) (d ∷ ds)

unfoldable pub is_caught_up : ReplicationLag → Bool
unfolding databases_caught_up
is_caught_up l = databases_caught_up l.databases
