-- ===== src/Planner/View.antt =====
-- internal/planner/planner.go: the declared topology, and what `Plan` reads off the observed cluster
-- before it appends a command.
use kubernetes_operator.Prelude.{
  String, Bool, true, false, not, ◌&&◌, none, some, List, [], ◌∷◌, ◌==◌, if◌then◌else◌,
}
use kubernetes_operator.Prelude.Map.{Map, lookup, insert, index_into}
use kubernetes_operator.Memgraph.{
  Instance, CoordinatorSpec, DataInstanceSpec, ReplicationLag, coordinator_name, is_main, is_up,
  is_leader, is_caught_up,
}

pub record Topology : Type 0 where
  pub coordinators : List CoordinatorSpec
  pub data_instances : List DataInstanceSpec
  pub retiring_coordinators : List CoordinatorSpec
  pub retiring_data_instances : List DataInstanceSpec

unfoldable pub index : List Instance → Map Instance
index observed = index_into (λ i. i.name) observed []

unfoldable pub index_lag : List ReplicationLag → Map ReplicationLag
index_lag lag = index_into (λ l. l.instance_name) lag []

unfoldable pub name_all : List DataInstanceSpec → Map Bool → Map Bool
name_all [] m = m
name_all (d ∷ ds) m = name_all ds (insert d.name true m)

-- `retiringNames`
unfoldable pub retiring_names : Topology → Map Bool
unfolding name_all
retiring_names t = name_all t.retiring_data_instances []

-- A missing key reads as the zero value.
unfoldable pub is_named : Map Bool → String → Bool
is_named m k = elim (lookup k m) [ none ↦ false | some b ↦ b ]

-- `_, ok := registered[name]`
unfoldable pub instance_registered : Map Instance → String → Bool
instance_registered registered k = elim (lookup k registered) [ none ↦ false | some _ ↦ true ]

unfoldable pub coordinator_registered : Map Instance → CoordinatorSpec → Bool
coordinator_registered registered c = elim (lookup (coordinator_name c) registered) [
  | none ↦ false
  | some i ↦ not (i.bolt_server == "")
]

-- `lag[name].IsCaughtUp()`: a missing row is the zero row, which has no database.
unfoldable pub lag_caught_up : Map ReplicationLag → String → Bool
lag_caught_up lag k = elim (lookup k lag) [ none ↦ false | some l ↦ is_caught_up l ]

-- `observed, ok := registered[name]; ok && observed.IsUp()`
unfoldable pub registered_up : Map Instance → String → Bool
registered_up registered k = elim (lookup k registered) [ none ↦ false | some i ↦ is_up i ]

-- The variables of the loop that looks for MAIN.
pub record Mains : Type 0 where
  pub retiring_main : String
  pub has_main : Bool

unfoldable pub scan_mains : Map Bool → List Instance → Mains → Mains
scan_mains retiring [] m = m
scan_mains retiring (i ∷ is) m = scan_mains retiring is (
    if not (is_main i)
    then m
    else if is_named retiring i.name
    then record m { retiring_main = i.name }
    else record m { has_main = true })

unfoldable pub handover_candidates :
    Map Instance → Map ReplicationLag → List DataInstanceSpec → List String
handover_candidates registered lag [] = []
handover_candidates registered lag (d ∷ ds) =
    let rest = handover_candidates registered lag ds in
    if registered_up registered d.name
    then (if lag_caught_up lag d.name then d.name ∷ rest else rest)
    else rest

unfoldable pub is_empty {ℓ} : {A : Type ℓ} → List A → Bool
is_empty [] = true
is_empty (_ ∷ _) = false

unfoldable pub leader_name : List Instance → String
leader_name [] = ""
leader_name (i ∷ is) = if is_leader i then i.name else leader_name is

-- What `Plan` reads off the observed cluster before it appends commands.
pub record Survey : Type 0 where
  pub registered : Map Instance
  pub mains : Mains
  pub successors : List String
  pub handover : Bool

unfoldable pub survey : Topology → List Instance → List ReplicationLag → Survey
survey t observed lag =
    let m =
      scan_mains (retiring_names t) observed (record { retiring_main = ""; has_main = false }) in
    let found =
      (if m.retiring_main == ""
        then []
        else handover_candidates (index observed) (index_lag lag) t.data_instances) in
    record {
      registered = index observed;
      mains = m;
      successors = found;
      handover = not (m.retiring_main == "") && not (is_empty found);
    }
