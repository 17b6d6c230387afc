-- ===== src/Planner.antt =====
-- internal/planner/planner.go: the pure diff from a declared topology and an observed cluster to the
-- commands still needed. A loop that appends to `commands` is a function of the loop's list here, and
-- `commands = append(commands, …)` is `++`. What it reads first is in
-- Planner/View, the commands are in Planner/Commands.
pub mod Commands
pub mod View
pub mod Observed
pub mod Loops
pub mod Planned
pub mod Issued
pub mod Rows
pub mod Due
pub mod Handover
pub mod Promotion
pub mod Order
pub mod Coordinators
pub mod Retirement
pub mod Progress
pub mod Converged
pub mod Run
use kubernetes_operator.Prelude.{
  ℕ, ◌+◌, String, Bool, true, false, not, ◌&&◌, ◌||◌, Option, none, some, List, [], ◌∷◌, ◌++◌, ◌==◌,
  if◌then◌else◌,
}
use kubernetes_operator.Prelude.Map.{Map, lookup, insert, index_into}
use kubernetes_operator.Memgraph.{
  Instance, CoordinatorSpec, DataInstanceSpec, ReplicationLag, coordinator_name, is_main, is_up,
  is_leader, is_caught_up,
}
use kubernetes_operator.Planner.Commands.{
  Command, add_coordinator, register_instance, update_coordinator_bolt_server,
  update_instance_bolt_server, set_instance_to_main, demote_instance, unregister_instance,
  remove_coordinator, yield_leadership,
}
use kubernetes_operator.Planner.View.{
  Topology, index, instance_registered, coordinator_registered, registered_up, Mains, leader_name,
  Survey, survey,
}

-- The loop of `promotionTarget`, with the fallback that its last line returns.
unfoldable pub first_up : Map Instance → List DataInstanceSpec → String → String
first_up registered [] fallback = fallback
first_up registered (d ∷ ds) fallback =
    if registered_up registered d.name then d.name else first_up registered ds fallback

-- `promotionTarget` of a list that is not empty, which is when `Plan` calls it.
unfoldable pub promotion_target : Map Instance → DataInstanceSpec → List DataInstanceSpec → String
unfolding first_up
promotion_target registered d ds = first_up registered (d ∷ ds) d.name

unfoldable pub add_coordinators : Map Instance → List CoordinatorSpec → List Command
add_coordinators registered [] = []
add_coordinators registered (c ∷ cs) =
    let rest = add_coordinators registered cs in
    if coordinator_registered registered c then rest else add_coordinator c ∷ rest

unfoldable pub register_instances : Map Instance → List DataInstanceSpec → List Command
register_instances registered [] = []
register_instances registered (d ∷ ds) =
    let rest = register_instances registered ds in
    if instance_registered registered d.name then rest else register_instance d ∷ rest

-- `ok && observed.BoltServer != "" && observed.BoltServer != declared`
unfoldable pub bolt_moved : Map Instance → String → String → Bool
bolt_moved registered k declared = elim (lookup k registered) [
  | none ↦ false
  | some i ↦ not (i.bolt_server == "") && not (i.bolt_server == declared)
]

unfoldable pub coordinator_updates : Map Instance → List CoordinatorSpec → List Command
coordinator_updates registered [] = []
coordinator_updates registered (c ∷ cs) =
    let rest = coordinator_updates registered cs in
    if bolt_moved registered (coordinator_name c) c.bolt_server
    then update_coordinator_bolt_server c ∷ rest
    else rest

unfoldable pub instance_updates : Map Instance → List DataInstanceSpec → List Command
instance_updates registered [] = []
instance_updates registered (d ∷ ds) =
    let rest = instance_updates registered ds in
    if bolt_moved registered d.name d.bolt_server
    then update_instance_bolt_server d ∷ rest
    else rest

unfoldable pub bolt_server_updates : Topology → Map Instance → List Command
unfolding coordinator_updates instance_updates
bolt_server_updates t registered =
    coordinator_updates registered t.coordinators ++ instance_updates registered t.data_instances

-- No MAIN and none retiring: `len(declared.DataInstances) > 0` is the pattern.
unfoldable pub bootstrap : Map Instance → List DataInstanceSpec → List Command
unfolding promotion_target
bootstrap registered [] = []
bootstrap registered (d ∷ ds) = set_instance_to_main (promotion_target registered d ds ∷ []) "" ∷ []

-- The `switch` that promotes.
unfoldable pub promotion :
    Bool → Mains → List String → Map Instance → List DataInstanceSpec → List Command
unfolding bootstrap
promotion handover m successors registered ds =
    if handover && not m.has_main
    then set_instance_to_main successors m.retiring_main ∷ []
    else if m.retiring_main == "" && not m.has_main
    then bootstrap registered ds
    else []

unfoldable pub unregistrations : Bool → String → Map Instance → List DataInstanceSpec → List Command
unregistrations handover retiring_main registered [] = []
unregistrations handover retiring_main registered (d ∷ ds) =
    let rest = unregistrations handover retiring_main registered ds in
    if not (instance_registered registered d.name)
    then rest
    else if d.name == retiring_main && not handover
    then rest
    else unregister_instance d.name ∷ rest

unfoldable pub removals : Map Instance → String → List CoordinatorSpec → List Command
removals registered leader [] = []
removals registered leader (c ∷ cs) =
    let rest = removals registered leader cs in
    if coordinator_name c == leader
    then rest
    else if coordinator_registered registered c
    then remove_coordinator c ∷ rest
    else rest

-- The variable `yieldFrom` after the same loop.
unfoldable pub yield_from : String → List CoordinatorSpec → String → String
yield_from leader [] y = y
yield_from leader (c ∷ cs) y =
    yield_from leader cs (if coordinator_name c == leader then leader else y)

unfoldable pub yields : String → List Command
yields y = if y == "" then [] else yield_leadership y ∷ []

unfoldable pub demotions : Bool → String → List Command
demotions handover retiring_main = if handover then demote_instance retiring_main ∷ [] else []

-- The plan after the registrations and the updates.
unfoldable pub retirement : Topology → Survey → String → List Command
unfolding demotions
retirement t s leader =
    demotions s.handover s.mains.retiring_main
    ++ (promotion s.handover s.mains s.successors s.registered t.data_instances
        ++ (unregistrations s.handover s.mains.retiring_main s.registered t.retiring_data_instances
            ++ (removals s.registered leader t.retiring_coordinators
                ++ yields (yield_from leader t.retiring_coordinators ""))))

unfoldable pub registrations : Topology → Survey → List Command
registrations t s =
    add_coordinators s.registered t.coordinators
    ++ (register_instances s.registered t.data_instances ++ bolt_server_updates t s.registered)

unfoldable pub plan : Topology → List Instance → List ReplicationLag → List Command
unfolding retirement registrations
plan t observed lag =
    let s = survey t observed lag in registrations t s ++ retirement t s (leader_name observed)

unfoldable pub instances_left : Map Instance → List DataInstanceSpec → Bool
instances_left registered [] = false
instances_left registered (d ∷ ds) =
    instance_registered registered d.name || instances_left registered ds

unfoldable pub coordinators_left : Map Instance → List CoordinatorSpec → Bool
coordinators_left registered [] = false
coordinators_left registered (c ∷ cs) =
    coordinator_registered registered c || coordinators_left registered cs

-- `Retired`
unfoldable pub retired : Topology → List Instance → Bool
unfolding instances_left coordinators_left
retired t observed =
    not (instances_left (index observed) t.retiring_data_instances)
    && not (coordinators_left (index observed) t.retiring_coordinators)

unfoldable pub count_coordinators : Map Instance → List CoordinatorSpec → ℕ
count_coordinators registered [] = 0
count_coordinators registered (c ∷ cs) =
    (if coordinator_registered registered c then 1 else 0) + count_coordinators registered cs

unfoldable pub count_instances : Map Instance → List DataInstanceSpec → ℕ
count_instances registered [] = 0
count_instances registered (d ∷ ds) =
    (if instance_registered registered d.name then 1 else 0) + count_instances registered ds

-- `Registered`: the coordinators and the data instances that the cluster has.
unfoldable pub registered_counts : Topology → List Instance → ℕ × ℕ
unfolding count_coordinators count_instances
registered_counts t observed = (
  count_coordinators (index observed) t.coordinators,
  count_instances (index observed) t.data_instances,
)
