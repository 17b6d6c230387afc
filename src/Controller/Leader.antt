-- ===== src/Controller/Leader.antt =====
-- internal/controller/memgraphdbcluster_controller.go: `observeCluster`, which looks for the leading
-- coordinator. The connections are the Bolt driver's, which the repository does not implement: they are
-- a parameter, a record of operations on a state `S`. An `error` is its text. Each pass has an endpoint
-- to try, so the text of no error is not reached. A loop's `continue` is the call of what comes next.
pub mod Connections
pub mod Views
use kubernetes_operator.Prelude.{
  String, Bool, true, false, not, ◌⊎◌, inl, inr, Option, none, some, List, [], ◌∷◌, ◌++◌, ◌==◌,
  if◌then◌else◌, concat, join,
}
use kubernetes_operator.Memgraph.{Instance, is_leader}
use kubernetes_operator.Planner.Commands.{errors_join, error_text}
use kubernetes_operator.Topology.{Endpoint}

-- `Connect` of the connector, and `ShowInstances` and `Close` of the client that it returns.
pub record Connector (S Connection : Type 0) : Type 0 where
  pub connect : String → Bool → S → (String ⊎ Connection) × S
  pub show : Connection → S → (String ⊎ List Instance) × S
  pub close : Connection → S → Option String × S

-- What `observeCluster` returns: a client and a view, or one of its two errors.
pub data Sighting (Connection : Type 0) : Type 0 where
  found : Connection → List Instance → Sighting Connection
  no_leader : String → Sighting Connection
  no_answer : String → Sighting Connection

-- `observedLeader`
unfoldable pub observed_leader : List Instance → String
observed_leader [] = ""
observed_leader (i ∷ is) = if is_leader i then i.name else observed_leader is

unfoldable pub endpoint_address : List Endpoint → String → Option String
endpoint_address [] leader = none
endpoint_address (e ∷ es) leader =
    if e.name == leader then some e.address else endpoint_address es leader

unfoldable pub announced_address : List Instance → String → Option String
announced_address [] leader = none
announced_address (i ∷ is) leader =
    let rest = announced_address is leader in
    if i.name == leader then (if i.bolt_server == "" then rest else some i.bolt_server) else rest

-- `leaderAddress`
unfoldable pub leader_address : List Endpoint → List Instance → String → Option String
unfolding endpoint_address announced_address
leader_address endpoints observed leader = elim (endpoint_address endpoints leader) [
  | none ↦ announced_address observed leader
  | some address ↦ some address
]

-- `errs = append(errs, err)`, where there is an error.
unfoldable pub append_error : List String → Option String → List String
append_error errs none = errs
append_error errs (some e) = errs ++ e ∷ []

module _ {S Connection : Type 0} (connector : Connector S Connection) where
  abbrev pub Shown : Type 0
  Shown = (String ⊎ (Connection × List Instance)) × S

  unfoldable pub closed_after : String → Option String × S → Shown
  unfolding join
  closed_after e (none, s) = (inl e, s)
  closed_after e (some closing, s) = (inl (join "\n" (e ∷ closing ∷ [])), s)

  unfoldable pub view_of : Connection → (String ⊎ List Instance) × S → Shown
  unfolding closed_after
  view_of c (inr observed, s) = (inr (c, observed), s)
  view_of c (inl e, s) = closed_after e (connector.close c s)

  unfoldable pub show_over : (String ⊎ Connection) × S → Shown
  unfolding view_of
  show_over (inl e, s) = (inl e, s)
  show_over (inr c, s) = view_of c (connector.show c s)

  -- `showInstances`
  unfoldable pub show_instances : String → Bool → S → Shown
  unfolding show_over
  show_instances address tls s = show_over (connector.connect address tls s)

  -- What follows a turn of the loop: the errors, whether a coordinator was leaderless, the state.
  abbrev pub Next : Type 0
  Next = List String → Bool → S → Sighting Connection × S

  unfoldable pub reached :
      List String
      → Bool
      → List Instance
      → (String ⊎ Connection) × S
      → Next
      → Sighting Connection × S
  reached errs leaderless observed (inl e, s) next = next (errs ++ e ∷ []) leaderless s
  reached errs leaderless observed (inr c, s) next = (found c observed, s)

  module _ (endpoints : List Endpoint) where
    unfoldable pub follow_to :
        Endpoint
        → List String
        → Bool
        → List Instance
        → Option String
        → S
        → Next
        → Sighting Connection × S
    unfolding reached observed_leader concat
    follow_to e errs leaderless observed none s next =
        next
          (errs
            ++ concat (
                e.name
                ∷ " reported leader "
                ∷ observed_leader observed
                ∷ " without a Bolt address"
                ∷ [])
              ∷ [])
          leaderless s
    follow_to e errs leaderless observed (some address) s next =
        reached errs leaderless observed (connector.connect address e.tls s) next

    -- A coordinator that is not the leader, once its connection was closed.
    unfoldable pub follow :
        Endpoint
        → List String
        → Bool
        → List Instance
        → Option String × S
        → Next
        → Sighting Connection × S
    unfolding follow_to append_error leader_address observed_leader concat
    follow e errs leaderless observed (closing, s) next =
        if observed_leader observed == ""
        then next (append_error errs closing ++ concat (e.name ∷ " reported no leader" ∷ []) ∷ [])
            true s
        else follow_to e (append_error errs closing) leaderless observed
            (leader_address endpoints observed (observed_leader observed)) s next

    unfoldable pub answered : Endpoint → List String → Bool → Shown → Next → Sighting Connection × S
    unfolding follow observed_leader
    answered e errs leaderless (inl err, s) next = next (errs ++ err ∷ []) leaderless s
    answered e errs leaderless (inr (c, observed), s) next =
        if observed_leader observed == e.name
        then (found c observed, s)
        else follow e errs leaderless observed (connector.close c s) next

    -- The loop, over the endpoints that are left.
    unfoldable pub observe_from : List Endpoint → Next
    unfolding answered show_instances errors_join error_text concat
    observe_from [] errs leaderless s =
        let text = error_text (errors_join errs) in
        if leaderless
        then (no_leader (concat ("no coordinator reported a leader: " ∷ text ∷ [])), s)
        else (no_answer (concat ("no coordinator answered SHOW INSTANCES: " ∷ text ∷ [])), s)
    observe_from (e ∷ es) errs leaderless s =
        answered e errs leaderless (show_instances e.address e.tls s) (observe_from es)

    -- `observeCluster`
    unfoldable pub observe_cluster : S → Sighting Connection × S
    unfolding observe_from
    observe_cluster s = observe_from endpoints [] false s
