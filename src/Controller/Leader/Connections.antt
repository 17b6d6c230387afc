-- ===== src/Controller/Leader/Connections.antt =====
-- internal/controller/memgraphdbcluster_controller.go, `observeCluster`: the connections it leaves open.
use kubernetes_operator.Prelude.{
  ℕ, suc, ◌-◌, String, ◌≡◌, refl, ap, ◌∙◌, Bool, true, false, ◌⊎◌, inl, inr, Option, none, some,
  List, [], ◌∷◌, ◌==◌, Bool-cases, arith,
}
use kubernetes_operator.Memgraph.{Instance}
use kubernetes_operator.Topology.{Endpoint}
use kubernetes_operator.Controller.Leader.{
  Connector, Sighting, found, no_leader, no_answer, observed_leader, leader_address, closed_after,
  view_of, show_over, show_instances, Shown, Next, reached, follow_to, follow, answered,
  observe_from, observe_cluster,
}

abbrev pub connected : {Connection : Type 0} → String ⊎ Connection → ℕ → ℕ
connected (inl e) n = n
connected (inr c) n = suc n

-- How the operations of the connector change the number of the open connections: `connect` opens one
-- unless it fails, and `close` closes one, whether or not it reports an error.
pub record Counts {S Connection : Type 0} (connector : Connector S Connection) (opened : S → ℕ)
    : Type 0 where
  pub connects :
      (address : String) (tls : Bool) (s : S)
      → opened (connector.connect address tls s).1
        ≡ connected (connector.connect address tls s).0 (opened s)
  pub shows : (c : Connection) (s : S) → opened (connector.show c s).1 ≡ opened s
  pub closes : (c : Connection) (s : S) → opened (connector.close c s).1 ≡ opened s - 1

abbrev pub kept : {Connection : Type 0} → Sighting Connection → ℕ → ℕ
kept (found c observed) n = suc n
kept (no_leader e) n = n
kept (no_answer e) n = n

module _ {S Connection : Type 0} (connector : Connector S Connection) (opened : S → ℕ)
    (counts : Counts connector opened) where
  abbrev pub Kept : ℕ → Sighting Connection × S → Type 0
  Kept n o = opened o.1 ≡ kept o.0 n

  abbrev NextKept : ℕ → Next connector → Type 0
  NextKept n next =
      (errs : List String) (leaderless : Bool) (s : S)
      → opened s ≡ n
      → Kept n (next errs leaderless s)

  closes_one :
      (c : Connection) (s : S) (n : ℕ) → opened s ≡ suc n → opened (connector.close c s).1 ≡ n
  closes_one c s n h = omega (arith, counts.closes c s, h)

  closed_count :
      (e : String) (n : ℕ) (o : Option String × S)
      → opened o.1 ≡ n
      → opened (closed_after connector e o).1 ≡ connected (closed_after connector e o).0 n
  unfolding closed_after
  closed_count e n (none, s) h = h
  closed_count e n (some closing, s) h = h

  view_count :
      (c : Connection) (n : ℕ) (o : (String ⊎ List Instance) × S)
      → opened o.1 ≡ suc n
      → opened (view_of connector c o).1 ≡ connected (view_of connector c o).0 n
  unfolding view_of
  view_count c n (inr observed, s) h = h
  view_count c n (inl e, s) h = closed_count e n (connector.close c s) (closes_one c s n h)

  show_count :
      (n : ℕ) (o : (String ⊎ Connection) × S)
      → opened o.1 ≡ connected o.0 n
      → opened (show_over connector o).1 ≡ connected (show_over connector o).0 n
  unfolding show_over
  show_count n (inl e, s) h = h
  show_count n (inr c, s) h = view_count c n (connector.show c s) (counts.shows c s ∙ h)

  reached-Kept :
      (errs : List String) (leaderless : Bool) (observed : List Instance) (next : Next connector)
      (n : ℕ) (o : (String ⊎ Connection) × S)
      → NextKept n next
      → opened o.1 ≡ connected o.0 n
      → Kept n (reached connector errs leaderless observed o next)
  unfolding reached
  reached-Kept errs leaderless observed next n (inl e, s) after h = after _ leaderless s h
  reached-Kept errs leaderless observed next n (inr c, s) after h = h

  module _ (endpoints : List Endpoint) where
    follow_to-Kept :
        (e : Endpoint) (errs : List String) (leaderless : Bool) (observed : List Instance)
        (address : Option String) (next : Next connector) (n : ℕ) (s : S)
        → NextKept n next
        → opened s ≡ n
        → Kept n (follow_to connector endpoints e errs leaderless observed address s next)
    unfolding follow_to
    follow_to-Kept e errs leaderless observed none next n s after h = after _ leaderless s h
    follow_to-Kept e errs leaderless observed (some address) next n s after h =
        reached-Kept errs leaderless observed next n (connector.connect address e.tls s) after
          (counts.connects address e.tls s ∙ ap (connected (connector.connect address e.tls s).0) h)

    follow-Kept :
        (e : Endpoint) (errs : List String) (leaderless : Bool) (observed : List Instance)
        (next : Next connector) (n : ℕ) (o : Option String × S)
        → NextKept n next
        → opened o.1 ≡ n
        → Kept n (follow connector endpoints e errs leaderless observed o next)
    unfolding follow
    follow-Kept e errs leaderless observed next n (closing, s) after h =
        elim (Bool-cases (observed_leader observed == "")) [
          | inl nobody ↦ rw nobody (after _ true s h)
          | inr named ↦ rw named (
              follow_to-Kept e _ leaderless observed
                (leader_address endpoints observed (observed_leader observed)) next n s after h)
        ]

    answered-Kept :
        (e : Endpoint) (errs : List String) (leaderless : Bool) (next : Next connector) (n : ℕ)
        (o : Shown connector)
        → NextKept n next
        → opened o.1 ≡ connected o.0 n
        → Kept n (answered connector endpoints e errs leaderless o next)
    unfolding answered
    answered-Kept e errs leaderless next n (inl err, s) after h = after _ leaderless s h
    answered-Kept e errs leaderless next n (inr (c, observed), s) after h =
        elim (Bool-cases (observed_leader observed == e.name)) [
          | inl leads ↦ rw leads h
          | inr follows ↦ rw follows (
              follow-Kept e errs leaderless observed next n (connector.close c s) after
                (closes_one c s n h))
        ]

    observe_kept : (n : ℕ) (es : List Endpoint) → NextKept n (observe_from connector endpoints es)
    unfolding observe_from show_instances
    observe_kept n [] errs true s h = h
    observe_kept n [] errs false s h = h
    observe_kept n (e ∷ es) errs leaderless s h =
        answered-Kept e errs leaderless (observe_from connector endpoints es) n
          (show_over connector (connector.connect e.address e.tls s)) (observe_kept n es)
          (show_count n (connector.connect e.address e.tls s) (
            counts.connects e.address e.tls s
            ∙ ap (connected (connector.connect e.address e.tls s).0) h))

    -- Looking for the leader leaves open the one connection that it returns, or none: each other one
    -- that it opened was closed, where the operations of the connector count as `Counts` says.
    pub observe_cluster-Kept : (s : S) → Kept (opened s) (observe_cluster connector endpoints s)
    unfolding observe_cluster
    observe_cluster-Kept s = observe_kept (opened s) endpoints [] false s refl
