-- ===== src/Controller/Leader/Views.antt =====
-- internal/controller/memgraphdbcluster_controller.go, `observeCluster`: whose view a pass plans against,
-- and where its connection goes.
use kubernetes_operator.Prelude.{
  String, ◌≡◌, ◌≢◌, refl, subst, Bool, true, false, ◌⊎◌, inl, inr, Option, none, some, List, [],
  ◌∷◌, In, ◌==◌, eq_iff, Bool-cases,
}
use kubernetes_operator.Memgraph.{Instance}
use kubernetes_operator.Topology.{Endpoint}
use kubernetes_operator.Controller.Leader.{
  Connector, Sighting, found, observed_leader, leader_address, show_instances, Shown, Next, reached,
  follow_to, follow, answered, observe_from, observe_cluster,
}

module _ {S Connection : Type 0} (connector : Connector S Connection)
    (endpoints : List Endpoint) where
  abbrev Answered : Connection → List Instance → Endpoint → Type 0
  Answered c observed e =
      (s s' : S) × (show_instances connector e.address e.tls s ≡ (inr (c, observed), s'))

  -- The connection was opened to the address of the leader that the view names.
  abbrev LeaderReached : Connection → List Instance → Endpoint → Type 0
  LeaderReached c observed e =
      (observed_leader observed ≢ "")
      × ((address : String) × (leader_address endpoints observed (observed_leader observed)
            ≡ some address)
          × ((t t' : S) × (connector.connect address e.tls t ≡ (inr c, t'))))

  -- The endpoint answered with the view. It is the leader that the view names and the connection is to
  -- it, or the connection was opened to that leader's address.
  abbrev pub Leads : Connection → List Instance → Endpoint → Type 0
  Leads c observed e =
      ((observed_leader observed ≡ e.name) × Answered c observed e)
      ⊎ (((c' : Connection) × Answered c' observed e) × LeaderReached c observed e)

  abbrev Found : List Endpoint → Sighting Connection × S → Type 0
  Found es o =
      (c : Connection) (observed : List Instance)
      → o.0 ≡ found c observed
      → (e : Endpoint) × In e es × Leads c observed e

  abbrev NextFound : List Endpoint → Next connector → Type 0
  NextFound es next =
      (errs : List String) (leaderless : Bool) (s : S) → Found es (next errs leaderless s)

  later :
      (e : Endpoint) (es : List Endpoint) (next : Next connector)
      → NextFound es next
      → NextFound (e ∷ es) next
  later e es next after errs leaderless s c observed q =
      let (e', i, leads) = after errs leaderless s c observed q in (e', inr i, leads)

  here :
      (e : Endpoint) (es : List Endpoint) (c : Connection) (observed : List Instance) (s : S)
      → Leads c observed e
      → Found (e ∷ es) (found c observed, s)
  here e es c observed s leads c' observed' q =
      let same : c ≡ c' = cc in
      let same_view : observed ≡ observed' = cc in
      (
        e,
        inl refl,
        subst (λ x. Leads x observed' e) same (subst (λ v. Leads c v e) same_view leads),
      )

  reached-Found :
      (e : Endpoint) (es : List Endpoint) (errs : List String) (leaderless : Bool)
      (observed : List Instance) (address : String) (next : Next connector) (s : S)
      (o : (String ⊎ Connection) × S)
      → ((c : Connection) × Answered c observed e)
      → observed_leader observed ≢ ""
      → leader_address endpoints observed (observed_leader observed) ≡ some address
      → connector.connect address e.tls s ≡ o
      → NextFound es next
      → Found (e ∷ es) (reached connector errs leaderless observed o next)
  unfolding reached
  reached-Found e es errs leaderless observed address next s (inl err, s') a named at_leader k
        after =
      later e es next after _ leaderless s'
  reached-Found e es errs leaderless observed address next s (inr c, s') a named at_leader k after =
      here e es c observed s' (inr (a, (named, (address, at_leader, (s, s', k)))))

  follow_to-Found :
      (e : Endpoint) (es : List Endpoint) (errs : List String) (leaderless : Bool)
      (observed : List Instance) (o : Option String) (next : Next connector) (s : S)
      → ((c : Connection) × Answered c observed e)
      → observed_leader observed ≢ ""
      → leader_address endpoints observed (observed_leader observed) ≡ o
      → NextFound es next
      → Found (e ∷ es) (follow_to connector endpoints e errs leaderless observed o s next)
  unfolding follow_to
  follow_to-Found e es errs leaderless observed none next s a named at_leader after =
      later e es next after _ leaderless s
  follow_to-Found e es errs leaderless observed (some address) next s a named at_leader after =
      reached-Found e es errs leaderless observed address next s (connector.connect address e.tls s)
        a named at_leader refl after

  follow-Found :
      (e : Endpoint) (es : List Endpoint) (errs : List String) (leaderless : Bool)
      (observed : List Instance) (o : Option String × S) (next : Next connector)
      → ((c : Connection) × Answered c observed e)
      → NextFound es next
      → Found (e ∷ es) (follow connector endpoints e errs leaderless observed o next)
  unfolding follow
  follow-Found e es errs leaderless observed (closing, s) next a after =
      elim (Bool-cases (observed_leader observed == "")) [
        | inl nobody ↦ rw nobody (later e es next after _ true s)
        | inr named ↦ rw named (
            follow_to-Found e es _ leaderless observed
              (leader_address endpoints observed (observed_leader observed)) next s a
              (λ q. let t : (observed_leader observed == "") ≡ true = (eq_iff _ _).1 q in cc) refl
              after)
      ]

  answered-Found :
      (e : Endpoint) (es : List Endpoint) (errs : List String) (leaderless : Bool)
      (next : Next connector) (s : S) (o : Shown connector)
      → show_instances connector e.address e.tls s ≡ o
      → NextFound es next
      → Found (e ∷ es) (answered connector endpoints e errs leaderless o next)
  unfolding answered
  answered-Found e es errs leaderless next s (inl err, s') k after =
      later e es next after _ leaderless s'
  answered-Found e es errs leaderless next s (inr (c, observed), s') k after =
      elim (Bool-cases (observed_leader observed == e.name)) [
        | inl leads ↦ rw leads (here e es c observed s' (inl ((eq_iff _ _).0 leads, (s, s', k))))
        | inr follows ↦ rw follows (
            follow-Found e es errs leaderless observed (connector.close c s') next (c, (s, s', k))
              after)
      ]

  observe_found : (es : List Endpoint) → NextFound es (observe_from connector endpoints es)
  unfolding observe_from
  observe_found [] errs true s c observed q = cc
  observe_found [] errs false s c observed q = cc
  observe_found (e ∷ es) errs leaderless s c observed q =
      answered-Found e es errs leaderless (observe_from connector endpoints es) s
        (show_instances connector e.address e.tls s) refl (observe_found es) c observed q

  -- A view that is returned is one that an endpoint answered with. It names that endpoint as the
  -- leader and the connection is the endpoint's own, or it names a leader and the connection was
  -- opened to that leader's address.
  pub observe_cluster-Leads :
      (s : S) (c : Connection) (observed : List Instance)
      → (observe_cluster connector endpoints s).0 ≡ found c observed
      → (e : Endpoint) × In e endpoints × Leads c observed e
  unfolding observe_cluster
  observe_cluster-Leads s c observed q = observe_found endpoints [] false s c observed q
