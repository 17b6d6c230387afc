-- ===== src/Planner/Observed.antt =====
-- internal/planner/planner.go: what the tests of Planner/View say of the rows that were observed.
use kubernetes_operator.Prelude.{
  String, ◌≡◌, refl, sym, ap, ◌∙◌, ◌⊎◌, inl, inr, Bool, true, false, not, ◌&&◌, ◌||◌, none, some,
  List, [], ◌∷◌, In, any, ◌==◌, Bool-cases, Option-cases, if◌then◌else◌, arith,
}
use kubernetes_operator.Prelude.Map.{
  Map, lookup, insert, lookup-insert, lookup-index_into, last_named-In, last_named_of_In,
}
use kubernetes_operator.Memgraph.{
  Instance, CoordinatorSpec, DataInstanceSpec, ReplicationLag, coordinator_name, is_main, is_up,
  is_caught_up,
}
use kubernetes_operator.Planner.View.{
  Topology, index, index_lag, name_all, retiring_names, is_named, instance_registered,
  coordinator_registered, lag_caught_up, registered_up, Mains, scan_mains, handover_candidates,
}

-- A row of the observed view under the name.
abbrev pub Row : List Instance → String → Type 0
Row observed k = (i : Instance) × In i observed × (i.name ≡ k)

lookup-index-In :
    (k : String) (o : List Instance) (i : Instance)
    → lookup k (index o) ≡ some i
    → In i o × (i.name ≡ k)
unfolding index lookup
lookup-index-In k o i h =
    elim (last_named-In (λ (x : Instance). x.name) k o none i
      (sym (lookup-index_into _ k o []) ∙ h)) [ inl found ↦ found | inr e ↦ cc ]

lookup-index_of_In :
    (k : String) (o : List Instance) (i : Instance)
    → In i o
    → i.name ≡ k
    → (j : Instance) × (lookup k (index o) ≡ some j)
unfolding index lookup
lookup-index_of_In k o i h e =
    let (j, p) = last_named_of_In (λ (x : Instance). x.name) k o none i h e in
    (j, lookup-index_into _ k o [] ∙ p)

-- An instance is registered exactly when a row carries its name.
pub instance_registered-Row :
    (o : List Instance) (k : String) → instance_registered (index o) k ≡ true → Row o k
unfolding instance_registered
instance_registered-Row o k h = elim (Option-cases (lookup k (index o))) [
  | inl e ↦ cc (rw (e, instance_registered) at h)
  | inr (i, e) ↦ (i, (lookup-index-In k o i e).0, (lookup-index-In k o i e).1)
]

pub row_instance_registered :
    (o : List Instance) (k : String) (i : Instance)
    → In i o
    → i.name ≡ k
    → instance_registered (index o) k ≡ true
unfolding instance_registered
row_instance_registered o k i h e = let (j, p) = lookup-index_of_In k o i h e in ground (arith, p)

pub coordinator_registered_row :
    (o : List Instance) (c : CoordinatorSpec)
    → coordinator_registered (index o) c ≡ true
    → (i : Instance) × In i o × (i.name ≡ coordinator_name c) × ((i.bolt_server == "") ≡ false)
unfolding coordinator_registered
coordinator_registered_row o c h = elim (Option-cases (lookup (coordinator_name c) (index o))) [
  | inl e ↦ absurd (ground (arith, e))
  | inr (i, e) ↦
      let found = lookup-index-In (coordinator_name c) o i e in
      (i, found.0, found.1, ground (arith, e))
]

pub registered_up_row :
    (o : List Instance) (k : String)
    → registered_up (index o) k ≡ true
    → (i : Instance) × In i o × (i.name ≡ k) × (is_up i ≡ true)
unfolding registered_up
registered_up_row o k h = elim (Option-cases (lookup k (index o))) [
  | inl e ↦ absurd (ground (arith, e))
  | inr (i, e) ↦ let found = lookup-index-In k o i e in (i, found.0, found.1, ground (arith, e))
]

pub lag_caught_up_row :
    (lag : List ReplicationLag) (k : String)
    → lag_caught_up (index_lag lag) k ≡ true
    → (l : ReplicationLag) × In l lag × (l.instance_name ≡ k) × (is_caught_up l ≡ true)
unfolding lag_caught_up index_lag lookup
lag_caught_up_row lag k h = elim (Option-cases (lookup k (index_lag lag))) [
  | inl e ↦ absurd (ground (arith, e))
  | inr (l, e) ↦
      elim (last_named-In (λ (x : ReplicationLag). x.instance_name) k lag none l
        (sym (lookup-index_into _ k lag []) ∙ e)) [
          | inl found ↦ (l, found.0, found.1, ground (arith, e))
          | inr q ↦ cc
        ]
]

-- The retiring set holds exactly the names of the retiring data instances.
lookup-name_all :
    (ds : List DataInstanceSpec) (k : String) (m : Map Bool)
    → is_named (name_all ds m) k ≡ (if any (λ d. d.name == k) ds then true else is_named m k)
unfolding name_all is_named
lookup-name_all [] k m = refl
lookup-name_all (d ∷ ds) k m =
    ground (arith, lookup-name_all ds k (insert d.name true m), lookup-insert d.name k true m)

pub is_named_retiring :
    (t : Topology) (k : String)
    → is_named (retiring_names t) k ≡ any (λ d. d.name == k) t.retiring_data_instances
unfolding retiring_names
is_named_retiring t k =
    lookup-name_all t.retiring_data_instances k [] ∙ unfold is_named lookup in ground arith

-- Where MAIN sits, as the scan reads it.
module _ (retiring : Map Bool) where
  abbrev pub RetiringMain : Instance → Type 0
  RetiringMain i = (is_main i ≡ true) × (is_named retiring i.name ≡ true)

  pub scan_mains_found :
      (o : List Instance) (m : Mains)
      → ((scan_mains retiring o m).retiring_main ≡ m.retiring_main)
        ⊎ ((i : Instance) × In i o
            × (i.name ≡ (scan_mains retiring o m).retiring_main)
            × RetiringMain i)
  unfolding scan_mains
  scan_mains_found [] m = inl refl
  scan_mains_found (i ∷ o) m =
      elim (scan_mains_found o (
        if not (is_main i)
        then m
        else if is_named retiring i.name
        then record m { retiring_main = i.name }
        else record m { has_main = true })) [
          | inr (j, h, e, r) ↦ inr (j, inr h, e, r)
          | inl e ↦ elim (Bool-cases (is_main i && is_named retiring i.name)) [
            | inl t ↦ inr (i, inl refl, ground (arith, e), ground arith)
            | inr f ↦ inl (ground (arith, e))
          ]
        ]

  -- A retiring MAIN is found, though a later one replaces it.
  pub scan_mains_complete :
      (o : List Instance) (m : Mains) (i : Instance)
      → In i o
      → RetiringMain i
      → (j : Instance) × In j o
        × (j.name ≡ (scan_mains retiring o m).retiring_main)
        × RetiringMain j
  unfolding scan_mains
  scan_mains_complete [] m i h r = absurd h
  scan_mains_complete (x ∷ o) m i (inl e) r =
      elim (scan_mains_found o (
        if not (is_main x)
        then m
        else if is_named retiring x.name
        then record m { retiring_main = x.name }
        else record m { has_main = true })) [
          | inr (j, h, q, rj) ↦ (j, inr h, q, rj)
          | inl q ↦
              let main : is_main x ≡ true = ap is_main e ∙ r.0 in
              let out : is_named retiring x.name ≡ true =
                ap (λ (y : Instance). is_named retiring y.name) e ∙ r.1 in
              (x, inl refl, ground (arith, q), (main, out))
        ]
  scan_mains_complete (x ∷ o) m i (inr h) r =
      let (j, hj, e, rj) = scan_mains_complete o _ i h r in (j, inr hj, e, rj)

  pub scan_mains_has_main :
      (o : List Instance) (m : Mains)
      → (scan_mains retiring o m).has_main
        ≡ (m.has_main || any (λ i. is_main i && not (is_named retiring i.name)) o)
  unfolding scan_mains
  scan_mains_has_main [] m = ground arith
  scan_mains_has_main (i ∷ o) m = ground (
    arith,
    scan_mains_has_main o (
        if not (is_main i)
        then m
        else if is_named retiring i.name
        then record m { retiring_main = i.name }
        else record m { has_main = true }),
  )

-- A handover candidate is declared, observed up and reported caught up.
pub handover_candidates_In :
    (o : List Instance) (lag : List ReplicationLag) (ds : List DataInstanceSpec) (k : String)
    → In k (handover_candidates (index o) (index_lag lag) ds)
    → ((d : DataInstanceSpec) × In d ds × (d.name ≡ k))
      × (registered_up (index o) k ≡ true)
      × (lag_caught_up (index_lag lag) k ≡ true)
unfolding handover_candidates
handover_candidates_In o lag [] k h = absurd h
handover_candidates_In o lag (d ∷ ds) k h =
    elim (Bool-cases (registered_up (index o) d.name && lag_caught_up (index_lag lag) d.name)) [
      | inl t ↦
          let up : registered_up (index o) d.name ≡ true = ground arith in
          let caught : lag_caught_up (index_lag lag) d.name ≡ true = ground arith in
          elim (rw (up, caught) at h) [
            | inl e ↦ (
              (d, inl refl, e),
              sym (ap (registered_up (index o)) e) ∙ up,
              sym (ap (lag_caught_up (index_lag lag)) e) ∙ caught,
            )
            | inr r ↦
                let ((x, i, e), u, c) = handover_candidates_In o lag ds k r in ((x, inr i, e), u, c)
          ]
      | inr f ↦
          let r : In k (handover_candidates (index o) (index_lag lag) ds) = ground arith in
          let found = handover_candidates_In o lag ds k r in
          ((found.0.0, inr found.0.1, found.0.2), found.1, found.2)
    ]
