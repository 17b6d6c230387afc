-- ===== src/Planner/Handover.antt =====
-- internal/planner/planner.go: moving MAIN, when `Plan` demotes and promotes.
use kubernetes_operator.Prelude.{
  String, ◌≡◌, ◌≢◌, refl, sym, ◌∙◌, subst, inl, inr, true, false, not, ◌&&◌, List, [], ◌∷◌, In,
  any_of_In, In_of_any, ◌==◌, eq_iff, Bool-cases, arith,
}
use kubernetes_operator.Memgraph.{
  Instance, DataInstanceSpec, ReplicationLag, is_main, is_up, is_caught_up,
}
use kubernetes_operator.Planner.Commands.{demote_instance}
use kubernetes_operator.Planner.View.{
  Topology, index, index_lag, retiring_names, is_named, handover_candidates, is_empty, leader_name,
  survey,
}
use kubernetes_operator.Planner.{plan}
use kubernetes_operator.Planner.Observed.{
  registered_up_row, lag_caught_up_row, is_named_retiring, scan_mains_found, scan_mains_complete,
  scan_mains_has_main, handover_candidates_In,
}
use kubernetes_operator.Planner.Planned.{Planned, demotes, plan-Planned}

-- A retiring data instance carries the name.
abbrev pub Retires : Topology → String → Type 0
Retires t k = (d : DataInstanceSpec) × In d t.retiring_data_instances × (d.name ≡ k)

-- The instance is declared, the coordinator leader reaches it, and SHOW REPLICATION LAG reports it
-- as holding every transaction of MAIN.
abbrev pub CanTakeOver : Topology → List Instance → List ReplicationLag → String → Type 0
CanTakeOver t o lag k =
    ((d : DataInstanceSpec) × In d t.data_instances × (d.name ≡ k))
    × ((i : Instance) × In i o × (i.name ≡ k) × (is_up i ≡ true))
    × ((l : ReplicationLag) × In l lag × (l.instance_name ≡ k) × (is_caught_up l ≡ true))

-- A row that says MAIN.
abbrev pub MainRow : List Instance → String → Type 0
MainRow o k = (i : Instance) × In i o × (i.name ≡ k) × (is_main i ≡ true)

module _ (t : Topology) (o : List Instance) (lag : List ReplicationLag) where
  pub is_named-Retires : (k : String) → is_named (retiring_names t) k ≡ true → Retires t k
  is_named-Retires k h =
      let (d, i, e) =
        In_of_any (λ (d : DataInstanceSpec). d.name == k) t.retiring_data_instances
          (sym (is_named_retiring t k) ∙ h) in
      (d, i, (eq_iff d.name k).0 e)

  pub Retires-is_named : (k : String) → Retires t k → is_named (retiring_names t) k ≡ true
  Retires-is_named k (d, i, e) =
      is_named_retiring t k
      ∙ any_of_In (λ (x : DataInstanceSpec). x.name == k) d t.retiring_data_instances i
          ((eq_iff d.name k).1 e)

  -- A retiring MAIN that the survey names is a row.
  pub retiring_main_row :
      ((survey t o lag).mains.retiring_main == "") ≡ false
      → MainRow o (survey t o lag).mains.retiring_main
        × Retires t (survey t o lag).mains.retiring_main
  unfolding survey
  retiring_main_row h =
      elim (scan_mains_found (retiring_names t) o
        (record { retiring_main = ""; has_main = false })) [
          | inl e ↦ absurd (ground (arith, (eq_iff _ "").1 e))
          | inr (i, j, e, r) ↦ (
            (i, j, e, r.0),
            is_named-Retires _ (subst (λ k. is_named (retiring_names t) k ≡ true) e r.1),
          )
        ]

  handover_facts :
      (survey t o lag).handover ≡ true
      → (((survey t o lag).mains.retiring_main == "") ≡ false)
        × ((survey t o lag).successors
            ≡ handover_candidates (index o) (index_lag lag) t.data_instances)
        × ((survey t o lag).successors ≢ [])
  unfolding survey is_empty
  handover_facts h = ground arith

  pub successors_take_over :
      (k : String)
      → (survey t o lag).handover ≡ true
      → In k (survey t o lag).successors
      → CanTakeOver t o lag k
  successors_take_over k on h =
      let (declared, up, caught) =
        handover_candidates_In o lag t.data_instances k (rw (handover_facts on).1 at h) in
      (declared, registered_up_row o k up, lag_caught_up_row lag k caught)

  -- A plan demotes only a retiring MAIN, and only when a survivor can take over.
  pub demote_needs_survivor :
      (n : String)
      → In (demote_instance n) (plan t o lag)
      → MainRow o n × Retires t n × ((k : String) × CanTakeOver t o lag k)
  demote_needs_survivor n h = from_reason n (plan-Planned t o lag _ h)
    where
      some_successor :
          (names : List String)
          → (survey t o lag).successors ≡ names
          → names ≢ []
          → (k : String) × In k (survey t o lag).successors
      some_successor [] e q = absurd (q refl)
      some_successor (k ∷ ks) e q = (k, rw e (inl refl))

      from_reason :
          (m : String)
          → Planned t (survey t o lag) (leader_name o) (demote_instance m)
          → MainRow o m × Retires t m × ((k : String) × CanTakeOver t o lag k)
      from_reason m (demotes _ on e) =
          let (named, same, found) = handover_facts on in
          let (row, retires) = retiring_main_row named in
          let (k, i) = some_successor (survey t o lag).successors refl found in
          (subst (MainRow o) e row, subst (Retires t) e retires, (k, successors_take_over k on i))

  -- While the survey has no staying MAIN, each row that says MAIN is a retiring one.
  pub no_main_retires :
      (survey t o lag).mains.has_main ≡ false
      → (i : Instance) → In i o
      → is_main i ≡ true
      → is_named (retiring_names t) i.name ≡ true
  unfolding survey
  no_main_retires none i h m = elim (Bool-cases (is_named (retiring_names t) i.name)) [
    | inl r ↦ r
    | inr stays ↦ absurd (
        ground (
          arith,
          scan_mains_has_main (retiring_names t) o
              (record { retiring_main = ""; has_main = false }),
          any_of_In (λ (x : Instance). is_main x && not (is_named (retiring_names t) x.name)) i o h
              (rw (m, stays) refl),
        ))
  ]

  -- The survey names a retiring MAIN where there is one, unless its name is empty.
  pub no_retiring_main :
      ((survey t o lag).mains.retiring_main == "") ≡ true
      → (i : Instance) → In i o
      → is_main i ≡ true
      → is_named (retiring_names t) i.name ≡ true
      → (j : Instance) × In j o × (is_main j ≡ true) × (j.name ≡ "")
  unfolding survey
  no_retiring_main e i h m r =
      let (j, k, q, rj) =
        scan_mains_complete (retiring_names t) o (record { retiring_main = ""; has_main = false }) i
          h (m, r) in
      (j, k, rj.0, q ∙ (eq_iff _ "").0 e)
