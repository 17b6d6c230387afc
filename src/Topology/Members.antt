-- ===== src/Topology/Members.antt =====
-- internal/resources/topology.go: the members of a pass, declared and retiring.
use text.Mathlib.TextLemmas.{append_cancel_left, append-nil}
use kubernetes_operator.Prelude.{
  ℕ, zero, suc, ◌+◌, ◌-◌, ◌≤◌, ◌<◌, String, ◌≡◌, ◌≢◌, refl, sym, ap, ◌∙◌, inl, inr, List, [], ◌∷◌,
  ◌++◌, map, In, leb, Bool-cases, concat, arith,
}
use kubernetes_operator.Prelude.Decimal.{decimal, decimal_injective}
use kubernetes_operator.Memgraph.{CoordinatorSpec, DataInstanceSpec, coordinator_name}
use kubernetes_operator.Planner.View.{Topology}
use kubernetes_operator.Topology.{
  Cluster, ExternalAddresses, declared_coordinators, declared_data_instances, data_instance_name,
  coordinator, data_instance, coordinator_id, coordinators_from, data_instances_from,
  declared_topology, retiring_coordinators, retiring_data_instances, pass_topology, Endpoint,
  endpoints_from, coordinator_endpoints, data_endpoints, coordinator_set_name, data_set_name,
  coordinator_instance_name,
}

data_instance_name_injective : (m n : ℕ) → data_instance_name m ≡ data_instance_name n → m ≡ n
unfolding data_instance_name concat
data_instance_name_injective m n p =
    decimal_injective m n
      (sym (append-nil (decimal m)) ∙ append_cancel_left "instance_" _ _ p ∙ append-nil (decimal n))

-- Each data instance of a loop is that of an ordinal in its range.
data_instances_from_ordinal :
    (cluster : Cluster) (external : ℕ → String) (start count : ℕ) (d : DataInstanceSpec)
    → In d (data_instances_from cluster external start count)
    → (n : ℕ) × (start ≤ n) × (n < start + count) × (d.name ≡ data_instance_name n)
unfolding data_instances_from data_instance
data_instances_from_ordinal cluster external start zero d h = absurd h
data_instances_from_ordinal cluster external start (suc count) d (inl e) =
    (start, omega arith, omega arith, sym (ap (λ (x : DataInstanceSpec). x.name) e))
data_instances_from_ordinal cluster external start (suc count) d (inr i) =
    let (n, low, high, named) =
      data_instances_from_ordinal cluster external (suc start) count d i in
    (n, omega (arith, low), omega (arith, high), named)

coordinators_from_ordinal :
    (cluster : Cluster) (external : String) (start count : ℕ) (c : CoordinatorSpec)
    → In c (coordinators_from cluster external start count)
    → (start ≤ c.id) × (c.id < start + count)
unfolding coordinators_from coordinator coordinator_id
coordinators_from_ordinal cluster external start zero c h = absurd h
coordinators_from_ordinal cluster external start (suc count) c (inl e) =
    let same : start ≡ c.id = ap (λ (x : CoordinatorSpec). x.id) e in
    (omega (arith, same), omega (arith, same))
coordinators_from_ordinal cluster external start (suc count) c (inr i) =
    let (low, high) = coordinators_from_ordinal cluster external (suc start) count c i in
    (omega (arith, low), omega (arith, high))

module _ (cluster : Cluster) (set : String) (instance : ℕ → String) where
  names : ℕ → ℕ → List String
  names start count =
      map (λ (e : Endpoint). e.name) (endpoints_from cluster set instance start count)

  names_split : (start m n : ℕ) → names start (m + n) ≡ names start m ++ names (start + m) n
  unfolding names endpoints_from
  names_split start zero n = λ i. names (number i) (rest i)
    where
      number : start ≡ start + 0
      number = omega arith

      rest : 0 + n ≡ n
      rest = omega arith
  names_split start (suc m) n =
      let counts : suc m + n ≡ suc (m + n) = omega arith in
      let starts : suc start + m ≡ start + suc m = omega arith in
      ap (names start) counts
      ∙ ap (λ l. instance start ∷ l) (names_split (suc start) m n)
      ∙ ap (λ k. instance start ∷ (names (suc start) m ++ names k n)) starts

  names_none : (start k : ℕ) → k ≡ 0 → [] ≡ names start k
  unfolding names endpoints_from
  names_none start zero e = refl
  names_none start (suc k) e = absurd (omega (arith, e))

module _ (cluster : Cluster) (external : ExternalAddresses)
    (coordinators_applied data_applied : ℕ) where
  abbrev pub members : Topology
  members = pass_topology cluster external coordinators_applied data_applied

  -- No member is both declared and retiring: the data instances' names differ.
  pub data_apart :
      (d r : DataInstanceSpec)
      → In d members.data_instances
      → In r members.retiring_data_instances
      → d.name ≢ r.name
  unfolding pass_topology declared_topology retiring_data_instances
  data_apart d r i j same = elim (Bool-cases (leb data_applied (declared_data_instances cluster))) [
    | inl grows ↦ absurd (rw grows at j)
    | inr shrinks ↦
        let (m, _, high, named) =
          data_instances_from_ordinal cluster external.data_instances 0
            (declared_data_instances cluster) d i in
        let (n, low, _, named') =
          data_instances_from_ordinal cluster (λ x. "") (declared_data_instances cluster)
            (data_applied - declared_data_instances cluster) r (rw shrinks at j) in
        omega (arith, high, low, data_instance_name_injective m n (sym named ∙ same ∙ named'))
  ]

  -- The coordinators' Raft IDs differ likewise.
  pub ids_apart :
      (c b : CoordinatorSpec)
      → In c members.coordinators
      → In b members.retiring_coordinators
      → c.id ≢ b.id
  unfolding pass_topology declared_topology retiring_coordinators
  ids_apart c b k l same =
      elim (Bool-cases (leb coordinators_applied (declared_coordinators cluster))) [
        | inl grows ↦ absurd (rw grows at l)
        | inr shrinks ↦
            let (_, high) =
              coordinators_from_ordinal cluster external.coordinators 0
                (declared_coordinators cluster) c k in
            let (low, _) =
              coordinators_from_ordinal cluster "" (declared_coordinators cluster)
                (coordinators_applied - declared_coordinators cluster) b (rw shrinks at l) in
            omega (arith, high, low, same)
      ]

data_names :
    (cluster : Cluster) (set : String) (external : ℕ → String) (start count : ℕ)
    → map (λ (d : DataInstanceSpec). d.name) (data_instances_from cluster external start count)
      ≡ names cluster set data_instance_name start count
unfolding data_instances_from data_instance names endpoints_from
data_names cluster set external start zero = refl
data_names cluster set external start (suc count) =
    ap (λ l. data_instance_name start ∷ l) (data_names cluster set external (suc start) count)

coordinator_names :
    (cluster : Cluster) (set external : String) (start count : ℕ)
    → map coordinator_name (coordinators_from cluster external start count)
      ≡ names cluster set coordinator_instance_name start count
unfolding coordinators_from coordinator names endpoints_from coordinator_instance_name
    coordinator_name
coordinator_names cluster set external start zero = refl
coordinator_names cluster set external start (suc count) =
    ap (λ l. coordinator_instance_name start ∷ l)
      (coordinator_names cluster set external (suc start) count)

retiring_coordinator_names :
    (cluster : Cluster) (set : String) (applied : ℕ)
    → map coordinator_name (retiring_coordinators cluster applied)
      ≡ names cluster set coordinator_instance_name
          (declared_coordinators cluster)
          (applied - declared_coordinators cluster)
unfolding retiring_coordinators
retiring_coordinator_names cluster set applied =
    elim (Bool-cases (leb applied (declared_coordinators cluster))) [
      | inl grows ↦ rw grows (
          names_none cluster set coordinator_instance_name (declared_coordinators cluster) _
            (ground arith))
      | inr shrinks ↦ rw shrinks (
          coordinator_names cluster set "" (declared_coordinators cluster)
            (applied - declared_coordinators cluster))
    ]

retiring_data_names :
    (cluster : Cluster) (set : String) (applied : ℕ)
    → map (λ (d : DataInstanceSpec). d.name) (retiring_data_instances cluster applied)
      ≡ names cluster set data_instance_name
          (declared_data_instances cluster)
          (applied - declared_data_instances cluster)
unfolding retiring_data_instances
retiring_data_names cluster set applied =
    elim (Bool-cases (leb applied (declared_data_instances cluster))) [
      | inl grows ↦ rw grows (
          names_none cluster set data_instance_name (declared_data_instances cluster) _
            (ground arith))
      | inr shrinks ↦ rw shrinks (
          data_names cluster set (λ n. "") (declared_data_instances cluster)
            (applied - declared_data_instances cluster))
    ]

names_members :
    (cluster : Cluster) (set : String) (instance : ℕ → String) (declared applied : ℕ)
    → declared ≤ applied
    → names cluster set instance 0 applied
      ≡ names cluster set instance 0 declared
        ++ names cluster set instance declared (applied - declared)
names_members cluster set instance declared applied h =
    let whole : applied ≡ declared + (applied - declared) = omega (arith, h) in
    let start : 0 + declared ≡ declared = omega arith in
    ap (names cluster set instance 0) whole
    ∙ names_split cluster set instance 0 declared (applied - declared)
    ∙ ap
        (λ k.
          names cluster set instance 0 declared
          ++ names cluster set instance k (applied - declared))
        start

joined : {xs xs' ys ys' : List String} → xs ≡ xs' → ys ≡ ys' → xs ++ ys ≡ xs' ++ ys'
joined p q i = p i ++ q i

-- Where the applied counts are no lower than the declared ones, the endpoints of the pods that run
-- carry the names of the declared members and then those of the retiring ones, in this order.
pub endpoints_members :
    (cluster : Cluster) (external : ExternalAddresses) (coordinators_applied data_applied : ℕ)
    → declared_coordinators cluster ≤ coordinators_applied
    → declared_data_instances cluster ≤ data_applied
    → (map (λ (e : Endpoint). e.name) (coordinator_endpoints cluster coordinators_applied)
        ≡ map coordinator_name
            (members cluster external coordinators_applied data_applied).coordinators
          ++ map coordinator_name
              (members cluster external coordinators_applied data_applied).retiring_coordinators)
      × (map (λ (e : Endpoint). e.name) (data_endpoints cluster data_applied)
          ≡ map
              (λ (d : DataInstanceSpec). d.name)
              (members cluster external coordinators_applied data_applied).data_instances
            ++ map
                (λ (d : DataInstanceSpec). d.name)
                (members cluster external coordinators_applied
                  data_applied).retiring_data_instances)
unfolding pass_topology declared_topology coordinator_endpoints data_endpoints names
endpoints_members cluster external ca da hc hd = (
  names_members cluster (coordinator_set_name cluster) coordinator_instance_name
        (declared_coordinators cluster) ca hc
      ∙ sym (
          joined
            (coordinator_names cluster (coordinator_set_name cluster) external.coordinators 0
              (declared_coordinators cluster))
            (retiring_coordinator_names cluster (coordinator_set_name cluster) ca)),
  names_members cluster (data_set_name cluster) data_instance_name (declared_data_instances cluster)
        da hd
      ∙ sym (
          joined
            (data_names cluster (data_set_name cluster) external.data_instances 0
              (declared_data_instances cluster))
            (retiring_data_names cluster (data_set_name cluster) da)),
)
