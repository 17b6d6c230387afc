-- ===== src/Controller/Replicas.antt =====
-- internal/controller/memgraphdbcluster_controller.go: the replica counts of a pass, and whether the
-- workloads are ready. Counts and ordinals are `int32` values that are never negative; one past the
-- largest ordinal wraps around to a negative one.
use kubernetes_operator.Prelude.{
  ℕ, ◌+◌, ◌-◌, ◌%◌, ◌^◌, ◌≤◌, ◌<◌, String, ◌≡◌, refl, sym, ap, ◌∙◌, ◌↔◌, ◌⊎◌, inl, inr, Bool, true,
  false, not, ◌&&◌, Option, none, some, List, [], ◌∷◌, In, ltb, eqb, eqb_iff, Bool-cases,
  Option-cases, if◌then◌else◌, concat, arith,
}
use Prim.Native.String.{◌++◌}
use text.Mathlib.TextLemmas.{append-nil, append_assoc}
use kubernetes_operator.Prelude.Decimal.{decimal}
use kubernetes_operator.Prelude.Parse.{ordinal_of, ordinal_of_iff}
use kubernetes_operator.Prelude.Text.{cut_prefix, cut_prefix_iff}
use kubernetes_operator.Topology.{pod_name}
use kubernetes_operator.Rollout.Roles.{Role, in_progress}

unfoldable pub ordinal_after : Option String → Option ℕ
unfolding ordinal_of
ordinal_after none = none
ordinal_after (some suffix) = ordinal_of suffix

-- `podOrdinal`
unfoldable pub pod_ordinal : String → String → Option ℕ
unfolding ordinal_after cut_prefix concat
pod_ordinal stateful_set pod = ordinal_after (cut_prefix (concat (stateful_set ∷ "-" ∷ [])) pod)

abbrev pub max : ℕ → ℕ → ℕ
max a b = if ltb a b then b else a

-- `max(count, ordinal+1)` in `int32`: from 2 ^ 31 on, the sum is negative, and below any count.
abbrev max_next : ℕ → ℕ → ℕ
max_next count ordinal =
    let next = (ordinal + 1) % 2 ^ 32 in if ltb next (2 ^ 31) then max count next else count

unfoldable pub raise_to : Option ℕ → ℕ → ℕ
raise_to none count = count
raise_to (some ordinal) count = max_next count ordinal

unfoldable pub running_from : String → List String → ℕ → ℕ
unfolding raise_to pod_ordinal
running_from stateful_set [] count = count
running_from stateful_set (p ∷ ps) count =
    running_from stateful_set ps (raise_to (pod_ordinal stateful_set p) count)

-- `runningOrdinals`, of the names of the role's pods.
unfoldable pub running_ordinals : String → List String → ℕ
unfolding running_from
running_ordinals stateful_set pods = running_from stateful_set pods 0

-- What the pass reads of a role's StatefulSet.
pub record StatefulSet : Type 0 where
  pub spec_replicas : Option ℕ
  pub status_replicas : ℕ
  pub ready_replicas : ℕ

unfoldable pub current_replicas : Option StatefulSet → ℕ → ℕ
current_replicas none running = running
current_replicas (some sts) running = elim sts.spec_replicas [ none ↦ 0 | some n ↦ n ]

-- `roleReplicas`
pub record RoleReplicas : Type 0 where
  pub name : String
  pub declared : ℕ
  pub applied : ℕ
  pub stateful_set : Option StatefulSet

-- One role's turn of `replicaCounts`.
unfoldable pub role_replicas : String → ℕ → Option StatefulSet → List String → RoleReplicas
unfolding current_replicas running_ordinals
role_replicas name declared sts pods = record {
  name = name;
  declared = declared;
  applied = max declared (current_replicas sts (running_ordinals name pods));
  stateful_set = sts;
}

unfoldable pub required_replicas : RoleReplicas → Role → StatefulSet → ℕ
required_replicas r role sts =
    if in_progress role && eqb sts.status_replicas r.applied then r.applied - 1 else r.applied

unfoldable pub role_ready : RoleReplicas → Role → Option StatefulSet → Bool
unfolding required_replicas
role_ready r role none = false
role_ready r role (some sts) = not (ltb sts.ready_replicas (required_replicas r role sts))

-- `workloadsReady`
unfoldable pub workloads_ready : RoleReplicas → RoleReplicas → Role → Role → Bool
unfolding role_ready
workloads_ready coordinators data_instances coordinator_role data_role =
    role_ready coordinators coordinator_role coordinators.stateful_set
    && role_ready data_instances data_role data_instances.stateful_set

max_above : (a b : ℕ) → b ≤ max a b
max_above a b = ground arith

max_least : (a b : ℕ) → a ≤ max a b
max_least a b = ground arith

raise_to_grows : (o : Option ℕ) (count : ℕ) → count ≤ raise_to o count
unfolding raise_to
raise_to_grows none count = omega arith
raise_to_grows (some n) count = ground arith

running_from_grows :
    (sts : String) (ps : List String) (count : ℕ) → count ≤ running_from sts ps count
unfolding running_from
running_from_grows sts [] count = omega arith
running_from_grows sts (p ∷ ps) count = omega (
  arith,
  raise_to_grows (pod_ordinal sts p) count,
  running_from_grows sts ps (raise_to (pod_ordinal sts p) count),
)

raise_to_above : (n count : ℕ) → n < 2147483647 → n < raise_to (some n) count
unfolding raise_to
raise_to_above n count small =
    let exact : (n + 1) % 4294967296 ≡ n + 1 = omega arith in rw exact (ground arith)

running_from-above :
    (sts : String) (ps : List String) (count : ℕ) (p : String) (n : ℕ)
    → In p ps
    → pod_ordinal sts p ≡ some n
    → n < 2147483647
    → n < running_from sts ps count
unfolding running_from
running_from-above sts [] count p n i e small = absurd i
running_from-above sts (q ∷ ps) count p n (inr i) e small =
    running_from-above sts ps (raise_to (pod_ordinal sts q) count) p n i e small
running_from-above sts (q ∷ ps) count p n (inl s) e small =
    let here : pod_ordinal sts q ≡ some n = ap (pod_ordinal sts) s ∙ e in
    let raised : n < raise_to (pod_ordinal sts q) count = rw here (raise_to_above n count small) in
    omega (arith, raised, running_from_grows sts ps (raise_to (pod_ordinal sts q) count))

dashed_text : (s d : String) → concat (s ∷ "-" ∷ []) ++ d ≡ concat (s ∷ "-" ∷ d ∷ [])
unfolding concat
dashed_text s d = append_assoc s "-" d ∙ ap (λ u. s ++ ("-" ++ u)) (sym (append-nil d))

-- A pod's name gives an ordinal exactly if it is put together from the StatefulSet's name and that
-- ordinal, which an `int32` holds.
pub pod_ordinal_iff :
    (sts pod : String) (n : ℕ)
    → (pod_ordinal sts pod ≡ some n) ↔ ((pod ≡ pod_name sts n) × (n < 2147483648))
unfolding pod_ordinal ordinal_after pod_name
pod_ordinal_iff sts pod n = (
  λ h. elim (Option-cases (cut_prefix (concat (sts ∷ "-" ∷ [])) pod)) [
    | inl nothing ↦ let never : none ≡ some n = rw nothing at h in cc
    | inr (suffix, found) ↦
        let (own, small) = (ordinal_of_iff suffix n).0 (rw found at h) in
        (
          (cut_prefix_iff (concat (sts ∷ "-" ∷ [])) pod suffix).0 found
              ∙ ap (λ u. concat (sts ∷ "-" ∷ []) ++ u) own
              ∙ whole n,
          small,
        )
  ],
  λ (named, small).
      rw ((cut_prefix_iff (concat (sts ∷ "-" ∷ [])) pod (decimal n)).1 (named ∙ sym (whole n)))
        ((ordinal_of_iff (decimal n) n).1 (refl, small)),
)
  where
    whole : (m : ℕ) → concat (sts ∷ "-" ∷ []) ++ decimal m ≡ concat (sts ∷ "-" ∷ decimal m ∷ [])
    whole m = dashed_text sts (decimal m)

-- The count that is applied is no lower than the declared one, nor than the one that the StatefulSet
-- carries.
pub applied_holds :
    (name : String) (declared : ℕ) (sts : StatefulSet) (pods : List String) (n : ℕ)
    → sts.spec_replicas ≡ some n
    → (declared ≤ (role_replicas name declared (some sts) pods).applied)
      × (n ≤ (role_replicas name declared (some sts) pods).applied)
unfolding role_replicas current_replicas
applied_holds name declared sts pods n e = simp e (max_least declared n, max_above declared n)

-- Where there is no StatefulSet, the count that is applied is no lower than the declared one, and it
-- keeps each pod that is left whose ordinal is below the largest `int32`, 2147483647.
pub applied_covers :
    (name : String) (declared : ℕ) (pods : List String) (n : ℕ)
    → In (pod_name name n) pods
    → n < 2147483647
    → (declared ≤ (role_replicas name declared none pods).applied)
      × (n < (role_replicas name declared none pods).applied)
unfolding role_replicas current_replicas running_ordinals
applied_covers name declared pods n i small =
    let above =
      running_from-above name pods 0 (pod_name name n) n i
        ((pod_ordinal_iff name _ n).1 (refl, omega arith)) small in
    (max_least declared _, omega (arith, above, max_above declared (running_from name pods 0)))

-- The role's StatefulSet exists and reports as many ready pods as the count applied, or one less while
-- the role has an outdated pod and all its pods exist.
abbrev pub RoleReady : RoleReplicas → Role → Type 0
RoleReady r role =
    (sts : StatefulSet) × (r.stateful_set ≡ some sts)
    × ((r.applied ≤ sts.ready_replicas)
        ⊎ ((in_progress role ≡ true)
            × (sts.status_replicas ≡ r.applied)
            × (r.applied - 1 ≤ sts.ready_replicas)))

role_ready_iff :
    (r : RoleReplicas) (role : Role) → (role_ready r role r.stateful_set ≡ true) ↔ RoleReady r role
unfolding role_ready required_replicas
role_ready_iff r role = (from r.stateful_set refl, λ (sts, e, h). of sts e h)
  where
    from :
        (o : Option StatefulSet)
        → r.stateful_set ≡ o
        → role_ready r role o ≡ true
        → RoleReady r role
    from none e h = cc
    from (some sts) e h =
        elim (Bool-cases (in_progress role && eqb sts.status_replicas r.applied)) [
          | inl tolerated ↦
              (sts, e, inr (ground arith, ground arith, ground (arith, rw tolerated at h)))
          | inr strict ↦ (sts, e, inl (ground (arith, rw strict at h)))
        ]

    of :
        (sts : StatefulSet)
        → r.stateful_set ≡ some sts
        → ((r.applied ≤ sts.ready_replicas)
            ⊎ ((in_progress role ≡ true)
                × (sts.status_replicas ≡ r.applied)
                × (r.applied - 1 ≤ sts.ready_replicas)))
        → role_ready r role r.stateful_set ≡ true
    of sts e (inl enough) =
        simp e (elim (Bool-cases (in_progress role && eqb sts.status_replicas r.applied)) [
          | inl tolerated ↦ rw tolerated ground (arith, enough)
          | inr strict ↦ rw strict ground (arith, enough)
        ])
    of sts e (inr (rolls, exist, enough)) =
        simp (e, rolls, (eqb_iff _ _).1 exist) ground (arith, enough)

-- Registration starts exactly if both roles are ready.
pub workloads_ready_iff :
    (coordinators data_instances : RoleReplicas) (coordinator_role data_role : Role)
    → (workloads_ready coordinators data_instances coordinator_role data_role ≡ true)
      ↔ (RoleReady coordinators coordinator_role × RoleReady data_instances data_role)
unfolding workloads_ready
workloads_ready_iff c d cr dr = (
  λ h. ((role_ready_iff c cr).0 (ground arith), (role_ready_iff d dr).0 (ground arith)),
  λ (h, k). rw ((role_ready_iff c cr).1 h) ((role_ready_iff d dr).1 k),
)
