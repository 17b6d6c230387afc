-- ===== src/Controller/Pass/Recorded.antt =====
-- internal/controller/memgraphdbcluster_controller.go, `shedRetiredPods`: what the loop over the roles
-- records of their StatefulSets.
use kubernetes_operator.Prelude.{
  ◌≡◌, ◌≢◌, refl, ap, ◌∙◌, ◌⊎◌, inl, inr, false, List, [], ◌∷◌, In, In-append, Bool-cases,
  if◌then◌else◌,
}
use kubernetes_operator.Planner.View.{is_empty}
use kubernetes_operator.Expectations.{NamespacedName, StatefulSets, same_name, expect}
use kubernetes_operator.Expectations.Trust.{same_name-path}
use kubernetes_operator.Controller.Replicas.{RoleReplicas}
use kubernetes_operator.Controller.Pass.Calls.{
  World, not_owned, not_applied, applied, ApplyAnswer, shed_answered, shed_roles, retiring_roles,
}
use kubernetes_operator.Controller.Pass.Parts.{Inputs, topology_of}

expect_other :
    (shrinks : StatefulSets) (n name : NamespacedName) (w : _)
    → same_name n name ≡ false
    → expect shrinks n w name ≡ shrinks name
unfolding expect
expect_other shrinks n name w other = rw other refl

only_retiring :
    {A : Type 0} (xs : List A) (r q : RoleReplicas)
    → In q (if is_empty xs then [] else r ∷ [])
    → (r ≡ q) × (xs ≢ [])
unfolding is_empty
only_retiring [] r q i = absurd i
only_retiring (x ∷ xs) r q (inl same) = (same, λ none_left. cc)
only_retiring (x ∷ xs) r q (inr never) = absurd never

module _ {S Connection : Type 0} (world : World S Connection) (p : Inputs) where
  -- The StatefulSet of a role.
  abbrev pub set_of : RoleReplicas → NamespacedName
  set_of r = record { namespace = p.cluster.namespace; name = r.name }

  shed_answered-shrinks :
      (r : RoleReplicas) (rs : List RoleReplicas) (shrinks : StatefulSets) (x : ApplyAnswer × S)
      (name : NamespacedName)
      → ((later : StatefulSets) (s : S)
          → (shed_roles world p.cluster rs later s).shrinks name ≢ later name
          → (q : RoleReplicas) × In q rs × (set_of q ≡ name))
      → (shed_answered world p.cluster r shrinks x (shed_roles world p.cluster rs)).shrinks name
        ≢ shrinks name
      → (q : RoleReplicas) × In q (r ∷ rs) × (set_of q ≡ name)
  unfolding shed_answered
  shed_answered-shrinks r rs shrinks (not_owned e, s) name later h = absurd (h refl)
  shed_answered-shrinks r rs shrinks (not_applied e, s) name later h = absurd (h refl)
  shed_answered-shrinks r rs shrinks (applied w, s) name later h =
      elim (Bool-cases (same_name (set_of r) name)) [
        | inl same ↦ (r, inl refl, same_name-path (set_of r) name same)
        | inr other ↦
            let (q, i, named) =
              later (expect shrinks (set_of r) w) s
                (λ e. h (e ∙ expect_other shrinks (set_of r) name w other)) in
            (q, inr i, named)
      ]

  pub shed_roles-shrinks :
      (rs : List RoleReplicas) (shrinks : StatefulSets) (s : S) (name : NamespacedName)
      → (shed_roles world p.cluster rs shrinks s).shrinks name ≢ shrinks name
      → (q : RoleReplicas) × In q rs × (set_of q ≡ name)
  unfolding shed_roles
  shed_roles-shrinks [] shrinks s name h = absurd (h refl)
  shed_roles-shrinks (r ∷ rs) shrinks s name h =
      shed_answered-shrinks r rs shrinks (world.apply r.name r.declared s) name
        (λ later t. shed_roles-shrinks rs later t name) h

  -- The StatefulSet is that of a role which has members that retire.
  abbrev pub IsRetiring : NamespacedName → Type 0
  IsRetiring name =
      ((set_of p.coordinators ≡ name) × ((topology_of p).retiring_coordinators ≢ []))
      ⊎ ((set_of p.data_instances ≡ name) × ((topology_of p).retiring_data_instances ≢ []))

  pub retiring_roles-IsRetiring :
      (q : RoleReplicas) (name : NamespacedName)
      → In q (retiring_roles (topology_of p) p.coordinators p.data_instances)
      → set_of q ≡ name
      → IsRetiring name
  unfolding retiring_roles
  retiring_roles-IsRetiring q name i named =
      elim (In-append q
        (if is_empty (topology_of p).retiring_coordinators then [] else p.coordinators ∷ []) _ i) [
          | inl first ↦
              let (same, some_left) =
                only_retiring (topology_of p).retiring_coordinators p.coordinators q first in
              inl (ap set_of same ∙ named, some_left)
          | inr second ↦
              let (same, some_left) =
                only_retiring (topology_of p).retiring_data_instances p.data_instances q second in
              inr (ap set_of same ∙ named, some_left)
        ]
