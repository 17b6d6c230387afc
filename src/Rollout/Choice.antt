-- ===== src/Rollout/Choice.antt =====
-- internal/rollout/rollout.go: what the tests on a role find.
use kubernetes_operator.Prelude.{
  ◌≤◌, String, ◌≡◌, ◌≢◌, refl, subst, ◌⊎◌, inl, inr, true, Option, none, some, List, [], ◌∷◌,
  length, In, ltb, eqb, ltb→lt, eqb_iff, ◌==◌, eq_iff, Bool-cases, arith,
}
use kubernetes_operator.Prelude.Map.{Map}
use kubernetes_operator.Memgraph.{Instance, ReplicationLag}
use kubernetes_operator.Planner.View.{registered_up, lag_caught_up}
use kubernetes_operator.Rollout.Roles.{
  Pod, Role, Decision, done, wait, delete, first_unready, present, better, highest_from,
  highest_ordinal_except,
}
use kubernetes_operator.Rollout.{replicating, coordinators_back}

-- There is something to wait for.
abbrev pub Waits : Option Decision → Type 0
Waits none = ⊥
Waits (some done) = ⊥
Waits (some (wait reason message)) = Unit
Waits (some (delete pod reason message)) = ⊥

module _ (instance : String) where
  -- What the loop's variable says of the pods that were met: each runs the instance, or it holds the
  -- highest of those that do not.
  abbrev pub Highest : (Pod → Type 0) → Option Pod → Type 0
  Highest Met none = (q : Pod) → Met q → q.instance_name ≡ instance
  Highest Met (some p) =
      Met p
      × (p.instance_name ≢ instance)
      × ((q : Pod) → Met q → q.instance_name ≢ instance → q.ordinal ≤ p.ordinal)

  Highest-same :
      (Met Met' : Pod → Type 0) (o : Option Pod)
      → ((q : Pod) → Met q → Met' q)
      → ((q : Pod) → Met' q → Met q)
      → Highest Met o
      → Highest Met' o
  Highest-same Met Met' none to from h = λ q m. h q (from q m)
  Highest-same Met Met' (some p) to from h = (to p h.0, h.1, λ q m n. h.2 q (from q m) n)

  Highest-skip :
      (Met : Pod → Type 0) (x : Pod) (o : Option Pod)
      → x.instance_name ≡ instance
      → Highest Met o
      → Highest (λ q. Met q ⊎ (x ≡ q)) o
  Highest-skip Met x none e h = λ q m. elim m [
    | inl old ↦ h q old
    | inr s ↦ subst (λ (y : Pod). y.instance_name ≡ instance) s e
  ]
  Highest-skip Met x (some p) e h = (
    inl h.0,
    h.1,
    λ q m n. elim m [
      | inl old ↦ h.2 q old n
      | inr s ↦ absurd (n (subst (λ (y : Pod). y.instance_name ≡ instance) s e))
    ],
  )

  Highest-better :
      (Met : Pod → Type 0) (x : Pod) (o : Option Pod)
      → x.instance_name ≢ instance
      → Highest Met o
      → Highest (λ q. Met q ⊎ (x ≡ q)) (better x o)
  unfolding better
  Highest-better Met x none n h = (
    inr refl,
    n,
    λ q m other. elim m [
      | inl old ↦ absurd (other (h q old))
      | inr s ↦ subst (λ (y : Pod). y.ordinal ≤ x.ordinal) s (omega arith)
    ],
  )
  Highest-better Met x (some p) n h = elim (Bool-cases (ltb p.ordinal x.ordinal)) [
    | inl higher ↦ rw higher (
      inr refl,
      n,
      λ q m other. elim m [
        | inl old ↦ omega (arith, h.2 q old other, ltb→lt p.ordinal x.ordinal higher)
        | inr s ↦ subst (λ (y : Pod). y.ordinal ≤ x.ordinal) s (omega arith)
      ],
    )
    | inr lower ↦ rw lower (
      inl h.0,
      h.1,
      λ q m other. elim m [
        | inl old ↦ h.2 q old other
        | inr s ↦ subst (λ (y : Pod). y.ordinal ≤ p.ordinal) s (ground arith)
      ],
    )
  ]

  Highest-from :
      (Met : Pod → Type 0) (ps : List Pod) (o : Option Pod)
      → Highest Met o
      → Highest (λ q. Met q ⊎ In q ps) (highest_from ps instance o)
  unfolding highest_from
  Highest-from Met [] o h =
      Highest-same Met _ o (λ q m. inl m) (λ q m. elim m [ inl a ↦ a | inr b ↦ absurd b ]) h
  Highest-from Met (x ∷ ps) o h =
      Highest-same (λ q. (Met q ⊎ (x ≡ q)) ⊎ In q ps) (λ q. Met q ⊎ In q (x ∷ ps)) _
        (λ q m. elim m [
          | inl a ↦ elim a [ inl b ↦ inl b | inr s ↦ inr (inl s) ]
          | inr c ↦ inr (inr c)
        ])
        (λ q m. elim m [
          | inl a ↦ inl (inl a)
          | inr c ↦ elim c [ inl s ↦ inl (inr s) | inr d ↦ inr d ]
        ])
        (elim (Bool-cases (x.instance_name == instance)) [
          | inl same ↦
              Highest-from (λ q. Met q ⊎ (x ≡ q)) ps _
                (rw same (Highest-skip Met x o ((eq_iff x.instance_name instance).0 same) h))
          | inr other ↦
              Highest-from (λ q. Met q ⊎ (x ≡ q)) ps _
                (rw other (
                  Highest-better Met x o
                    (λ e. ground (arith, other, (eq_iff x.instance_name instance).1 e)) h))
        ])

  -- `highestOrdinalExcept` finds the highest pod that does not run the instance, if there is one.
  pub highest_ordinal_except_lem :
      (ps : List Pod) → Highest (λ q. In q ps) (highest_ordinal_except ps instance)
  unfolding highest_ordinal_except
  highest_ordinal_except_lem ps =
      Highest-same (λ q. ⊥ ⊎ In q ps) (λ q. In q ps) _
        (λ q m. elim m [ inl a ↦ absurd a | inr b ↦ b ]) (λ q m. inr m)
        (Highest-from (λ q. ⊥) ps none (λ q m. absurd m))

-- `present` finds nothing exactly when each pod of the role exists and is ready; else it waits.
first_unready_all :
    (ps : List Pod)
    → ((first_unready ps ≡ none) × ((p : Pod) → In p ps → p.ready ≡ true))
      ⊎ Waits (first_unready ps)
unfolding first_unready
first_unready_all [] = inl (refl, λ p i. absurd i)
first_unready_all (p ∷ ps) = elim (Bool-cases p.ready) [
  | inr f ↦ inr (rw f tt)
  | inl t ↦ elim (first_unready_all ps) [
    | inl (e, h) ↦
        inl (
          rw t e,
          λ q i. elim i [ inl s ↦ subst (λ (y : Pod). y.ready ≡ true) s t | inr j ↦ h q j ],
        )
    | inr w ↦ inr (rw t w)
  ]
]

abbrev pub AllPresent : Role → Type 0
AllPresent r = (length r.pods ≡ r.replicas) × ((p : Pod) → In p r.pods → p.ready ≡ true)

pub present_cases : (r : Role) → ((present r ≡ none) × AllPresent r) ⊎ Waits (present r)
unfolding present
present_cases r = elim (Bool-cases (eqb (length r.pods) r.replicas)) [
  | inr short ↦ inr (rw short tt)
  | inl full ↦ elim (first_unready_all r.pods) [
    | inl (e, h) ↦ inl (rw full e, ((eqb_iff _ _).0 full, h))
    | inr w ↦ inr (rw full w)
  ]
]

pub replicating_cases :
    (ps : List Pod) (instances : Map Instance) (lags : Map ReplicationLag)
    → ((replicating ps instances lags ≡ none)
        × ((p : Pod)
            → In p ps
            → (registered_up instances p.instance_name ≡ true)
              × (lag_caught_up lags p.instance_name ≡ true)))
      ⊎ Waits (replicating ps instances lags)
unfolding replicating
replicating_cases [] instances lags = inl (refl, λ p i. absurd i)
replicating_cases (p ∷ ps) instances lags =
    elim (Bool-cases (registered_up instances p.instance_name)) [
      | inr down ↦ inr (rw down tt)
      | inl up ↦ elim (Bool-cases (lag_caught_up lags p.instance_name)) [
        | inr behind ↦ inr (rw (up, behind) tt)
        | inl caught ↦ elim (replicating_cases ps instances lags) [
          | inl (e, h) ↦ inl (
            rw (up, caught) e,
            λ q i. elim i [
              | inl s ↦
                  subst
                    (λ (y : Pod).
                      (registered_up instances y.instance_name ≡ true)
                      × (lag_caught_up lags y.instance_name ≡ true))
                    s (up, caught)
              | inr j ↦ h q j
            ],
          )
          | inr w ↦ inr (rw (up, caught) w)
        ]
      ]
    ]

pub coordinators_back_cases :
    (ps : List Pod) (instances : Map Instance)
    → ((coordinators_back ps instances ≡ none)
        × ((p : Pod) → In p ps → registered_up instances p.instance_name ≡ true))
      ⊎ Waits (coordinators_back ps instances)
unfolding coordinators_back
coordinators_back_cases [] instances = inl (refl, λ p i. absurd i)
coordinators_back_cases (p ∷ ps) instances =
    elim (Bool-cases (registered_up instances p.instance_name)) [
      | inr down ↦ inr (rw down tt)
      | inl up ↦ elim (coordinators_back_cases ps instances) [
        | inl (e, h) ↦ inl (
          rw up e,
          λ q i. elim i [
            | inl s ↦ subst (λ (y : Pod). registered_up instances y.instance_name ≡ true) s up
            | inr j ↦ h q j
          ],
        )
        | inr w ↦ inr (rw up w)
      ]
    ]
