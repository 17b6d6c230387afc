-- ===== src/Planner/Rows.antt =====
-- internal/planner/planner.go: what `index`, `coordinatorRegistered`, `leaderName` and the update tests
-- find, by the rows of the observed cluster alone.
use mathlib.Core.Bool.{false≢true}
use kubernetes_operator.Prelude.{
  String, ◌≡◌, ◌≢◌, ◌↔◌, refl, sym, ap, ◌∙◌, subst, ◌⊎◌, inl, inr, true, false, none, some, List,
  [], ◌∷◌, ◌++◌, In, ◌==◌, eq_iff, Bool-cases, Option-cases, arith,
}
use kubernetes_operator.Prelude.Map.{lookup, last_named, lookup-index_into}
use kubernetes_operator.Memgraph.{Instance, CoordinatorSpec, coordinator_name, is_leader}
use kubernetes_operator.Planner.View.{index, coordinator_registered, leader_name}
use kubernetes_operator.Planner.{bolt_moved, yield_from}
use kubernetes_operator.Planner.Progress.{coordinator_named, yield_from_leader}

-- The last row that carries the name.
abbrev pub LastRow : List Instance → String → Instance → Type 0
LastRow o k i = last_named (λ (x : Instance). x.name) k o none ≡ some i

-- The coordinator's last row has a Bolt server.
abbrev pub IsMember : List Instance → CoordinatorSpec → Type 0
IsMember o c = (i : Instance) × LastRow o (coordinator_name c) i × (i.bolt_server ≢ "")

-- The last row of the name has a Bolt server, and not the declared one.
abbrev pub HasMoved : List Instance → String → String → Type 0
HasMoved o k declared =
    (i : Instance) × LastRow o k i × (i.bolt_server ≢ "") × (i.bolt_server ≢ declared)

-- The first row of a leader carries the name.
abbrev pub Leads : List Instance → String → Type 0
Leads o k =
    (before after : List Instance) × (i : Instance) × (o ≡ before ++ (i ∷ after))
    × ((j : Instance) → In j before → is_leader j ≡ false)
    × (is_leader i ≡ true)
    × (i.name ≡ k)

row_iff :
    (o : List Instance) (k : String) (i : Instance) → (lookup k (index o) ≡ some i) ↔ LastRow o k i
unfolding index lookup
row_iff o k i =
    let read = lookup-index_into (λ (x : Instance). x.name) k o [] in
    (λ h. sym read ∙ h, λ h. read ∙ h)

pub differs_iff : (a b : String) → ((a == b) ≡ false) ↔ (a ≢ b)
differs_iff a b = (
  λ h same. absurd (false≢true (sym h ∙ (eq_iff a b).1 same)),
  λ other. elim (Bool-cases (a == b)) [
    | inl same ↦ absurd (other ((eq_iff a b).0 same))
    | inr f ↦ f
  ],
)

pub IsMember-iff :
    (o : List Instance) (c : CoordinatorSpec)
    → (coordinator_registered (index o) c ≡ true) ↔ IsMember o c
unfolding coordinator_registered
IsMember-iff o c = elim (Option-cases (lookup (coordinator_name c) (index o))) [
  | inl nothing ↦
      rw (nothing, coordinator_registered)
        (λ h. cc, λ (i, last, _). let never = (row_iff o (coordinator_name c) i).1 last in cc)
  | inr (r, here) ↦
      rw (here, coordinator_registered)
        (
          λ h. (
            r,
            (row_iff o (coordinator_name c) r).0 here,
            (differs_iff r.bolt_server "").0 (ground arith),
          ),
          λ (i, last, filled).
              let at = (row_iff o (coordinator_name c) i).1 last in
              let same : r ≡ i = cc in
              rw
                ((differs_iff r.bolt_server "").1
                  (subst (λ (x : Instance). x.bolt_server ≢ "") (sym same) filled))
                refl,
        )
]

pub HasMoved-iff :
    (o : List Instance) (k declared : String)
    → (bolt_moved (index o) k declared ≡ true) ↔ HasMoved o k declared
unfolding bolt_moved
HasMoved-iff o k declared = elim (Option-cases (lookup k (index o))) [
  | inl nothing ↦
      rw (nothing, bolt_moved)
        (λ h. cc, λ (i, last, _, _). let never = (row_iff o k i).1 last in cc)
  | inr (r, here) ↦
      rw (here, bolt_moved)
        (
          λ h. (
            r,
            (row_iff o k r).0 here,
            (differs_iff r.bolt_server "").0 (ground arith),
            (differs_iff r.bolt_server declared).0 (ground arith),
          ),
          λ (i, last, filled, other).
              let at = (row_iff o k i).1 last in
              let same : r ≡ i = cc in
              rw
                (
                  (differs_iff r.bolt_server "").1
                      (subst (λ (x : Instance). x.bolt_server ≢ "") (sym same) filled),
                  (differs_iff r.bolt_server declared).1
                      (subst (λ (x : Instance). x.bolt_server ≢ declared) (sym same) other),
                )
                refl,
        )
]

pub Leads-iff : (o : List Instance) (k : String) → k ≢ "" → (leader_name o ≡ k) ↔ Leads o k
unfolding leader_name
Leads-iff [] k named = (
  λ h. absurd (named (sym h)),
  λ (before, after, i, e, _, _, _). absurd (nothing before after i e),
)
  where
    nothing : (before after : List Instance) (i : Instance) → [] ≡ before ++ (i ∷ after) → ⊥
    nothing [] after i e = cc
    nothing (b ∷ before) after i e = cc
Leads-iff (r ∷ o) k named = elim (Bool-cases (is_leader r)) [
  | inl leads ↦ rw leads (
    λ h. ([], o, r, refl, λ j i. absurd i, leads, h),
    λ (before, after, i, e, others, _, at). here before after i e others at leads,
  )
  | inr follows ↦
      let ih = Leads-iff o k named in
      rw follows (
        λ h.
            let (before, after, i, e, others, leads, at) = ih.0 h in
            (
              r ∷ before,
              after,
              i,
              ap (λ x. r ∷ x) e,
              λ j l. elim l [
                | inl same ↦ subst (λ x. is_leader x ≡ false) same follows
                | inr m ↦ others j m
              ],
              leads,
              at,
            ),
        λ (before, after, i, e, others, leads, at).
            ih.1 (later before after i e others leads at follows),
      )
]
  where
    here :
        (before after : List Instance) (i : Instance)
        → r ∷ o ≡ before ++ (i ∷ after)
        → ((j : Instance) → In j before → is_leader j ≡ false)
        → i.name ≡ k
        → is_leader r ≡ true
        → r.name ≡ k
    here [] after i e others at leads =
        let same : r ≡ i = cc in ap (λ (x : Instance). x.name) same ∙ at
    here (b ∷ before) after i e others at leads =
        let same : r ≡ b = cc in
        absurd (false≢true (sym (others b (inl refl)) ∙ ap is_leader (sym same) ∙ leads))

    later :
        (before after : List Instance) (i : Instance)
        → r ∷ o ≡ before ++ (i ∷ after)
        → ((j : Instance) → In j before → is_leader j ≡ false)
        → is_leader i ≡ true
        → i.name ≡ k
        → is_leader r ≡ false
        → Leads o k
    later [] after i e others leads at follows =
        let same : r ≡ i = cc in absurd (false≢true (sym follows ∙ ap is_leader same ∙ leads))
    later (b ∷ before) after i e others leads at follows =
        (before, after, i, cc, λ j l. others j (inr l), leads, at)

pub blank_differs : (c : CoordinatorSpec) → coordinator_name c ≢ ""
blank_differs c = (differs_iff (coordinator_name c) "").0 (coordinator_named c)

-- The variable holds the start value, or the name of a member that leads.
pub yield_from_found :
    (leader : String) (cs : List CoordinatorSpec) (y : String)
    → (yield_from leader cs y ≡ y)
      ⊎ ((c : CoordinatorSpec) × In c cs
          × (coordinator_name c ≡ leader)
          × (yield_from leader cs y ≡ leader))
unfolding yield_from
yield_from_found leader [] y = inl refl
yield_from_found leader (c ∷ cs) y = elim (Bool-cases (coordinator_name c == leader)) [
  | inl t ↦
      let same = (eq_iff (coordinator_name c) leader).0 t in
      inr (c, inl refl, same, rw t (yield_from_leader leader cs))
  | inr f ↦ elim (yield_from_found leader cs y) [
    | inl kept ↦ inl (rw f kept)
    | inr (d, i, e, at) ↦ inr (d, inr i, e, rw f at)
  ]
]
