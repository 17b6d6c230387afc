-- ===== src/Expectations/Trust.antt =====
-- internal/expectations/expectations.go: when a cached StatefulSet is trusted, across sequences of
-- calls.
use kubernetes_operator.Prelude.{
  ◌≡◌, ◌≢◌, ◌↔◌, refl, sym, ap, ◌∙◌, subst, ◌⊎◌, inl, inr, true, false, Option, none, some, List,
  [], ◌∷◌, In, ◌==◌, eq_iff, eq_refl, Bool-cases, arith,
}
use kubernetes_operator.Prelude.Int.{ltb_ℤ, IsBelow, ltb_ℤ_iff}
use kubernetes_operator.Expectations.{
  NamespacedName, same_name, Written, Cached, StatefulSets, expect, forget, caught_up, answer,
  satisfied, Call, wrote, asked, step, after,
}

same_name_refl : (n : NamespacedName) → same_name n n ≡ true
same_name_refl n = rw (eq_refl n.namespace, eq_refl n.name) refl

-- The copy shows the write: the object is gone, or is another one, or is no older than the write.
abbrev pub Shows : Written → Option Cached → Type 0
Shows want none = Unit
Shows want (some c) = (c.uid ≢ want.uid) ⊎ ¬ IsBelow c.generation want.generation

-- The copy is of the object that was written, from before the write.
abbrev pub IsOlder : Written → Option Cached → Type 0
IsOlder want none = ⊥
IsOlder want (some c) = (c.uid ≡ want.uid) × IsBelow c.generation want.generation

-- What a call may do to the name under watch: a write of another name, or a question about another
-- name, or one about this name that a copy of the object older than the write answers.
abbrev pub Leaves : NamespacedName → Written → Call → Type 0
Leaves name want (wrote n w) = n ≢ name
Leaves name want (asked n cached) = (n ≢ name) ⊎ IsOlder want cached

-- The call is not a write of the name.
abbrev pub Reads : NamespacedName → Call → Type 0
Reads name (wrote n w) = same_name n name ≡ false
Reads name (asked n cached) = Unit

pub same_name-path : (a b : NamespacedName) → same_name a b ≡ true → a ≡ b
same_name-path a b h =
    let spaces : a.namespace ≡ b.namespace = (eq_iff a.namespace b.namespace).0 (ground arith) in
    let names : a.name ≡ b.name = (eq_iff a.name b.name).0 (ground arith) in
    λ i. record { namespace = spaces i; name = names i }

apart : (n name : NamespacedName) → n ≢ name → same_name n name ≡ false
apart n name other = elim (Bool-cases (same_name n name)) [
  | inl same ↦ absurd (other (same_name-path n name same))
  | inr f ↦ f
]

caught_up-older :
    (want : Written) (cached : Option Cached) → IsOlder want cached → caught_up want cached ≡ false
unfolding caught_up
caught_up-older want none older = absurd older
caught_up-older want (some c) (same, below) =
    rw ((eq_iff c.uid want.uid).1 same, (ltb_ℤ_iff c.generation want.generation).1 below) refl

caught_up_iff :
    (want : Written) (cached : Option Cached) → (caught_up want cached ≡ true) ↔ Shows want cached
unfolding caught_up
caught_up_iff want none = (λ h. tt, λ h. refl)
caught_up_iff want (some c) = elim (Bool-cases (c.uid == want.uid)) [
  | inr other ↦ rw other (
    λ h. inl (λ same. let t : (c.uid == want.uid) ≡ true = (eq_iff c.uid want.uid).1 same in cc),
    λ h. refl,
  )
  | inl same ↦ elim (Bool-cases (ltb_ℤ c.generation want.generation)) [
    | inl below ↦
        rw (same, below)
          (
            λ h. cc,
            λ h. elim h [
              | inl other ↦ absurd (other ((eq_iff c.uid want.uid).0 same))
              | inr new ↦ absurd (new ((ltb_ℤ_iff c.generation want.generation).0 below))
            ],
          )
    | inr new ↦
        rw (same, new)
          (
            λ h. inr (λ below.
                let t : ltb_ℤ c.generation want.generation ≡ true =
                  (ltb_ℤ_iff c.generation want.generation).1 below in
                cc),
            λ h. refl,
          )
  ]
]

answer_other :
    (s : StatefulSets) (n name : NamespacedName) (cached : Option Cached) (o : Option Written)
    → same_name n name ≡ false
    → (answer s n cached o).1 name ≡ s name
unfolding answer forget
answer_other s n name cached none other = refl
answer_other s n name cached (some w) other = elim (Bool-cases (caught_up w cached)) [
  | inl t ↦ rw (t, other) refl
  | inr f ↦ rw f refl
]

answer_stale :
    (s : StatefulSets) (n name : NamespacedName) (cached : Option Cached) (w : Written)
    → caught_up w cached ≡ false
    → (answer s n cached (some w)).1 name ≡ s name
unfolding answer
answer_stale s n name cached w stale = rw stale refl

-- The answer is yes only if nothing is expected of the name afterwards.
answer_forgets :
    (s : StatefulSets) (name : NamespacedName) (cached : Option Cached) (o : Option Written)
    → s name ≡ o
    → (answer s name cached o).0 ≡ true
    → (answer s name cached o).1 name ≡ none
unfolding answer forget
answer_forgets s name cached none e t = e
answer_forgets s name cached (some w) e t = elim (Bool-cases (caught_up w cached)) [
  | inl c ↦ rw (c, same_name_refl name) refl
  | inr f ↦ let yes : false ≡ true = rw f at t in cc
]

answer-none :
    (s : StatefulSets) (n name : NamespacedName) (cached : Option Cached) (o : Option Written)
    → s name ≡ none
    → (answer s n cached o).1 name ≡ none
unfolding answer forget
answer-none s n name cached none e = e
answer-none s n name cached (some w) e = elim (Bool-cases (caught_up w cached)) [
  | inl c ↦
      rw c
        (elim (Bool-cases (same_name n name)) [ inl same ↦ rw same refl | inr other ↦ rw other e ])
  | inr f ↦ rw f e
]

step-Leaves :
    (s : StatefulSets) (name : NamespacedName) (want : Written) (c : Call)
    → s name ≡ some want
    → Leaves name want c
    → step s c name ≡ some want
unfolding step expect satisfied
step-Leaves s name want (wrote n w) e other = rw (apart n name other) e
step-Leaves s name want (asked n cached) e (inl other) =
    answer_other s n name cached (s n) (apart n name other) ∙ e
step-Leaves s name want (asked n cached) e (inr older) = elim (Bool-cases (same_name n name)) [
  | inr other ↦ answer_other s n name cached (s n) other ∙ e
  | inl same ↦
      subst (λ o. (answer s n cached o).1 name ≡ some want)
        (sym (ap s (same_name-path n name same) ∙ e))
        (answer_stale s n name cached want (caught_up-older want cached older) ∙ e)
]

step-Reads :
    (s : StatefulSets) (name : NamespacedName) (c : Call)
    → s name ≡ none
    → Reads name c
    → step s c name ≡ none
unfolding step expect satisfied
step-Reads s name (wrote n w) e other = rw other e
step-Reads s name (asked n cached) e h = answer-none s n name cached (s n) e

satisfied-some :
    (s : StatefulSets) (name : NamespacedName) (cached : Option Cached) (want : Written)
    → s name ≡ some want
    → (satisfied s name cached).0 ≡ caught_up want cached
unfolding satisfied answer
satisfied-some s name cached want e =
    rw e (elim (Bool-cases (caught_up want cached)) [ inl t ↦ rw t refl | inr f ↦ rw f refl ])

satisfied-none :
    (s : StatefulSets) (name : NamespacedName) (cached : Option Cached)
    → s name ≡ none
    → (satisfied s name cached).0 ≡ true
unfolding satisfied answer
satisfied-none s name cached e = rw e refl

after-Leaves :
    (s : StatefulSets) (name : NamespacedName) (want : Written) (cs : List Call)
    → s name ≡ some want
    → ((c : Call) → In c cs → Leaves name want c)
    → after s cs name ≡ some want
unfolding after
after-Leaves s name want [] e h = e
after-Leaves s name want (c ∷ cs) e h =
    after-Leaves (step s c) name want cs (step-Leaves s name want c e (h c (inl refl)))
      (λ d i. h d (inr i))

after-Reads :
    (s : StatefulSets) (name : NamespacedName) (cs : List Call)
    → s name ≡ none
    → ((c : Call) → In c cs → Reads name c)
    → after s cs name ≡ none
unfolding after
after-Reads s name [] e h = e
after-Reads s name (c ∷ cs) e h =
    after-Reads (step s c) name cs (step-Reads s name c e (h c (inl refl))) (λ d i. h d (inr i))

-- After a write was recorded, and after calls that are about other names or show the object older
-- than the write, the next question is answered with yes exactly if the copy is gone, or is of
-- another object, or is no older than the write.
pub written-satisfied :
    (s : StatefulSets) (name : NamespacedName) (want : Written) (cs : List Call)
    (cached : Option Cached)
    → ((c : Call) → In c cs → Leaves name want c)
    → ((satisfied (after (expect s name want) cs) name cached).0 ≡ true) ↔ Shows want cached
unfolding expect
written-satisfied s name want cs cached h =
    let asks =
      satisfied-some (after (expect s name want) cs) name cached want
        (after-Leaves (expect s name want) name want cs (rw (same_name_refl name) refl) h) in
    let both = caught_up_iff want cached in
    (λ t. both.0 (sym asks ∙ t), λ shows. asks ∙ both.1 shows)

-- Once a copy of the StatefulSet was trusted, each later copy is, until its next write.
pub trusted-satisfied :
    (s : StatefulSets) (name : NamespacedName) (cached later : Option Cached) (cs : List Call)
    → (satisfied s name cached).0 ≡ true
    → ((c : Call) → In c cs → Reads name c)
    → (satisfied (after (satisfied s name cached).1 cs) name later).0 ≡ true
unfolding satisfied
trusted-satisfied s name cached later cs t h =
    satisfied-none (after (satisfied s name cached).1 cs) name later (
      after-Reads (satisfied s name cached).1 name cs (answer_forgets s name cached (s name) refl t)
        h)
