-- ===== src/Controller/Observing/Seen.antt =====
-- internal/controller/memgraphdbcluster_controller.go, `observeRolloutRole`: which pods a role has.
use kubernetes_operator.Prelude.{
  ℕ, zero, suc, ◌+◌, ◌≤◌, ◌<◌, String, ◌≡◌, ◌≢◌, refl, sym, ap, ◌∙◌, subst, ◌↔◌, ◌⊎◌, inl, inr,
  true, false, Option, none, some, List, [], ◌∷◌, In, eqb, eqb_iff, Bool-cases, arith, eq_iff, ◌==◌,
  ◌++◌,
}
use mathlib.Core.Bool.{false≢true}
use kubernetes_operator.Prelude.Map.{
  Map, lookup, index_into, lookup-index_into, last_named-In, last_named_of_In,
}
use kubernetes_operator.Prelude.Sorted.{Distinct, Distinct-once}
use kubernetes_operator.Rollout.Roles.{Pod}
use kubernetes_operator.Topology.{pod_name}
use kubernetes_operator.Controller.Observing.{
  PodRead, SetRead, ObservedRole, pod_ready, or_absent, found_from, pod_seen, pods_seen, is_stale,
  role_of_pods, observe_rollout_role,
}

-- The map by the names has the pod that is listed under a name.
listed_iff :
    (pods : List PodRead) (k : String) (p : PodRead)
    → Distinct (λ (x : PodRead). x.name) pods
    → (lookup k (index_into (λ (x : PodRead). x.name) pods []) ≡ some p)
      ↔ (In p pods × (p.name ≡ k))
unfolding lookup
listed_iff pods k p alone =
    let read = lookup-index_into (λ (x : PodRead). x.name) k pods [] in
    (
      λ h. elim (last_named-In (λ x. x.name) k pods none p (sym read ∙ h)) [
        | inl found ↦ found
        | inr never ↦ cc
      ],
      λ (i, named).
          let (q, last) = last_named_of_In (λ (x : PodRead). x.name) k pods none p i named in
          elim (last_named-In (λ (x : PodRead). x.name) k pods none q last) [
            | inl (j, also) ↦
                let same =
                  Distinct-once (λ (x : PodRead). x.name) pods q p alone j i (also ∙ sym named) in
                read ∙ last ∙ ap some same
            | inr never ↦ cc
          ],
    )

or_absent_iff :
    (start : ℕ) (o : Option PodRead) (rest : List (ℕ × PodRead)) (n : ℕ) (p : PodRead)
    → In (n, p) (or_absent start o rest) ↔ (((start ≡ n) × (o ≡ some p)) ⊎ In (n, p) rest)
unfolding or_absent
or_absent_iff start none rest n p = (λ i. inr i, λ h. elim h [ inl (_, e) ↦ cc | inr i ↦ i ])
or_absent_iff start (some q) rest n p = (
  λ i. elim i [
    | inl e ↦ inl (ap (λ (x : ℕ × PodRead). x.0) e, ap (λ (x : ℕ × PodRead). some x.1) e)
    | inr later ↦ inr later
  ],
  λ h. elim h [
    | inl (at, e) ↦ let same : q ≡ p = cc in inl (λ k. (at k, same k))
    | inr later ↦ inr later
  ],
)

found_from_iff :
    (set : String) (by_name : Map PodRead) (start count n : ℕ) (p : PodRead)
    → In (n, p) (found_from set by_name start count)
      ↔ ((start ≤ n) × (n < start + count) × (lookup (pod_name set n) by_name ≡ some p))
unfolding found_from
found_from_iff set by_name start zero n p = (λ i. absurd i, λ (low, high, _). absurd (omega arith))
found_from_iff set by_name start (suc count) n p =
    let here =
      or_absent_iff start (lookup (pod_name set start) by_name)
        (found_from set by_name (suc start) count) n p in
    let later = found_from_iff set by_name (suc start) count n p in
    (
      λ i. elim (here.0 i) [
        | inl (at, e) ↦
            (omega arith, omega arith, ap (λ k. lookup (pod_name set k) by_name) (sym at) ∙ e)
        | inr j ↦ let (low, high, e) = later.0 j in (omega arith, omega arith, e)
      ],
      λ (low, high, e). elim (Bool-cases (eqb start n)) [
        | inl t ↦
            let at : start ≡ n = (eqb_iff start n).0 t in
            here.1 (inl (at, ap (λ k. lookup (pod_name set k) by_name) at ∙ e))
        | inr f ↦ here.1 (inr (later.1 (ground arith, omega arith, e)))
      ],
    )

-- A text of conditions whose first one of the type Ready is True.
abbrev pub FirstReady : List (String × String) → Type 0
FirstReady conditions =
    (before : List (String × String)) × (after : List (String × String)) × (conditions
      ≡ before ++ (("Ready", "True") ∷ after))
    × ((c : String × String) → In c before → c.0 ≢ "Ready")

pod_ready_iff : (cs : List (String × String)) → (pod_ready cs ≡ true) ↔ FirstReady cs
unfolding pod_ready
pod_ready_iff [] = (λ h. cc, λ (before, after, e, _). absurd (nothing before after e))
  where
    nothing :
        (before after : List (String × String)) → [] ≡ before ++ (("Ready", "True") ∷ after) → ⊥
    nothing [] after e = cc
    nothing (c ∷ before) after e = cc
pod_ready_iff ((t, status) ∷ cs) = elim (Bool-cases (t == "Ready")) [
  | inl is ↦
      let typed : t ≡ "Ready" = (eq_iff t "Ready").0 is in
      rw is (
        λ h.
            let stated : status ≡ "True" = (eq_iff status "True").0 h in
            ([], cs, (λ k. (typed k, stated k) ∷ cs), λ c i. absurd i),
        λ (before, after, e, others). (eq_iff status "True").1 (first before after e others typed),
      )
  | inr other ↦
      let ih = pod_ready_iff cs in
      rw other (
        λ h.
            let (before, after, e, others) = ih.0 h in
            (
              (t, status) ∷ before,
              after,
              ap (λ x. (t, status) ∷ x) e,
              λ c i. elim i [
                | inl here ↦ λ same.
                    let is : (t == "Ready") ≡ true =
                      (eq_iff t "Ready").1 (ap (λ (x : String × String). x.0) here ∙ same) in
                    absurd (false≢true (sym other ∙ is))
                | inr j ↦ others c j
              ],
            ),
        λ (before, after, e, others). ih.1 (rest before after e others other),
      )
]
  where
    first :
        (before after : List (String × String))
        → (t, status) ∷ cs ≡ before ++ (("Ready", "True") ∷ after)
        → ((c : String × String) → In c before → c.0 ≢ "Ready")
        → t ≡ "Ready"
        → status ≡ "True"
    first [] after e others typed =
        let pair : (t, status) ≡ ("Ready", "True") = cc in ap (λ (x : String × String). x.1) pair
    first (c ∷ before) after e others typed =
        let pair : (t, status) ≡ c = cc in
        absurd (others c (inl refl) (ap (λ (x : String × String). x.0) (sym pair) ∙ typed))

    rest :
        (before after : List (String × String))
        → (t, status) ∷ cs ≡ before ++ (("Ready", "True") ∷ after)
        → ((c : String × String) → In c before → c.0 ≢ "Ready")
        → (t == "Ready") ≡ false
        → FirstReady cs
    rest [] after e others other =
        let pair : (t, status) ≡ ("Ready", "True") = cc in
        let is : (t == "Ready") ≡ true =
          (eq_iff t "Ready").1 (ap (λ (x : String × String). x.0) pair) in
        cc
    rest (c ∷ before) after e others other = (before, after, cc, λ d i. others d (inr i))

pods_seen_iff :
    (f : ℕ → String) (found : List (ℕ × PodRead)) (x : Pod)
    → In x (pods_seen f found) ↔ ((n : ℕ) × (p : PodRead) × In (n, p) found × (pod_seen f n p ≡ x))
unfolding pods_seen
pods_seen_iff f [] x = (λ i. absurd i, λ (n, p, i, _). absurd i)
pods_seen_iff f ((m, q) ∷ found) x = (
  λ i. elim i [
    | inl here ↦ (m, q, inl refl, here)
    | inr later ↦ let (n, p, j, e) = (pods_seen_iff f found x).0 later in (n, p, inr j, e)
  ],
  λ (n, p, i, e). elim i [
    | inl here ↦ inl (ap (λ (y : ℕ × PodRead). pod_seen f y.0 y.1) here ∙ e)
    | inr j ↦ inr ((pods_seen_iff f found x).1 (n, p, j, e))
  ],
)

-- The ordinals grow along the list, from the given one.
abbrev pub Ascending : ℕ → List Pod → Type 0
Ascending start [] = Unit
Ascending start (p ∷ ps) = (start ≤ p.ordinal) × Ascending (suc p.ordinal) ps

Ascending-lower : (start : ℕ) (ps : List Pod) → Ascending (suc start) ps → Ascending start ps
Ascending-lower start [] h = tt
Ascending-lower start (p ∷ ps) h = (omega (arith, h.0), h.1)

pods_seen-Ascending :
    (f : ℕ → String) (set : String) (by_name : Map PodRead) (start count : ℕ)
    → Ascending start (pods_seen f (found_from set by_name start count))
unfolding found_from pods_seen
pods_seen-Ascending f set by_name start zero = tt
pods_seen-Ascending f set by_name start (suc count) =
    turn (lookup (pod_name set start) by_name) (found_from set by_name (suc start) count)
      (pods_seen-Ascending f set by_name (suc start) count)
  where
    turn :
        (o : Option PodRead) (rest : List (ℕ × PodRead))
        → Ascending (suc start) (pods_seen f rest)
        → Ascending start (pods_seen f (or_absent start o rest))
    turn none rest h = unfold or_absent in Ascending-lower start _ h
    turn (some p) rest h = unfold or_absent in unfold pod_seen in (omega arith, h)

is_stale_iff :
    (sts : SetRead) (g : ℕ)
    → (is_stale sts g ≡ false) ↔ ((g ≤ sts.generation) × (sts.observed_generation ≡ sts.generation))
unfolding is_stale
is_stale_iff sts g = (
  λ h. (ground arith, (eqb_iff _ _).0 (ground arith)),
  λ (applied, seen). rw ((eqb_iff sts.observed_generation sts.generation).1 seen) ground arith,
)

pod_seen-ready_iff :
    (f : ℕ → String) (n : ℕ) (p : PodRead)
    → ((pod_seen f n p).ready ≡ true) ↔ ((p.is_deleting ≡ false) × FirstReady p.conditions)
unfolding pod_seen
pod_seen-ready_iff f n p = (
  λ h. (ground arith, (pod_ready_iff p.conditions).0 (ground arith)),
  λ (stays, ready). rw (stays, (pod_ready_iff p.conditions).1 ready) refl,
)

-- What the pass is to see of a role: its pods are those that are listed under the name of an ordinal
-- below the count, in the order of the ordinals; which of them are ready; and whether the role is judged.
abbrev pub Sees : String → ℕ → SetRead → (ℕ → String) → ℕ → List PodRead → ObservedRole → Type 0
Sees name applied sts f g pods o =
    ((x : Pod)
      → In x o.role.pods ↔ (
          (n : ℕ) × (p : PodRead) × (n < applied)
          × In p pods
          × (p.name ≡ pod_name name n)
          × (pod_seen f n p ≡ x)))
    × Ascending 0 o.role.pods
    × ((n : ℕ) (p : PodRead)
        → ((pod_seen f n p).ready ≡ true) ↔ ((p.is_deleting ≡ false) × FirstReady p.conditions))
    × ((o.role.stale ≡ false) ↔ ((g ≤ sts.generation) × (sts.observed_generation ≡ sts.generation)))

-- The pods of a role are those that are listed under the name of an ordinal below the count that is
-- applied, in the order of the ordinals. A pod is ready exactly if it is not being deleted and its
-- first condition of the type Ready is True. The role is judged exactly if its StatefulSet was read
-- no older than the apply left it, and its status describes that generation. No two pods of the list
-- have one name.
pub role_seen :
    (name : String) (applied : ℕ) (sts : SetRead) (f : ℕ → String) (g : ℕ) (pods : List PodRead)
    (o : ObservedRole)
    → Distinct (λ (p : PodRead). p.name) pods
    → observe_rollout_role name applied (some sts) f g (inr pods) ≡ inr o
    → Sees name applied sts f g pods o
unfolding observe_rollout_role role_of_pods
role_seen name applied sts f g pods o alone e =
    let by_name = index_into (λ (p : PodRead). p.name) pods [] in
    let same : role_of_pods name applied sts f g pods ≡ o = cc in
    let in_list : (n : ℕ) (p : PodRead) → _ = λ n p. listed_iff pods (pod_name name n) p alone in
    subst (Sees name applied sts f g pods) same (
      λ x. (
        λ i.
            let (n, p, j, seen) = (pods_seen_iff f _ x).0 i in
            let (_, below, found) = (found_from_iff name by_name 0 applied n p).0 j in
            let (listed, named) = (in_list n p).0 found in (n, p, omega arith, listed, named, seen),
        λ (n, p, below, listed, named, seen). (pods_seen_iff f _ x).1 (
          n,
          p,
          (found_from_iff name by_name 0 applied n p).1
              (omega arith, omega arith, (in_list n p).1 (listed, named)),
          seen,
        ),
      ),
      pods_seen-Ascending f name by_name 0 applied,
      pod_seen-ready_iff f,
      is_stale_iff sts g,
    )
