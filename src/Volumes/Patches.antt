-- ===== src/Volumes/Patches.antt =====
-- internal/volumes/volumes.go, `Decide`: which claims are patched, and which are reported.
use Prim.Native.Nat.{Ordering}
use kubernetes_operator.Prelude.{
  ℕ, String, ◌≡◌, refl, sym, ap, ◌∙◌, subst, ◌↔◌, ◌⊎◌, inl, inr, Bool, true, false, not, ◌&&◌, ◌||◌,
  Option, none, some, List, [], ◌∷◌, In, ◌==◌, Bool-cases, if◌then◌else◌, emit, In_of_In-emit,
  In-emit, concat,
}
use kubernetes_operator.Prelude.Map.{Map, lookup}
use kubernetes_operator.Prelude.Ranges.{Entries}
use kubernetes_operator.Prelude.Sorted.{sort_by, In-sort_by}
use kubernetes_operator.Volumes.Claims.{Claim, Pod, Role, Patch, Decision}
use kubernetes_operator.Volumes.{
  is_less, pods_by_ordinal, is_mounted, claim_named, decide_bound, decide_claim, decide_claims,
  decide,
}

-- The pod that mounts a claim, and the size that the spec gives its template.
abbrev pub pod_of : {Q : Type 0} → Role Q → Claim Q → Option Pod
pod_of role c = pods_by_ordinal role.pods (λ n. none) c.ordinal

abbrev pub size_of : {Q : Type 0} → Role Q → Claim Q → Option Q
size_of role c = lookup c.template role.desired

In-sorted_emit :
    {Q : Type 0} (p : Claim Q → Bool) (f : Claim Q → String) (n : String) (cs : List (Claim Q))
    → In n (emit p f (sort_by (λ (x : Claim Q). x.name) cs))
      ↔ ((c : Claim Q) × In c cs × (p c ≡ true) × (f c ≡ n))
In-sorted_emit p f n cs = (
  λ h. let (c, i, t, e) = In_of_In-emit p f n _ h in (c, (In-sort_by (λ x. x.name) c cs).0 i, t, e),
  λ (c, i, t, e).
      subst (λ m. In m (emit p f (sort_by (λ x. x.name) cs))) e
        (In-emit p f c _ ((In-sort_by (λ x. x.name) c cs).1 i) t),
)

module _ {Q : Type 0} (cmp : Q → Q → Ordering) where
  -- The claim asks for less than the spec, which gives its template the size.
  abbrev pub is_short : Option Q → Claim Q → Bool
  is_short none c = false
  is_short (some want) c = c.bound && is_less (cmp c.request want)

  -- The claim's volume does not hold what it asks for, the provider has not given up, and not only the
  -- filesystem of an unmounted volume is left to grow.
  abbrev pub is_filling : Option Pod → Claim Q → Bool
  is_filling pod c =
      (c.infeasible == "")
      && (is_less (cmp c.capacity c.request) && (is_mounted pod || not c.resize_pending))

  -- The claim's new size is not usable yet.
  abbrev pub is_growing : Option Q → Option Pod → Claim Q → Bool
  is_growing none pod c = false
  is_growing (some want) pod c = c.bound && (is_less (cmp c.request want) || is_filling pod c)

  -- The provider gave up on the claim, which asks for what the spec wants.
  abbrev pub has_failed : Option Q → Claim Q → Bool
  has_failed none c = false
  has_failed (some want) c =
      c.bound && (not (is_less (cmp c.request want)) && not (c.infeasible == ""))

  bound_effect :
      (want : Q) (pod : Option Pod) (c : Claim Q) (d : Decision Q)
      → ((decide_bound cmp want pod c d).patches ≡ (
          if is_less (cmp c.request want)
          then record { claim = c.name; size = want } ∷ d.patches
          else d.patches))
        × ((decide_bound cmp want pod c d).growing ≡ (
            if is_less (cmp c.request want) || is_filling pod c
            then claim_named c.name pod ∷ d.growing
            else d.growing))
        × ((decide_bound cmp want pod c d).failed ≡ (
            if not (is_less (cmp c.request want)) && not (c.infeasible == "")
            then concat (claim_named c.name pod ∷ ": " ∷ c.infeasible ∷ []) ∷ d.failed
            else d.failed))
  unfolding decide_bound
  bound_effect want pod c d = elim (Bool-cases (is_less (cmp c.request want))) [
    | inl short ↦ simp short (refl, refl, refl)
    | inr enough ↦ elim (Bool-cases (c.infeasible == "")) [
      | inr gave_up ↦ simp (enough, gave_up) (refl, refl, refl)
      | inl feasible ↦ elim (Bool-cases (is_less (cmp c.capacity c.request))) [
        | inr full ↦ simp (enough, feasible, full) (refl, refl, refl)
        | inl filling ↦ elim (Bool-cases (is_mounted pod || not c.resize_pending)) [
          | inr filesystem ↦ simp (enough, feasible, filling, filesystem) (refl, refl, refl)
          | inl waits ↦ elim (Bool-cases (c.resize_error == "")) [
            | inl fine ↦ simp (enough, feasible, filling, waits, fine) (refl, refl, refl)
            | inr failing ↦ simp (enough, feasible, filling, waits, failing) (refl, refl, refl)
          ]
        ]
      ]
    ]
  ]

  -- What one claim adds to the decision about the claims that follow.
  claim_effect :
      (o : Option Q) (pod : Option Pod) (c : Claim Q) (d : Decision Q)
      → ((decide_claim cmp o pod c d).growing
          ≡ (if is_growing o pod c then claim_named c.name pod ∷ d.growing else d.growing))
        × ((decide_claim cmp o pod c d).failed ≡ (
            if has_failed o c
            then concat (claim_named c.name pod ∷ ": " ∷ c.infeasible ∷ []) ∷ d.failed
            else d.failed))
  unfolding decide_claim
  claim_effect none pod c d = (refl, refl)
  claim_effect (some want) pod c d = elim (Bool-cases c.bound) [
    | inl t ↦ let (_, growing, failed) = bound_effect want pod c d in simp t (growing, failed)
    | inr f ↦ simp f (refl, refl)
  ]

  claim_patches :
      (o : Option Q) (pod : Option Pod) (c : Claim Q) (d : Decision Q)
      → ((decide_claim cmp o pod c d).patches ≡ d.patches) × (is_short o c ≡ false)
        ⊎ ((want : Q) × (o ≡ some want)
            × (is_short o c ≡ true)
            × ((decide_claim cmp o pod c d).patches
                ≡ record { claim = c.name; size = want } ∷ d.patches))
  unfolding decide_claim
  claim_patches none pod c d = inl (refl, refl)
  claim_patches (some want) pod c d = elim (Bool-cases c.bound) [
    | inr f ↦ simp f (inl (refl, refl))
    | inl t ↦ elim (Bool-cases (is_less (cmp c.request want))) [
      | inl short ↦
          inr (
            want,
            refl,
            simp (t, short) refl,
            simp t ((bound_effect want pod c d).0 ∙ rw short refl),
          )
      | inr enough ↦
          inl (simp t ((bound_effect want pod c d).0 ∙ rw enough refl), simp (t, enough) refl)
    ]
  ]

  module _ (desired : Map Q) (pods : ℕ → Option Pod) where
    -- The claim behind a patch.
    abbrev pub PatchOf : List (Claim Q) → Patch Q → Type 0
    PatchOf cs p =
        (c : Claim Q) × In c cs
        × (is_short (lookup c.template desired) c ≡ true)
        × (lookup c.template desired ≡ some p.size)
        × (c.name ≡ p.claim)

    claims_patches_from :
        (p : Patch Q) (cs : List (Claim Q))
        → In p (decide_claims cmp desired pods cs).patches
        → PatchOf cs p
    unfolding decide_claims
    claims_patches_from p [] h = absurd h
    claims_patches_from p (c ∷ cs) h =
        let later : In p (decide_claims cmp desired pods cs).patches → PatchOf (c ∷ cs) p =
          λ i. later_claim (claims_patches_from p cs i) in
        elim (claim_patches (lookup c.template desired) (pods c.ordinal) c
          (decide_claims cmp desired pods cs)) [
            | inl (e, _) ↦ later (subst (In p) e h)
            | inr (want, found, short, e) ↦ elim (subst (In p) e h) [
              | inl here ↦ (
                c,
                inl refl,
                short,
                found ∙ ap (λ (q : Patch Q). some q.size) here,
                ap (λ (q : Patch Q). q.claim) here,
              )
              | inr rest ↦ later rest
            ]
          ]
      where
        later_claim : PatchOf cs p → PatchOf (c ∷ cs) p
        later_claim (b, j, short, found, name) = (b, inr j, short, found, name)

    claims_patches_of :
        (p : Patch Q) (cs : List (Claim Q))
        → PatchOf cs p
        → In p (decide_claims cmp desired pods cs).patches
    unfolding decide_claims
    claims_patches_of p [] (b, j, _, _, _) = absurd j
    claims_patches_of p (c ∷ cs) (b, inr j, short, found, name) =
        let ih = claims_patches_of p cs (b, j, short, found, name) in
        elim (claim_patches (lookup c.template desired) (pods c.ordinal) c
          (decide_claims cmp desired pods cs)) [
            | inl (e, _) ↦ subst (In p) (sym e) ih
            | inr (_, _, _, e) ↦ subst (In p) (sym e) (inr ih)
          ]
    claims_patches_of p (c ∷ cs) (b, inl here, short, found, name) =
        elim (claim_patches (lookup c.template desired) (pods c.ordinal) c
          (decide_claims cmp desired pods cs)) [
            | inl (_, enough) ↦
                let short' : is_short (lookup c.template desired) c ≡ true =
                  subst (λ (x : Claim Q). is_short (lookup x.template desired) x ≡ true) (sym here)
                    short in
                cc
            | inr (want, wants, _, e) ↦
                let size : some want ≡ some p.size =
                  sym wants ∙ ap (λ (x : Claim Q). lookup x.template desired) here ∙ found in
                let same : want ≡ p.size = cc in
                let named : c.name ≡ p.claim = ap (λ (x : Claim Q). x.name) here ∙ name in
                subst (In p) (sym e) (inl (λ i. record { claim = named i; size = same i }))
          ]

    claims_growing :
        (cs : List (Claim Q))
        → (decide_claims cmp desired pods cs).growing
          ≡ emit
              (λ c. is_growing (lookup c.template desired) (pods c.ordinal) c)
              (λ c. claim_named c.name (pods c.ordinal))
              cs
    unfolding decide_claims emit
    claims_growing [] = refl
    claims_growing (c ∷ cs) =
        (claim_effect (lookup c.template desired) (pods c.ordinal) c
          (decide_claims cmp desired pods cs)).0
        ∙ elim (Bool-cases (is_growing (lookup c.template desired) (pods c.ordinal) c)) [
          | inl t ↦ rw (t, claims_growing cs) refl
          | inr f ↦ rw (f, claims_growing cs) refl
        ]

    claims_failed :
        (cs : List (Claim Q))
        → (decide_claims cmp desired pods cs).failed
          ≡ emit
              (λ c. has_failed (lookup c.template desired) c)
              (λ c. concat (claim_named c.name (pods c.ordinal) ∷ ": " ∷ c.infeasible ∷ []))
              cs
    unfolding decide_claims emit
    claims_failed [] = refl
    claims_failed (c ∷ cs) =
        (claim_effect (lookup c.template desired) (pods c.ordinal) c
          (decide_claims cmp desired pods cs)).1
        ∙ elim (Bool-cases (has_failed (lookup c.template desired) c)) [
          | inl t ↦ rw (t, claims_failed cs) refl
          | inr f ↦ rw (f, claims_failed cs) refl
        ]

  module _ (range : Map Q → Entries Q) (role : Role Q) where
    -- A patch is made exactly for each bound claim that asks for less than the spec gives its
    -- template, and it grows the claim to that size.
    pub patches_iff :
        (p : Patch Q)
        → In p (decide cmp range role).patches ↔ (
            (c : Claim Q) × In c role.claims
            × (is_short (size_of role c) c ≡ true)
            × (size_of role c ≡ some p.size)
            × (c.name ≡ p.claim))
    unfolding decide
    patches_iff p = (
      λ h.
          let (c, i, short, found, name) = claims_patches_from role.desired _ p _ h in
          (c, (In-sort_by (λ (x : Claim Q). x.name) c role.claims).0 i, short, found, name),
      λ (c, i, short, found, name).
          claims_patches_of role.desired _ p _
            (c, (In-sort_by (λ (x : Claim Q). x.name) c role.claims).1 i, short, found, name),
    )

    -- The claims that are reported as growing are exactly those whose new size is not usable yet, and
    -- those reported as failed are exactly those that the provider gave up on.
    pub growing_iff :
        (n : String)
        → (In n (decide cmp range role).growing ↔ (
            (c : Claim Q) × In c role.claims
            × (is_growing (size_of role c) (pod_of role c) c ≡ true)
            × (claim_named c.name (pod_of role c) ≡ n)))
          × (In n (decide cmp range role).failed ↔ (
              (c : Claim Q) × In c role.claims
              × (has_failed (size_of role c) c ≡ true)
              × (concat (claim_named c.name (pod_of role c) ∷ ": " ∷ c.infeasible ∷ []) ≡ n)))
    unfolding decide
    growing_iff n =
        rw
          (
            claims_growing role.desired (pods_by_ordinal role.pods (λ k. none)) _,
            claims_failed role.desired (pods_by_ordinal role.pods (λ k. none)) _,
          )
          (In-sorted_emit _ _ n role.claims, In-sorted_emit _ _ n role.claims)
