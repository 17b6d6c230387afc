-- ===== src/Volumes/Resize.antt =====
-- internal/volumes/volumes.go: the steps of a resize, one `Decide` after another.
use Prim.Native.Nat.{Ordering}
use kubernetes_operator.Prelude.{
  ◌≡◌, ◌≢◌, eq_iff, refl, sym, ap, ◌∙◌, subst, ◌↔◌, ◌⊎◌, inl, inr, true, false, Option, none, some,
  List, [], ◌∷◌, map, In, no_members, In_of_In-map, ◌==◌, Bool-cases, if◌then◌else◌, arith,
}
use mathlib.Core.Bool.{false≢true}
use kubernetes_operator.Prelude.Sorted.{Distinct, Distinct-once}
use kubernetes_operator.Prelude.Map.{Map, lookup}
use kubernetes_operator.Prelude.Ranges.{Entries, IsRange}
use kubernetes_operator.Volumes.Claims.{Claim, Role, Patch}
use kubernetes_operator.Volumes.{is_less, decide}
use kubernetes_operator.Volumes.Patches.{is_short, size_of, patches_iff}
use kubernetes_operator.Volumes.Recreate.{Grew, recreate_iff}

module _ {Q : Type 0} (cmp : Q → Q → Ordering) where
  -- The claim once the patches were applied: its name's patch, if there is one, sets what it asks for.
  abbrev pub applied_to : List (Patch Q) → Claim Q → Claim Q
  applied_to [] c = c
  applied_to (p ∷ ps) c =
      if p.claim == c.name then record c { request = p.size } else applied_to ps c

  -- The role once the caller applied the patches that `Decide` returned.
  abbrev pub patched : (Map Q → Entries Q) → Role Q → Role Q
  patched range role = record role {
    claims = map (applied_to (decide cmp range role).patches) role.claims;
  }

  -- The role once the StatefulSet was deleted and created again from the spec.
  abbrev pub recreated : Role Q → Role Q
  recreated role = record role { live = some role.desired }

  -- A claim is left as it is where no patch names it, or is set to what a patch of its name asks for.
  applied_to_cases :
      (ps : List (Patch Q)) (c : Claim Q)
      → ((applied_to ps c ≡ c) × ((p : Patch Q) → In p ps → p.claim ≢ c.name))
        ⊎ ((p : Patch Q) × In p ps
            × (p.claim ≡ c.name)
            × (applied_to ps c ≡ record c { request = p.size }))
  applied_to_cases [] c = inl (refl, λ p i. absurd i)
  applied_to_cases (p ∷ ps) c = elim (Bool-cases (p.claim == c.name)) [
    | inl t ↦ inr (p, inl refl, (eq_iff p.claim c.name).0 t, rw t refl)
    | inr f ↦ elim (applied_to_cases ps c) [
      | inl (same, others) ↦ inl (
        rw f same,
        λ q i. elim i [
          | inl here ↦ λ named.
              let t : (p.claim == c.name) ≡ true =
                (eq_iff p.claim c.name).1 (ap (λ (x : Patch Q). x.claim) here ∙ named) in
              absurd (false≢true (sym f ∙ t))
          | inr j ↦ others q j
        ],
      )
      | inr (q, i, named, set) ↦ inr (q, inr i, named, rw f set)
    ]
  ]

  -- Once the patches that were decided are applied, a claim asks for no less than the spec wants.
  applied_long :
      (range : Map Q → Entries Q) (role : Role Q) (b : Claim Q)
      → ((q : Q) → is_less (cmp q q) ≡ false)
      → Distinct (λ (c : Claim Q). c.name) role.claims
      → In b role.claims
      → ((applied_to (decide cmp range role).patches b).template ≡ b.template)
        × (is_short cmp (size_of role b) (applied_to (decide cmp range role).patches b) ≡ false)
  applied_long range role b same alone i =
      elim (applied_to_cases (decide cmp range role).patches b) [
        | inl (kept, unnamed) ↦ (
          ap (λ (c : Claim Q). c.template) kept,
          ap (is_short cmp (size_of role b)) kept ∙ enough (size_of role b) refl unnamed,
        )
        | inr (p, j, named, set) ↦
            let (c, k, short, sized, of) = (patches_iff cmp range role p).0 j in
            let one : c ≡ b =
              Distinct-once (λ (x : Claim Q). x.name) role.claims c b alone k i (of ∙ named) in
            let wants : size_of role b ≡ some p.size =
              subst (λ (x : Claim Q). size_of role x ≡ some p.size) one sized in
            (
              ap (λ (x : Claim Q). x.template) set,
              ap (is_short cmp (size_of role b)) set
                  ∙ ap (λ o. is_short cmp o (record b { request = p.size })) wants
                  ∙ exact b p.size,
            )
      ]
    where
      exact : (c : Claim Q) (q : Q) → is_short cmp (some q) (record c { request = q }) ≡ false
      exact c q = rw (same q) ground arith

      enough :
          (o : Option Q)
          → size_of role b ≡ o
          → ((p : Patch Q) → In p (decide cmp range role).patches → p.claim ≢ b.name)
          → is_short cmp o b ≡ false
      enough none e unnamed = refl
      enough (some want) e unnamed = elim (Bool-cases (is_short cmp (some want) b)) [
        | inr f ↦ f
        | inl short ↦
            let patch : Patch Q = record { claim = b.name; size = want } in
            absurd (
              unnamed patch
                ((patches_iff cmp range role patch).1
                  (b, i, ap (λ o. is_short cmp o b) e ∙ short, e, refl))
                refl)
      ]

  patched_patches :
      (range : Map Q → Entries Q) (role : Role Q)
      → ((q : Q) → is_less (cmp q q) ≡ false)
      → Distinct (λ (c : Claim Q). c.name) role.claims
      → (decide cmp range (patched range role)).patches ≡ []
  patched_patches range role same alone = no_members _ (λ p h.
      let (c, i, short, _, _) = (patches_iff cmp range (patched range role) p).0 h in
      let (b, j, e) = In_of_In-map (applied_to (decide cmp range role).patches) c role.claims i in
      let (kept, long) = applied_long range role b same alone j in
      let of : size_of role c ≡ size_of role b =
        ap (λ k. lookup k role.desired) (ap (λ (x : Claim Q). x.template) (sym e) ∙ kept) in
      let never : is_short cmp (size_of role c) c ≡ false =
        ap (λ o. is_short cmp o c) of ∙ ap (is_short cmp (size_of role b)) (sym e) ∙ long in
      absurd (false≢true (sym never ∙ short)))

  Grew-irrefl :
      (desired : Map Q) → ((q : Q) → is_less (cmp q q) ≡ false) → ¬ Grew cmp desired desired
  Grew-irrefl desired same (name, size, current, wanted, found, less) =
      let sizes : current ≡ size = cc in
      let no : is_less (cmp current size) ≡ false =
        subst (λ q. is_less (cmp current q) ≡ false) sizes (same current) in
      cc

  -- A resize ends: once the patches that are decided are applied, no claim is left to patch, so the
  -- StatefulSet is recreated where a template grew; after that neither a patch nor a recreate is left.
  -- `Cmp` finds no quantity less than itself, no two claims have one name, and the sizes that the spec
  -- describes are ranged over as `IsRange` says.
  pub resize_ends :
      (range : Map Q → Entries Q) (role : Role Q)
      → IsRange role.desired (range role.desired)
      → ((q : Q) → is_less (cmp q q) ≡ false)
      → Distinct (λ (c : Claim Q). c.name) role.claims
      → let after = patched range role in
        let last = decide cmp range (recreated after) in
        ((decide cmp range after).patches ≡ [])
        × (((decide cmp range after).recreate ≡ true)
            ↔ ((live : Map Q) × (role.live ≡ some live) × Grew cmp role.desired live))
        × (last.patches ≡ [])
        × (last.recreate ≡ false)
  resize_ends range role whole same alone =
      let first = patched_patches range role same alone in
      let again = recreate_iff cmp range (patched range role) whole in
      let last = first in
      (
        first,
        (
          λ h. let (live, e, _, grown) = again.0 h in (live, e, grown),
          λ (live, e, grown). again.1 (live, e, first, grown),
        ),
        unfold decide in last,
        elim (Bool-cases (decide cmp range (recreated (patched range role))).recreate) [
          | inr f ↦ f
          | inl t ↦
              let (live, e, _, grown) =
                (recreate_iff cmp range (recreated (patched range role)) whole).0 t in
              let same_live : live ≡ role.desired = cc in
              absurd (Grew-irrefl role.desired same (subst (Grew cmp role.desired) same_live grown))
        ],
      )
