-- ===== src/Volumes/AtSize.antt =====
-- internal/volumes/volumes.go, `Decide`: the roles for which nothing of a resize is left.
use Prim.Native.Nat.{Ordering}
use kubernetes_operator.Prelude.{
  ◌≡◌, refl, sym, subst, ◌↔◌, ◌⊎◌, inl, inr, Bool, true, false, not, ◌&&◌, ◌||◌, Option, none, some,
  [], In, no_members, eq_iff, ◌==◌, arith,
}
use mathlib.Core.Bool.{false≢true}
use kubernetes_operator.Prelude.Map.{Map}
use kubernetes_operator.Prelude.Ranges.{Entries, IsRange}
use kubernetes_operator.Volumes.Claims.{Claim, Pod, Role}
use kubernetes_operator.Volumes.{is_less, is_mounted, decide}
use kubernetes_operator.Volumes.Patches.{
  is_short, is_growing, has_failed, pod_of, size_of, patches_iff, growing_iff,
}
use kubernetes_operator.Volumes.Recreate.{Grew, recreate_iff}

neither : (p : Bool) → ¬ ((true ≡ false) ⊎ ((true ≡ false) × (p ≡ true)))
neither p (inl never) = cc
neither p (inr (never, _)) = cc

not_pending : ¬ ((true ≡ false) ⊎ ((false ≡ false) × (false ≡ true)))
not_pending (inl never) = cc
not_pending (inr (_, never)) = cc

quiet_bools :
    (bound short feasible filling mounted pending : Bool)
    → (((bound && (short || (feasible && (filling && (mounted || not pending))))) ≡ false)
        × ((bound && (not short && not feasible)) ≡ false))
      ↔ (bound ≡ true
          → (short ≡ false)
            × (feasible ≡ true)
            × ((filling ≡ false) ⊎ ((mounted ≡ false) × (pending ≡ true))))
quiet_bools false short feasible filling mounted pending = (λ h. λ never. cc, λ h. (refl, refl))
quiet_bools true true feasible filling mounted pending =
    (λ h. cc, λ h. let (never, _, _) = h refl in absurd (false≢true (sym never)))
quiet_bools true false false filling mounted pending =
    (λ h. cc, λ h. let (_, never, _) = h refl in absurd (false≢true never))
quiet_bools true false true false mounted pending =
    (λ h. λ b. (refl, refl, inl refl), λ h. (refl, refl))
quiet_bools true false true true true pending =
    (λ h. cc, λ h. let (_, _, why) = h refl in absurd (neither pending why))
quiet_bools true false true true false true =
    (λ h. λ b. (refl, refl, inr (refl, refl)), λ h. (refl, refl))
quiet_bools true false true true false false =
    (λ h. cc, λ h. let (_, _, why) = h refl in absurd (not_pending why))

module _ {Q : Type 0} (cmp : Q → Q → Ordering) where
  -- A bound claim that the spec sizes asks for no less than that, its provider has not given up, and its
  -- volume holds what it asks for, unless no pod mounts it and only its filesystem is left to grow.
  abbrev pub IsAtSize : Role Q → Claim Q → Type 0
  IsAtSize role c =
      c.bound ≡ true
      → (want : Q) → size_of role c ≡ some want
      → (is_less (cmp c.request want) ≡ false)
        × (c.infeasible ≡ "")
        × ((is_less (cmp c.capacity c.request) ≡ false)
            ⊎ ((is_mounted (pod_of role c) ≡ false) × (c.resize_pending ≡ true)))

  -- Each claim of the role is at its size, and the live StatefulSet has no smaller template.
  abbrev pub IsResized : Role Q → Type 0
  IsResized role =
      ((c : Claim Q) → In c role.claims → IsAtSize role c)
      × ((live : Map Q) → role.live ≡ some live → ¬ Grew cmp role.desired live)

  IsAtSize-iff :
      (role : Role Q) (c : Claim Q)
      → ((is_growing cmp (size_of role c) (pod_of role c) c ≡ false)
          × (has_failed cmp (size_of role c) c ≡ false))
        ↔ IsAtSize role c
  IsAtSize-iff role c = of (size_of role c) refl
    where
      of :
          (o : Option Q)
          → size_of role c ≡ o
          → ((is_growing cmp o (pod_of role c) c ≡ false) × (has_failed cmp o c ≡ false))
            ↔ IsAtSize role c
      of none e = (λ h. λ b want sized. cc, λ h. (refl, refl))
      of (some size) e =
          let both =
            quiet_bools c.bound (is_less (cmp c.request size)) (c.infeasible == "")
              (is_less (cmp c.capacity c.request)) (is_mounted (pod_of role c)) c.resize_pending in
          (
            λ h. λ b want sized.
                let (enough, feasible, full) = both.0 h b in
                let same : size ≡ want = cc in
                (
                  subst (λ q. is_less (cmp c.request q) ≡ false) same enough,
                  (eq_iff c.infeasible "").0 feasible,
                  full,
                ),
            λ h. both.1 (λ b.
                let (enough, feasible, full) = h b size e in
                (enough, (eq_iff c.infeasible "").1 feasible, full)),
          )

  false_of : (b : Bool) → ¬ (b ≡ true) → b ≡ false
  false_of true h = absurd (h refl)
  false_of false h = refl

  short_grows :
      (o : Option Q) (pod : Option Pod) (c : Claim Q)
      → is_short cmp o c ≡ true
      → is_growing cmp o pod c ≡ true
  short_grows none pod c short = cc
  short_grows (some want) pod c short = ground arith

  -- A claim that is patched is reported as growing.
  pub unpatched :
      (range : Map Q → Entries Q) (role : Role Q)
      → (decide cmp range role).growing ≡ []
      → (decide cmp range role).patches ≡ []
  unpatched range role growing = no_members _ (λ p h.
      let (c, i, short, _, _) = (patches_iff cmp range role p).0 h in
      subst (In _) growing (
        (growing_iff cmp range role _).0.1
          (c, i, short_grows (size_of role c) (pod_of role c) c short, refl)))

  pub decide_iff :
      (range : Map Q → Entries Q) (role : Role Q)
      → IsRange role.desired (range role.desired)
      → (((decide cmp range role).growing ≡ [])
          × ((decide cmp range role).failed ≡ [])
          × ((decide cmp range role).recreate ≡ false))
        ↔ IsResized role
  decide_iff range role whole = (
    λ (growing, failed, stays). (
      λ c i. (IsAtSize-iff role c).0 (
        false_of _ (λ t. subst (In _) growing ((growing_iff cmp range role _).0.1 (c, i, t, refl))),
        false_of _ (λ t. subst (In _) failed ((growing_iff cmp range role _).1.1 (c, i, t, refl))),
      ),
      λ live e grew.
          let again =
            (recreate_iff cmp range role whole).1 (live, e, unpatched range role growing, grew) in
          cc,
    ),
    λ (claims, templates).
        let quiet : (c : Claim Q) → In c role.claims → _ =
          λ c i. (IsAtSize-iff role c).1 (claims c i) in
        (
          no_members _ (λ n h.
              let (c, i, t, _) = (growing_iff cmp range role n).0.0 h in
              let never = (quiet c i).0 in cc),
          no_members _ (λ n h.
              let (c, i, t, _) = (growing_iff cmp range role n).1.0 h in
              let never = (quiet c i).1 in cc),
          false_of _ (λ t.
              let (live, e, _, grew) = (recreate_iff cmp range role whole).0 t in
              templates live e grew),
        ),
  )
