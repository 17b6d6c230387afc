-- ===== src/Volumes/Quiet.antt =====
-- internal/volumes/volumes.go: the claims that `Decide` reports neither as growing nor as failed.
use Prim.Native.Nat.{Ordering}
use kubernetes_operator.Prelude.{
  ◌≡◌, refl, subst, ◌⊎◌, inl, inr, Bool, true, false, not, ◌&&◌, ◌||◌, some, [], In, ◌==◌,
  Bool-cases, arith,
}
use kubernetes_operator.Prelude.Map.{Map}
use kubernetes_operator.Prelude.Ranges.{Entries}
use kubernetes_operator.Volumes.Claims.{Claim, Role}
use kubernetes_operator.Volumes.{is_less, is_mounted, decide}
use kubernetes_operator.Volumes.Patches.{is_growing, has_failed, pod_of, size_of, growing_iff}

settled_bools :
    (bound short feasible filling mounted pending : Bool)
    → bound ≡ true
    → (bound && (short || (feasible && (filling && (mounted || not pending))))) ≡ false
    → (bound && (not short && not feasible)) ≡ false
    → (short ≡ false) × ((filling ≡ false) ⊎ ((mounted ≡ false) × (pending ≡ true)))
settled_bools bound short feasible false mounted pending b h k = (ground arith, inl refl)
settled_bools bound short feasible true mounted pending b h k = (ground arith, inr (ground arith))

module _ {Q : Type 0} (cmp : Q → Q → Ordering) where
  -- Where no claim is reported as growing or failed, each bound claim that the spec sizes asks for no
  -- less than that, and its volume holds what it asks for, unless no pod mounts it and only its
  -- filesystem is left to grow.
  pub quiet_settled :
      (range : Map Q → Entries Q) (role : Role Q) (c : Claim Q) (want : Q)
      → (decide cmp range role).growing ≡ []
      → (decide cmp range role).failed ≡ []
      → In c role.claims
      → c.bound ≡ true
      → size_of role c ≡ some want
      → (is_less (cmp c.request want) ≡ false)
        × ((is_less (cmp c.capacity c.request) ≡ false)
            ⊎ ((is_mounted (pod_of role c) ≡ false) × (c.resize_pending ≡ true)))
  quiet_settled range role c want none_grows none_failed i bound sized =
      elim (Bool-cases (is_growing cmp (size_of role c) (pod_of role c) c)) [
        | inl growing ↦
            absurd
              (subst (In _) none_grows ((growing_iff cmp range role _).0.1 (c, i, growing, refl)))
        | inr idle ↦ elim (Bool-cases (has_failed cmp (size_of role c) c)) [
          | inl failed ↦
              absurd
                (subst (In _) none_failed ((growing_iff cmp range role _).1.1 (c, i, failed, refl)))
          | inr fine ↦
              let idle' : is_growing cmp (some want) (pod_of role c) c ≡ false =
                subst (λ o. is_growing cmp o (pod_of role c) c ≡ false) sized idle in
              let fine' : has_failed cmp (some want) c ≡ false =
                subst (λ o. has_failed cmp o c ≡ false) sized fine in
              settled_bools c.bound (is_less (cmp c.request want)) (c.infeasible == "")
                (is_less (cmp c.capacity c.request)) (is_mounted (pod_of role c)) c.resize_pending
                bound idle' fine'
        ]
      ]
