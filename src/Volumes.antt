-- ===== src/Volumes.antt =====
-- internal/volumes/volumes.go: how a grown claim size reaches a role's claims. `resource.Quantity` is
-- Kubernetes' and a parameter `Q`, with its method `Cmp`, which answers -1, 0 or 1 and is an
-- `Ordering` here. A loop that appends is a function of what it loops over; ordinals are `int32`
-- values that are never negative. A loop over a map takes the entries in the order in which Go meets
-- them.
pub mod Claims
pub mod Reading
pub mod Patches
pub mod Recreate
pub mod Resize
pub mod Quiet
pub mod AtSize
pub mod Templates
pub mod Recognised
use Prim.Native.Nat.{Ordering}
use kubernetes_operator.Prelude.{
  ℕ, String, Bool, true, false, not, ◌&&◌, ◌||◌, Option, none, some, List, [], ◌∷◌, eqb, ◌==◌,
  if◌then◌else◌, concat,
}
use kubernetes_operator.Prelude.Map.{Map, lookup}
use kubernetes_operator.Prelude.Ranges.{Entries}
use kubernetes_operator.Prelude.Sorted.{sort_by}
use kubernetes_operator.Volumes.Claims.{Claim, Pod, Role, Patch, Decision}

-- `a.Cmp(b) < 0`
abbrev pub is_less : Ordering → Bool
is_less Ordering.lt = true
is_less Ordering.eq = false
is_less Ordering.gt = false

-- `pods[pod.Ordinal] = pod` for each pod; a map by ordinals is a function here.
unfoldable pub pods_by_ordinal : List Pod → (ℕ → Option Pod) → ℕ → Option Pod
pods_by_ordinal [] m n = m n
pods_by_ordinal (p ∷ ps) m n = pods_by_ordinal ps (λ k. if eqb p.ordinal k then some p else m k) n

unfoldable pub is_mounted : Option Pod → Bool
is_mounted none = false
is_mounted (some p) = true

-- `named`
unfoldable pub claim_named : String → Option Pod → String
claim_named name none = name
claim_named name (some p) = concat (name ∷ " (pod " ∷ p.name ∷ ")" ∷ [])

module _ {Q : Type 0} (cmp : Q → Q → Ordering) where
  -- The `switch` on a bound claim of a template that the spec sizes, before the claims that follow.
  unfoldable pub decide_bound : Q → Option Pod → Claim Q → Decision Q → Decision Q
  unfolding claim_named is_mounted
  decide_bound want pod c d =
      let named = claim_named c.name pod in
      if is_less (cmp c.request want)
      then record d {
        patches = record { claim = c.name; size = want } ∷ d.patches;
        growing = named ∷ d.growing;
      }
      else if not (c.infeasible == "")
      then record d { failed = concat (named ∷ ": " ∷ c.infeasible ∷ []) ∷ d.failed }
      else if not (is_less (cmp c.capacity c.request))
      then d
      else if is_mounted pod || not c.resize_pending
      then (if c.resize_error == "" then record d { growing = named ∷ d.growing } else record d {
        growing = named ∷ d.growing;
        errors = concat (c.name ∷ ": " ∷ c.resize_error ∷ []) ∷ d.errors;
      })
      else d

  -- `want, ok := role.Desired[claim.Template]; if !ok || !claim.Bound { continue }`
  unfoldable pub decide_claim : Option Q → Option Pod → Claim Q → Decision Q → Decision Q
  unfolding decide_bound
  decide_claim none pod c d = d
  decide_claim (some want) pod c d = if c.bound then decide_bound want pod c d else d

  unfoldable pub decide_claims : Map Q → (ℕ → Option Pod) → List (Claim Q) → Decision Q
  unfolding decide_claim
  decide_claims desired pods [] = record {
    patches = [];
    recreate = false;
    growing = [];
    errors = [];
    failed = [];
  }
  decide_claims desired pods (c ∷ cs) =
      decide_claim (lookup c.template desired) (pods c.ordinal) c (decide_claims desired pods cs)

  -- `current, ok := live[name]; ok && current.Cmp(size) < 0`
  unfoldable pub grew : Map Q → String → Q → Bool
  grew live name size = elim (lookup name live) [
    | none ↦ false
    | some current ↦ is_less (cmp current size)
  ]

  -- `templatesGrew`
  unfoldable pub templates_grew : Entries Q → Map Q → Bool
  unfolding grew
  templates_grew [] live = false
  templates_grew ((name, size) ∷ desired) live =
      let rest = templates_grew desired live in if grew live name size then true else rest

  unfoldable pub must_recreate : Entries Q → Option (Map Q) → List (Patch Q) → Bool
  unfolding templates_grew
  must_recreate desired none patches = false
  must_recreate desired (some live) [] = templates_grew desired live
  must_recreate desired (some live) (p ∷ ps) = false

  -- `Decide`
  unfoldable pub decide : (Map Q → Entries Q) → Role Q → Decision Q
  unfolding decide_claims must_recreate pods_by_ordinal sort_by
  decide range role =
      let d =
        decide_claims role.desired (pods_by_ordinal role.pods (λ n. none))
          (sort_by (λ (c : Claim Q). c.name) role.claims) in
      record d { recreate = must_recreate (range role.desired) role.live d.patches }
