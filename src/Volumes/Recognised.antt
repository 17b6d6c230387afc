-- ===== src/Volumes/Recognised.antt =====
-- internal/volumes/volumes.go, `Observe`: which claims are recognised, and as what.
use Prim.Native.String.{◌++◌}
use text.Mathlib.TextLemmas.{append-nil, append_assoc, append_cancel_right}
use kubernetes_operator.Prelude.{
  ℕ, ◌<◌, String, ◌≡◌, refl, sym, ap, ◌∙◌, subst, ◌↔◌, inl, inr, Option, none, some, List, [], ◌∷◌,
  In, Option-cases, concat,
}
use kubernetes_operator.Prelude.Decimal.{decimal}
use kubernetes_operator.Prelude.Parse.{ordinal_of_iff}
use kubernetes_operator.Prelude.Text.{cut_prefix, cut_prefix_iff}
use kubernetes_operator.Prelude.Naming.{numbered_injective}
use kubernetes_operator.Volumes.Claims.{Claim}
use kubernetes_operator.Volumes.Reading.{
  PersistentVolumeClaim, claim_read, suffix_ordinal, or_later, observe,
}

-- `<template>-<statefulset>-<ordinal>`
abbrev pub claim_name : String → String → ℕ → String
claim_name template stateful_set ordinal =
    template ++ ("-" ++ (stateful_set ++ ("-" ++ decimal ordinal)))

prefix_text :
    (template stateful_set s : String)
    → concat (template ∷ "-" ∷ stateful_set ∷ "-" ∷ []) ++ s
      ≡ template ++ ("-" ++ (stateful_set ++ ("-" ++ s)))
unfolding concat
prefix_text template stateful_set s =
    append_assoc template _ s
    ∙ ap (λ u. template ++ u)
        (append_assoc "-" _ s
          ∙ ap (λ u. "-" ++ u)
              (append_assoc stateful_set _ s
                ∙ ap (λ u. stateful_set ++ u) (ap (λ u. u ++ s) (append-nil "-"))))

claim_name_injective :
    (t u sts : String) (m n : ℕ) → claim_name t sts m ≡ claim_name u sts n → (t ≡ u) × (m ≡ n)
claim_name_injective t u sts m n p =
    let (front, number) =
      numbered_injective (t ++ ("-" ++ sts)) (u ++ ("-" ++ sts)) m n
        (regroup t m ∙ p ∙ sym (regroup u n)) in
    (append_cancel_right t u ("-" ++ sts) front, number)
  where
    regroup : (s : String) (k : ℕ) → (s ++ ("-" ++ sts)) ++ ("-" ++ decimal k) ≡ claim_name s sts k
    regroup s k =
        append_assoc s ("-" ++ sts) ("-" ++ decimal k)
        ∙ ap (λ u. s ++ u) (append_assoc "-" sts ("-" ++ decimal k))

suffix_ordinal_iff :
    (p s : String) (n : ℕ)
    → (suffix_ordinal (cut_prefix p s) ≡ some n) ↔ ((s ≡ p ++ decimal n) × (n < 2147483648))
unfolding suffix_ordinal
suffix_ordinal_iff p s n = (
  λ h. elim (Option-cases (cut_prefix p s)) [
    | inl nothing ↦ let never : none ≡ some n = rw nothing at h in cc
    | inr (suffix, found) ↦
        let (own, small) = (ordinal_of_iff suffix n).0 (rw found at h) in
        ((cut_prefix_iff p s suffix).0 found ∙ ap (λ u. p ++ u) own, small)
  ],
  λ (named, small).
      rw ((cut_prefix_iff p s (decimal n)).1 named)
        ((ordinal_of_iff (decimal n) n).1 (refl, small)),
)

module _ {Q : Type 0} (zero_quantity : Q) (stateful_set : String) where
  template_iff :
      (template s : String) (n : ℕ)
      → (suffix_ordinal (cut_prefix (concat (template ∷ "-" ∷ stateful_set ∷ "-" ∷ [])) s) ≡ some n)
        ↔ ((s ≡ claim_name template stateful_set n) × (n < 2147483648))
  template_iff template s n =
      subst
        (λ u.
          (suffix_ordinal (cut_prefix (concat (template ∷ "-" ∷ stateful_set ∷ "-" ∷ [])) s)
            ≡ some n)
          ↔ ((s ≡ u) × (n < 2147483648)))
        (prefix_text template stateful_set (decimal n))
        (suffix_ordinal_iff (concat (template ∷ "-" ∷ stateful_set ∷ "-" ∷ [])) s n)

  abbrev claim_suffix : String → String → Option ℕ
  claim_suffix template s =
      suffix_ordinal (cut_prefix (concat (template ∷ "-" ∷ stateful_set ∷ "-" ∷ [])) s)

  -- The claim is the one of a template and an ordinal.
  abbrev pub Recognised : List String → PersistentVolumeClaim Q → Claim Q → Type 0
  Recognised templates pvc c =
      (template : String) × (n : ℕ) × In template templates
      × (pvc.name ≡ claim_name template stateful_set n)
      × (n < 2147483648)
      × (c ≡ claim_read zero_quantity template n pvc)

  Recognised-later :
      (t : String) (ts : List String) (pvc : PersistentVolumeClaim Q) (c : Claim Q)
      → Recognised ts pvc c
      → Recognised (t ∷ ts) pvc c
  Recognised-later t ts pvc c (template, n, i, named, small, e) =
      (template, n, inr i, named, small, e)

  or_later_from :
      (t : String) (o : Option ℕ) (ts : List String) (pvc : PersistentVolumeClaim Q) (c : Claim Q)
      (later : Option (Claim Q))
      → claim_suffix t pvc.name ≡ o
      → (later ≡ some c → Recognised ts pvc c)
      → or_later zero_quantity t o pvc later ≡ some c
      → Recognised (t ∷ ts) pvc c
  unfolding or_later
  or_later_from t none ts pvc c later e ih h = Recognised-later t ts pvc c (ih h)
  or_later_from t (some n) ts pvc c later e ih h =
      let (named, small) = (template_iff t pvc.name n).0 e in
      let read : c ≡ claim_read zero_quantity t n pvc = cc in (t, n, inl refl, named, small, read)

  or_later_of :
      (t : String) (o : Option ℕ) (ts : List String) (pvc : PersistentVolumeClaim Q) (c : Claim Q)
      (later : Option (Claim Q))
      → claim_suffix t pvc.name ≡ o
      → (Recognised ts pvc c → later ≡ some c)
      → Recognised (t ∷ ts) pvc c
      → or_later zero_quantity t o pvc later ≡ some c
  unfolding or_later
  or_later_of t none ts pvc c later e ih (template, n, inl same, named, small, read) =
      let found : claim_suffix t pvc.name ≡ some n =
        (template_iff t pvc.name n).1
          (subst (λ u. pvc.name ≡ claim_name u stateful_set n) (sym same) named, small) in
      cc
  or_later_of t none ts pvc c later e ih (template, n, inr i, named, small, read) =
      ih (template, n, i, named, small, read)
  or_later_of t (some m) ts pvc c later e ih (template, n, i, named, small, read) =
      let (here, _) = (template_iff t pvc.name m).0 e in
      let (same, number) = claim_name_injective t template stateful_set m n (sym here ∙ named) in
      let claims : claim_read zero_quantity t m pvc ≡ claim_read zero_quantity template n pvc =
        λ j. claim_read zero_quantity (same j) (number j) pvc in
      ap some (claims ∙ sym read)

  -- A claim is recognised as the one of a template and an ordinal exactly if its name is put together
  -- from that template, the StatefulSet and the ordinal, and the ordinal is an `int32`.
  pub observe_iff :
      (templates : List String) (pvc : PersistentVolumeClaim Q) (c : Claim Q)
      → (observe zero_quantity stateful_set templates pvc ≡ some c) ↔ Recognised templates pvc c
  unfolding observe
  observe_iff [] pvc c = (λ h. cc, λ (_, _, i, _, _, _). absurd i)
  observe_iff (t ∷ ts) pvc c = (
    or_later_from t (claim_suffix t pvc.name) ts pvc c _ refl (observe_iff ts pvc c).0,
    or_later_of t (claim_suffix t pvc.name) ts pvc c _ refl (observe_iff ts pvc c).1,
  )
