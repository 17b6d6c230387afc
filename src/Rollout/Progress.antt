-- ===== src/Rollout/Progress.antt =====
-- internal/rollout/rollout.go: the outdated pods before and after a restart.
use kubernetes_operator.Prelude.{
  suc, ◌≡◌, refl, sym, ap, ◌∙◌, inl, inr, Bool, true, false, not, ◌&&◌, List, [], ◌∷◌, ◌++◌, length,
  filter, In, In_of_In-filter, ◌==◌, eq_iff, Bool-cases, arith,
}
use kubernetes_operator.Rollout.Roles.{Pod, Role, is_outdated, outdated}

length-filter_replace :
    {A : Type 0} (p q : A → Bool) (before after : List A) (x y : A)
    → ((z : A) → p z ≡ q z)
    → p x ≡ true
    → q y ≡ false
    → length (filter p (before ++ x ∷ after)) ≡ suc (length (filter q (before ++ y ∷ after)))
length-filter_replace {A} p q [] after x y same px qy = rw (px, qy) (ap suc (same_length after))
  where
    same_length : (zs : List A) → length (filter p zs) ≡ length (filter q zs)
    same_length [] = refl
    same_length (z ∷ zs) = ground (arith, same z, same_length zs)
length-filter_replace {A} p q (z ∷ before) after x y same px qy =
    ground (arith, same z, length-filter_replace p q before after x y same px qy)

In-outdated :
    (r : Role) (p : Pod)
    → In p (outdated r)
    → In p r.pods × (is_outdated r p ≡ true) × ((r.update_revision == "") ≡ false)
unfolding outdated
In-outdated r p h = elim (Bool-cases (r.update_revision == "")) [
  | inl blank ↦ absurd (simp blank at h)
  | inr named ↦
      let (i, out) = In_of_In-filter (is_outdated r) p r.pods (simp named at h) in (i, out, named)
]

-- A restart makes one outdated pod fewer: the pod's replacement carries the current revision, and the
-- other pods and the revision are as before.
pub restart_shrinks :
    (r r' : Role) (before after : List Pod) (p p' : Pod)
    → In p (outdated r)
    → r.pods ≡ before ++ p ∷ after
    → r'.pods ≡ before ++ p' ∷ after
    → r'.update_revision ≡ r.update_revision
    → p'.revision_hash ≡ r.update_revision
    → length (outdated r) ≡ suc (length (outdated r'))
unfolding outdated is_outdated
restart_shrinks r r' before after p p' h e e' same current =
    let (_, out, named) = In-outdated r p h in
    let named' : (r'.update_revision == "") ≡ false = ap (λ u. u == "") same ∙ named in
    let fresh : is_outdated r' p' ≡ false =
      ground (arith, eq_iff p'.revision_hash r'.update_revision, current ∙ sym same) in
    let tests : (z : Pod) → is_outdated r z ≡ is_outdated r' z = λ z.
      ap (λ u. not (z.revision_hash == "") && (not (z.revision_hash == u) && not z.current))
        (sym same) in
    let count =
      length-filter_replace (is_outdated r) (is_outdated r') before after p p' tests out fresh in
    simp (named, named', e, e') count
