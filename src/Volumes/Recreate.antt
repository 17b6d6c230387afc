-- ===== src/Volumes/Recreate.antt =====
-- internal/volumes/volumes.go: when `Decide` has the StatefulSet recreated.
use Prim.Native.Nat.{Ordering}
use kubernetes_operator.Prelude.{
  String, ◌≡◌, refl, sym, subst, ◌↔◌, inl, inr, true, false, Option, none, some, List, [], ◌∷◌, In,
  Bool-cases, Option-cases,
}
use kubernetes_operator.Prelude.Map.{Map, lookup}
use kubernetes_operator.Prelude.Ranges.{Entries, IsRange}
use kubernetes_operator.Volumes.Claims.{Role, Patch}
use kubernetes_operator.Volumes.{is_less, grew, templates_grew, must_recreate, decide}

module _ {Q : Type 0} (cmp : Q → Q → Ordering) where
  -- A template that the live StatefulSet carries at a smaller size.
  abbrev pub Grew : Map Q → Map Q → Type 0
  Grew desired live =
      (name : String) × (size : Q) × (current : Q) × (lookup name desired ≡ some size)
      × (lookup name live ≡ some current)
      × (is_less (cmp current size) ≡ true)

  templates_grew_from :
      (entries : Entries Q) (live : Map Q)
      → templates_grew cmp entries live ≡ true
      → (name : String) × (size : Q) × In (name, size) entries × (grew cmp live name size ≡ true)
  unfolding templates_grew
  templates_grew_from [] live h = cc
  templates_grew_from ((name, size) ∷ entries) live h =
      elim (Bool-cases (grew cmp live name size)) [
        | inl t ↦ (name, size, inl refl, t)
        | inr f ↦
            let (n, s, i, t) = templates_grew_from entries live (rw f at h) in (n, s, inr i, t)
      ]

  templates_grew_of :
      (entries : Entries Q) (live : Map Q) (name : String) (size : Q)
      → In (name, size) entries
      → grew cmp live name size ≡ true
      → templates_grew cmp entries live ≡ true
  unfolding templates_grew
  templates_grew_of [] live name size i t = absurd i
  templates_grew_of ((k, s) ∷ entries) live name size (inl e) t =
      let t' : grew cmp live k s ≡ true =
        subst (λ (x : String × Q). grew cmp live x.0 x.1 ≡ true) (sym e) t in
      rw t' refl
  templates_grew_of ((k, s) ∷ entries) live name size (inr i) t =
      elim (Bool-cases (grew cmp live k s)) [
        | inl g ↦ rw g refl
        | inr g ↦ rw g (templates_grew_of entries live name size i t)
      ]

  grew_from :
      (live : Map Q) (name : String) (size : Q)
      → grew cmp live name size ≡ true
      → (current : Q) × (lookup name live ≡ some current) × (is_less (cmp current size) ≡ true)
  unfolding grew
  grew_from live name size h = elim (Option-cases (lookup name live)) [
    | inl nothing ↦ let no : false ≡ true = rw (grew, nothing) at h in cc
    | inr (current, found) ↦ (current, found, rw (grew, found) at h)
  ]

  grew_of :
      (live : Map Q) (name : String) (size current : Q)
      → lookup name live ≡ some current
      → is_less (cmp current size) ≡ true
      → grew cmp live name size ≡ true
  unfolding grew
  grew_of live name size current found less = rw (grew, found) less

  templates_grew_iff :
      (desired live : Map Q) (entries : Entries Q)
      → IsRange desired entries
      → (templates_grew cmp entries live ≡ true) ↔ Grew desired live
  templates_grew_iff desired live entries whole = (
    λ h.
        let (name, size, i, g) = templates_grew_from entries live h in
        let (current, found, less) = grew_from live name size g in
        (name, size, current, (whole.entry name size).0 i, found, less),
    λ (name, size, current, wanted, found, less).
        templates_grew_of entries live name size ((whole.entry name size).1 wanted)
          (grew_of live name size current found less),
  )

  must_recreate_iff :
      (desired : Map Q) (entries : Entries Q) (o : Option (Map Q)) (ps : List (Patch Q))
      → IsRange desired entries
      → (must_recreate cmp entries o ps ≡ true)
        ↔ ((live : Map Q) × (o ≡ some live) × (ps ≡ []) × Grew desired live)
  unfolding must_recreate
  must_recreate_iff desired entries none ps whole = (λ h. cc, λ (live, e, _, _). cc)
  must_recreate_iff desired entries (some live) (p ∷ ps) whole = (λ h. cc, λ (_, _, e, _). cc)
  must_recreate_iff desired entries (some live) [] whole = (
    λ h. (live, refl, refl, (templates_grew_iff desired live entries whole).0 h),
    λ (other, e, _, grown).
        (templates_grew_iff desired live entries whole).1
          (let same : other ≡ live = cc in subst (Grew desired) same grown),
  )

  -- The StatefulSet is recreated exactly if it exists, no claim is left to patch, and the spec has a
  -- template larger than the live one.
  pub recreate_iff :
      (range : Map Q → Entries Q) (role : Role Q)
      → IsRange role.desired (range role.desired)
      → ((decide cmp range role).recreate ≡ true) ↔ (
          (live : Map Q) × (role.live ≡ some live)
          × ((decide cmp range role).patches ≡ [])
          × Grew role.desired live)
  unfolding decide
  recreate_iff range role whole =
      must_recreate_iff role.desired (range role.desired) role.live _ whole
