-- ===== src/Volumes/Templates.antt =====
-- internal/volumes/volumes.go: the claim templates of a StatefulSet. A template is its name and the
-- entry of its requests under `storage`; every template that the operator builds has a map of
-- requests, so that setting the entry does not fail.
use kubernetes_operator.Prelude.{
  String, ◌≡◌, refl, sym, ap, ◌∙◌, ◌⊎◌, inl, inr, Option, none, some, List, [], ◌∷◌, map, In, ◌==◌,
  eq_iff, Bool-cases,
}
use kubernetes_operator.Prelude.Map.{Map, lookup, insert, lookup-insert}
use kubernetes_operator.Volumes.Reading.{quantity}

pub record Template (Q : Type 0) : Type 0 where
  pub name : String
  pub size : Option Q

module _ {Q : Type 0} (zero_quantity : Q) where
  unfoldable pub add_sizes : List (Template Q) → Map Q → Map Q
  unfolding quantity
  add_sizes [] sizes = sizes
  add_sizes (t ∷ ts) sizes = add_sizes ts (insert t.name (quantity zero_quantity t.size) sizes)

  -- `TemplateSizes`
  unfoldable pub template_sizes : List (Template Q) → Map Q
  unfolding add_sizes
  template_sizes templates = add_sizes templates []

  -- `if size, ok := sizes[claim.Name]; ok { … = size }`
  unfoldable pub keep_size : Option Q → Template Q → Template Q
  keep_size none t = t
  keep_size (some size) t = record t { size = some size }

  unfoldable pub keep_sizes : Map Q → List (Template Q) → List (Template Q)
  unfolding keep_size
  keep_sizes sizes [] = []
  keep_sizes sizes (t ∷ ts) = keep_size (lookup t.name sizes) t ∷ keep_sizes sizes ts

  -- `KeepLiveSizes`: the desired templates that it leaves.
  unfoldable pub keep_live_sizes :
      List (Template Q) → Option (List (Template Q)) → List (Template Q)
  unfolding keep_sizes template_sizes
  keep_live_sizes desired none = desired
  keep_live_sizes desired (some live) = keep_sizes (template_sizes live) desired

  add_sizes_from :
      (ts : List (Template Q)) (sizes : Map Q) (name : String) (q : Q)
      → lookup name (add_sizes ts sizes) ≡ some q
      → ((t : Template Q) × In t ts × (t.name ≡ name) × (quantity zero_quantity t.size ≡ q))
        ⊎ (lookup name sizes ≡ some q)
  unfolding add_sizes
  add_sizes_from [] sizes name q h = inr h
  add_sizes_from (t ∷ ts) sizes name q h =
      elim (add_sizes_from ts (insert t.name (quantity zero_quantity t.size) sizes) name q h) [
        | inl (u, i, named, sized) ↦ inl (u, inr i, named, sized)
        | inr old ↦ elim (Bool-cases (t.name == name)) [
          | inl same ↦
              let here : some (quantity zero_quantity t.size) ≡ some q =
                sym (lookup-insert t.name name _ sizes ∙ rw same refl) ∙ old in
              let size : quantity zero_quantity t.size ≡ q = cc in
              inl (t, inl refl, (eq_iff t.name name).0 same, size)
          | inr other ↦ inr (sym (lookup-insert t.name name _ sizes ∙ rw other refl) ∙ old)
        ]
      ]

  keep_size_name : (o : Option Q) (t : Template Q) → (keep_size o t).name ≡ t.name
  unfolding keep_size
  keep_size_name none t = refl
  keep_size_name (some size) t = refl

  keep_sizes_names :
      (sizes : Map Q) (ts : List (Template Q))
      → map (λ (t : Template Q). t.name) (keep_sizes sizes ts) ≡ map (λ (t : Template Q). t.name) ts
  unfolding keep_sizes
  keep_sizes_names sizes [] = refl
  keep_sizes_names sizes (t ∷ ts) =
      λ i. keep_size_name (lookup t.name sizes) t i ∷ keep_sizes_names sizes ts i

  keep_size_live :
      (o : Option Q) (t : Template Q) (live : Q)
      → o ≡ some live
      → quantity zero_quantity (keep_size o t).size ≡ live
  unfolding keep_size quantity
  keep_size_live none t live e = cc
  keep_size_live (some size) t live e = cc

  keep_sizes_live :
      (sizes : Map Q) (ts : List (Template Q)) (t : Template Q) (live : Q)
      → In t (keep_sizes sizes ts)
      → lookup t.name sizes ≡ some live
      → quantity zero_quantity t.size ≡ live
  unfolding keep_sizes
  keep_sizes_live sizes [] t live i found = absurd i
  keep_sizes_live sizes (u ∷ us) t live (inr i) found = keep_sizes_live sizes us t live i found
  keep_sizes_live sizes (u ∷ us) t live (inl e) found =
      let same : u.name ≡ t.name =
        sym (keep_size_name (lookup u.name sizes) u) ∙ ap (λ (x : Template Q). x.name) e in
      ap (λ (x : Template Q). quantity zero_quantity x.size) (sym e)
      ∙ keep_size_live (lookup u.name sizes) u live (ap (λ k. lookup k sizes) same ∙ found)

  -- An apply restates the live sizes: the desired templates keep their names and their order, and each
  -- one that the live StatefulSet has too gets the live size.
  pub keep_live_sizes_lem :
      (desired live : List (Template Q)) (name : String) (q current : Q)
      → lookup name (template_sizes (keep_live_sizes desired (some live))) ≡ some q
      → lookup name (template_sizes live) ≡ some current
      → (map (λ (t : Template Q). t.name) (keep_live_sizes desired (some live))
          ≡ map (λ (t : Template Q). t.name) desired)
        × (q ≡ current)
  unfolding keep_live_sizes template_sizes lookup
  keep_live_sizes_lem desired live name q current kept found = (
    keep_sizes_names (add_sizes live []) desired,
    elim (add_sizes_from (keep_sizes (add_sizes live []) desired) [] name q kept) [
      | inl (t, i, named, sized) ↦
          sym sized
          ∙ keep_sizes_live (add_sizes live []) desired t current i
              (ap (λ k. lookup k (add_sizes live [])) named ∙ found)
      | inr never ↦ let no : none ≡ some q = never in cc
    ],
  )
