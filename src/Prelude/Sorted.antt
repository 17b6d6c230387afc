-- ===== src/Prelude/Sorted.antt =====
-- `strings.Compare` and the sorts of package `slices`, by names. Texts are compared by code points,
-- which is the order of their UTF-8 bytes. The sort is by insertion: where no two elements have one
-- name, the sorted list is the same whatever the algorithm.
use Prim.Native.Char.{code}
use Prim.Native.String.{String, [], ◌∷◌}
use mathlib.Core.Path.{◌≡◌, refl, sym, ap, ◌∙◌, subst}
use mathlib.Core.Logic.{◌≢◌, ◌⊎◌, ◌↔◌, inl, inr}
use mathlib.Core.Bool.{Bool, true, false}
use mathlib.Core.List.{List, [], ◌∷◌}
use native.Mathlib.Omega.{arith}
use text.Mathlib.TextEquality.{Char-path}
use kubernetes_operator.Prelude.Tests.{ltb, eqb, if◌then◌else◌, Bool-cases}
use Prim.Native.Nat.{suc}
use kubernetes_operator.Prelude.Lists.{In, length}

-- `strings.Compare(s, t) <= 0`
unfoldable pub leb_text : String → String → Bool
leb_text [] t = true
leb_text (c ∷ s) [] = false
leb_text (c ∷ s) (d ∷ t) =
    let rest = leb_text s t in
    if ltb (code c) (code d) then true else if eqb (code c) (code d) then rest else false

leb_text_total : (s t : String) → (leb_text s t ≡ true) ⊎ (leb_text t s ≡ true)
unfolding leb_text
leb_text_total [] t = inl refl
leb_text_total (c ∷ s) [] = inr refl
leb_text_total (c ∷ s) (d ∷ t) = elim (leb_text_total s t) [
  | inl h ↦ ground (arith, h)
  | inr h ↦ ground (arith, h)
]

leb_text_trans : (s t u : String) → leb_text s t ≡ true → leb_text t u ≡ true → leb_text s u ≡ true
unfolding leb_text
leb_text_trans [] t u h k = refl
leb_text_trans (c ∷ s) [] u h k = cc
leb_text_trans (c ∷ s) (d ∷ t) [] h k = cc
leb_text_trans (c ∷ s) (d ∷ t) (e ∷ u) h k = ground (arith, leb_text_trans s t u)

leb_text_antisym : (s t : String) → leb_text s t ≡ true → leb_text t s ≡ true → s ≡ t
unfolding leb_text
leb_text_antisym [] [] h k = refl
leb_text_antisym [] (d ∷ t) h k = cc
leb_text_antisym (c ∷ s) [] h k = cc
leb_text_antisym (c ∷ s) (d ∷ t) h k =
    let same : code c ≡ code d = ground arith in
    let rest = leb_text_antisym s t (ground arith) (ground arith) in
    λ i. Char-path c d same i ∷ rest i

module _ {A : Type 0} (key : A → String) where
  unfoldable pub insert_by : A → List A → List A
  insert_by x [] = x ∷ []
  insert_by x (y ∷ ys) =
      let rest = insert_by x ys in if leb_text (key x) (key y) then x ∷ y ∷ ys else y ∷ rest

  -- `slices.SortFunc` by `strings.Compare` of the names
  unfoldable pub sort_by : List A → List A
  unfolding insert_by
  sort_by [] = []
  sort_by (x ∷ xs) = insert_by x (sort_by xs)

  -- No two elements have one name.
  abbrev pub Distinct : List A → Type 0
  Distinct [] = Unit
  Distinct (x ∷ xs) = ((y : A) → In y xs → key x ≢ key y) × Distinct xs

  -- Of two elements with one name, in a list without two, there is one.
  pub Distinct-once :
      (xs : List A) (a b : A) → Distinct xs → In a xs → In b xs → key a ≡ key b → a ≡ b
  Distinct-once [] a b h i j e = absurd i
  Distinct-once (x ∷ xs) a b h (inl here) (inl there) e = sym here ∙ there
  Distinct-once (x ∷ xs) a b h (inl here) (inr j) e = absurd (h.0 b j (ap key here ∙ e))
  Distinct-once (x ∷ xs) a b h (inr i) (inl there) e = absurd (h.0 a i (ap key there ∙ sym e))
  Distinct-once (x ∷ xs) a b h (inr i) (inr j) e = Distinct-once xs a b h.1 i j e

  -- The names grow along the list.
  abbrev pub Increasing : List A → Type 0
  Increasing [] = Unit
  Increasing (x ∷ xs) =
      ((y : A) → In y xs → (leb_text (key x) (key y) ≡ true) × (key x ≢ key y)) × Increasing xs

  In_of_In-insert_by : (a x : A) (ys : List A) → In a (insert_by x ys) → (x ≡ a) ⊎ In a ys
  unfolding insert_by
  In_of_In-insert_by a x [] h = h
  In_of_In-insert_by a x (y ∷ ys) h = elim (Bool-cases (leb_text (key x) (key y))) [
    | inl t ↦ rw t at h
    | inr f ↦ elim (rw f at h) [
      | inl e ↦ inr (inl e)
      | inr i ↦ elim (In_of_In-insert_by a x ys i) [ inl e ↦ inl e | inr j ↦ inr (inr j) ]
    ]
  ]

  In-insert_by : (a x : A) (ys : List A) → (x ≡ a) ⊎ In a ys → In a (insert_by x ys)
  unfolding insert_by
  In-insert_by a x [] h = h
  In-insert_by a x (y ∷ ys) h = elim (Bool-cases (leb_text (key x) (key y))) [
    | inl t ↦ rw t h
    | inr f ↦ rw f (elim h [
      | inl e ↦ inr (In-insert_by a x ys (inl e))
      | inr i ↦ elim i [ inl e ↦ inl e | inr j ↦ inr (In-insert_by a x ys (inr j)) ]
    ])
  ]

  -- A sort keeps the elements.
  pub In-sort_by : (a : A) (xs : List A) → In a (sort_by xs) ↔ In a xs
  unfolding sort_by
  In-sort_by a [] = (λ h. h, λ h. h)
  In-sort_by a (x ∷ xs) = (
    λ h. elim (In_of_In-insert_by a x (sort_by xs) h) [
      | inl e ↦ inl e
      | inr i ↦ inr ((In-sort_by a xs).0 i)
    ],
    λ h.
        In-insert_by a x (sort_by xs)
          (elim h [ inl e ↦ inl e | inr i ↦ inr ((In-sort_by a xs).1 i) ]),
  )

  insert_by-Increasing :
      (x : A) (ys : List A)
      → ((y : A) → In y ys → key x ≢ key y)
      → Increasing ys
      → Increasing (insert_by x ys)
  unfolding insert_by
  insert_by-Increasing x [] new h = (λ y i. absurd i, tt)
  insert_by-Increasing x (y ∷ ys) new h = elim (Bool-cases (leb_text (key x) (key y))) [
    | inl t ↦ rw t (
      λ z i. elim i [
        | inl e ↦ (subst (λ w. leb_text (key x) (key w) ≡ true) e t, new z (inl e))
        | inr j ↦ (leb_text_trans (key x) (key y) (key z) t (h.0 z j).0, new z (inr j))
      ],
      h,
    )
    | inr f ↦
        let below : leb_text (key y) (key x) ≡ true = elim (leb_text_total (key y) (key x)) [
          | inl t ↦ t
          | inr t ↦ cc
        ] in
        rw f (
          λ z i. elim (In_of_In-insert_by z x ys i) [
            | inl e ↦ (
              subst (λ w. leb_text (key y) (key w) ≡ true) e below,
              λ s. new y (inl refl) (ap key e ∙ sym s),
            )
            | inr j ↦ h.0 z j
          ],
          insert_by-Increasing x ys (λ z i. new z (inr i)) h.1,
        )
  ]

  pub sort_by-Increasing : (xs : List A) → Distinct xs → Increasing (sort_by xs)
  unfolding sort_by
  sort_by-Increasing [] h = tt
  sort_by-Increasing (x ∷ xs) h =
      insert_by-Increasing x (sort_by xs) (λ y i. h.0 y ((In-sort_by y xs).0 i))
        (sort_by-Increasing xs h.1)

  Increasing-head :
      (x y : A) (xs ys : List A)
      → Increasing (x ∷ xs)
      → Increasing (y ∷ ys)
      → In x (y ∷ ys)
      → In y (x ∷ xs)
      → x ≡ y
  Increasing-head x y xs ys h k (inl e) j = sym e
  Increasing-head x y xs ys h k (inr i) (inl e) = e
  Increasing-head x y xs ys h k (inr i) (inr j) =
      absurd ((h.0 y j).1 (leb_text_antisym (key x) (key y) (h.0 y j).0 (k.0 x i).0))

  Increasing_tail :
      (x y : A) (xs ys : List A)
      → Increasing (x ∷ xs)
      → x ≡ y
      → ((a : A) → In a (x ∷ xs) → In a (y ∷ ys))
      → (a : A) → In a xs
      → In a ys
  Increasing_tail x y xs ys h e sub a i = elim (sub a (inr i)) [
    | inl s ↦ absurd ((h.0 a i).1 (ap key (e ∙ s)))
    | inr j ↦ j
  ]

  Increasing-unique :
      (xs ys : List A)
      → Increasing xs
      → Increasing ys
      → ((a : A) → In a xs → In a ys)
      → ((a : A) → In a ys → In a xs)
      → xs ≡ ys
  Increasing-unique [] [] h k to from = refl
  Increasing-unique [] (y ∷ ys) h k to from = absurd (from y (inl refl))
  Increasing-unique (x ∷ xs) [] h k to from = absurd (to x (inl refl))
  Increasing-unique (x ∷ xs) (y ∷ ys) h k to from =
      let e = Increasing-head x y xs ys h k (to x (inl refl)) (from y (inl refl)) in
      let rest =
        Increasing-unique xs ys h.1 k.1 (Increasing_tail x y xs ys h e to)
          (Increasing_tail y x ys xs k (sym e) from) in
      λ i. e i ∷ rest i

  -- Two lists with the same elements, no two of one name, are sorted to the same list.
  pub sort_by_unique :
      (xs ys : List A)
      → Distinct xs
      → Distinct ys
      → ((a : A) → In a xs ↔ In a ys)
      → sort_by xs ≡ sort_by ys
  sort_by_unique xs ys h k same =
      Increasing-unique (sort_by xs) (sort_by ys) (sort_by-Increasing xs h)
        (sort_by-Increasing ys k) (λ a i. (In-sort_by a ys).1 ((same a).0 ((In-sort_by a xs).0 i)))
        (λ a i. (In-sort_by a xs).1 ((same a).1 ((In-sort_by a ys).0 i)))

module _ {A : Type 0} (key : A → String) where
  length-insert_by : (x : A) (ys : List A) → length (insert_by key x ys) ≡ suc (length ys)
  unfolding insert_by
  length-insert_by x [] = refl
  length-insert_by x (y ∷ ys) = elim (Bool-cases (leb_text (key x) (key y))) [
    | inl t ↦ rw t refl
    | inr f ↦ rw f (ap suc (length-insert_by x ys))
  ]

  pub length-sort_by : (xs : List A) → length (sort_by key xs) ≡ length xs
  unfolding sort_by
  length-sort_by [] = refl
  length-sort_by (x ∷ xs) = length-insert_by x (sort_by key xs) ∙ ap suc (length-sort_by xs)
