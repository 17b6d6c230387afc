-- ===== src/Prelude/Lists.antt =====
-- Lists measured by native numbers, and predicates on lists that compute to products and sums.
use Prim.Native.Nat.{ℕ, suc, ◌+◌, ◌≤◌}
use mathlib.Core.Path.{◌≡◌, refl, sym, ap, ◌∙◌}
use mathlib.Core.Logic.{◌⊎◌, ◌↔◌, inl, inr}
use mathlib.Core.Bool.{Bool, true, false, ◌&&◌, ◌||◌}
use mathlib.Core.List.{List, [], ◌∷◌, ◌++◌, map}
use native.Mathlib.Omega.{arith}
use kubernetes_operator.Prelude.Tests.{if◌then◌else◌, Bool-cases}

module _ {ℓ} {A : Type ℓ} where
  abbrev pub length : List A → ℕ
  length [] = 0
  length (x ∷ xs) = suc (length xs)

  -- The elements that pass a test, in their order.
  abbrev pub filter : (A → Bool) → List A → List A
  filter p [] = []
  filter p (x ∷ xs) = let rest = filter p xs in if p x then x ∷ rest else rest

  abbrev pub any : (A → Bool) → List A → Bool
  any p [] = false
  any p (x ∷ xs) = p x || any p xs

  abbrev pub all : (A → Bool) → List A → Bool
  all p [] = true
  all p (x ∷ xs) = p x && all p xs

module _ {A : Type 0} where
  -- `x` stands in the list.
  abbrev pub In : A → List A → Type 0
  In a [] = ⊥
  In a (x ∷ xs) = (x ≡ a) ⊎ In a xs

  pub no_members : (xs : List A) → ((x : A) → ¬ In x xs) → xs ≡ []
  no_members [] h = refl
  no_members (x ∷ xs) h = absurd (h x (inl refl))

  pub In-append_left : (a : A) (xs ys : List A) → In a xs → In a (xs ++ ys)
  In-append_left a [] ys h = absurd h
  In-append_left a (x ∷ xs) ys (inl e) = inl e
  In-append_left a (x ∷ xs) ys (inr h) = inr (In-append_left a xs ys h)

  pub In-append_right : (a : A) (xs ys : List A) → In a ys → In a (xs ++ ys)
  In-append_right a [] ys h = h
  In-append_right a (x ∷ xs) ys h = inr (In-append_right a xs ys h)

  pub In-append : (a : A) (xs ys : List A) → In a (xs ++ ys) → In a xs ⊎ In a ys
  In-append a [] ys h = inr h
  In-append a (x ∷ xs) ys (inl e) = inl (inl e)
  In-append a (x ∷ xs) ys (inr h) = elim (In-append a xs ys h) [
    | inl l ↦ inl (inr l)
    | inr r ↦ inr r
  ]

  -- What a filter keeps: the elements that pass.
  pub In-filter : (p : A → Bool) (a : A) (xs : List A) → In a xs → p a ≡ true → In a (filter p xs)
  In-filter p a [] h pa = h
  In-filter p a (x ∷ xs) (inl e) pa = rw (ap p e ∙ pa) (inl e)
  In-filter p a (x ∷ xs) (inr h) pa = elim (Bool-cases (p x)) [
    | inl t ↦ rw t (inr (In-filter p a xs h pa))
    | inr f ↦ rw f (In-filter p a xs h pa)
  ]

  pub In_of_In-filter :
      (p : A → Bool) (a : A) (xs : List A) → In a (filter p xs) → In a xs × (p a ≡ true)
  In_of_In-filter p a [] h = absurd h
  In_of_In-filter p a (x ∷ xs) h = elim (Bool-cases (p x)) [
    | inl t ↦ elim (rw t at h) [
      | inl e ↦ (inl e, sym (ap p e) ∙ t)
      | inr r ↦ let ih = In_of_In-filter p a xs r in (inr ih.0, ih.1)
    ]
    | inr f ↦ let ih = In_of_In-filter p a xs (rw f at h) in (inr ih.0, ih.1)
  ]

  pub In_of_all : (p : A → Bool) (a : A) (xs : List A) → all p xs ≡ true → In a xs → p a ≡ true
  In_of_all p a [] h i = absurd i
  In_of_all p a (x ∷ xs) h (inl e) = sym (ap p e) ∙ ground arith
  In_of_all p a (x ∷ xs) h (inr i) = In_of_all p a xs (ground arith) i

  pub any_of_In : (p : A → Bool) (a : A) (xs : List A) → In a xs → p a ≡ true → any p xs ≡ true
  any_of_In p a [] h pa = absurd h
  any_of_In p a (x ∷ xs) (inl e) pa = rw (ap p e ∙ pa) refl
  any_of_In p a (x ∷ xs) (inr h) pa = ground (arith, any_of_In p a xs h pa)

  pub In_of_any : (p : A → Bool) (xs : List A) → any p xs ≡ true → (a : A) × In a xs × (p a ≡ true)
  In_of_any p [] h = cc
  In_of_any p (x ∷ xs) h = elim (Bool-cases (p x)) [
    | inl t ↦ (x, inl refl, t)
    | inr f ↦ let (a, i, pa) = In_of_any p xs (ground arith) in (a, inr i, pa)
  ]

module _ {A : Type 0} (p : A → Bool) where
  -- How many elements pass a test.
  abbrev pub count_if : List A → ℕ
  count_if [] = 0
  count_if (x ∷ xs) = (if p x then 1 else 0) + count_if xs

  count_if-le-length : (xs : List A) → count_if xs ≤ length xs
  count_if-le-length [] = omega arith
  count_if-le-length (x ∷ xs) = ground (arith, count_if-le-length xs)

  all_of_count_if : (xs : List A) → count_if xs ≡ length xs → (a : A) → In a xs → p a ≡ true
  all_of_count_if [] h a i = absurd i
  all_of_count_if (x ∷ xs) h a (inl e) = sym (ap p e) ∙ ground (arith, count_if-le-length xs)
  all_of_count_if (x ∷ xs) h a (inr i) =
      all_of_count_if xs (ground (arith, count_if-le-length xs)) a i

  count_if_of_all : (xs : List A) → ((a : A) → In a xs → p a ≡ true) → count_if xs ≡ length xs
  count_if_of_all [] h = refl
  count_if_of_all (x ∷ xs) h =
      rw (h x (inl refl)) (omega (arith, count_if_of_all xs (λ a i. h a (inr i))))

  pub count_if-eq-length :
      (xs : List A) → (count_if xs ≡ length xs) ↔ ((a : A) → In a xs → p a ≡ true)
  count_if-eq-length xs = (all_of_count_if xs, count_if_of_all xs)

module _ {A B : Type 0} where
  pub In-map : (f : A → B) (a : A) (xs : List A) → In a xs → In (f a) (map f xs)
  In-map f a [] h = h
  In-map f a (x ∷ xs) (inl e) = inl (ap f e)
  In-map f a (x ∷ xs) (inr h) = inr (In-map f a xs h)

  pub In_of_In-map :
      (f : A → B) (b : B) (xs : List A) → In b (map f xs) → (a : A) × In a xs × (f a ≡ b)
  In_of_In-map f b [] h = absurd h
  In_of_In-map f b (x ∷ xs) (inl e) = (x, inl refl, e)
  In_of_In-map f b (x ∷ xs) (inr h) = let (a, i, e) = In_of_In-map f b xs h in (a, inr i, e)

-- What a loop emits: a result for each element that passes the test.
unfoldable pub emit : {A B : Type 0} → (A → Bool) → (A → B) → List A → List B
emit p f xs = map f (filter p xs)

module _ {A B : Type 0} (p : A → Bool) (f : A → B) where
  pub In_of_In-emit :
      (b : B) (xs : List A) → In b (emit p f xs) → (a : A) × In a xs × (p a ≡ true) × (f a ≡ b)
  unfolding emit
  In_of_In-emit b xs h =
      let (a, i, e) = In_of_In-map f b (filter p xs) h in
      let (j, pa) = In_of_In-filter p a xs i in (a, j, pa, e)

  pub In-emit : (a : A) (xs : List A) → In a xs → p a ≡ true → In (f a) (emit p f xs)
  unfolding emit
  In-emit a xs i pa = In-map f a (filter p xs) (In-filter p a xs i pa)

pub append_nil_iff {ℓ} : {A : Type ℓ} (xs ys : List A) → (xs ++ ys ≡ []) ↔ ((xs ≡ []) × (ys ≡ []))
append_nil_iff [] ys = (λ h. (refl, h), λ h. h.1)
append_nil_iff (x ∷ xs) ys = (λ h. cc, λ h. cc)
