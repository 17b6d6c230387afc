-- ===== src/Prelude/Ranges.antt =====
-- `range` over a map: its entries, each once, in an order that Go does not fix.
use Prim.Native.String.{String}
use mathlib.Core.Path.{◌≡◌, refl, sym, ap, ◌∙◌}
use text.Mathlib.Text.{◌==◌}
use text.Mathlib.TextEquality.{eq_iff}
use mathlib.Core.Logic.{◌≢◌, ◌↔◌, inl, inr}
use mathlib.Core.Option.{some, none}
use mathlib.Core.List.{List, [], ◌∷◌}
use mathlib.Core.Bool.{true}
use kubernetes_operator.Prelude.Tests.{Bool-cases}
use kubernetes_operator.Prelude.Lists.{In}
use kubernetes_operator.Prelude.Map.{Map, lookup, remove}
use kubernetes_operator.Prelude.Sorted.{Distinct}

abbrev pub Entries : Type 0 → Type 0
Entries V = List (String × V)

-- The entries are those of the map, each once.
pub record IsRange {V : Type 0} (m : Map V) (entries : Entries V) : Type 0 where
  pub distinct : Distinct (λ (e : String × V). e.0) entries
  pub entry : (k : String) (v : V) → In (k, v) entries ↔ (lookup k m ≡ some v)

one_entry :
    {V : Type 0} (k : String) (v : V) (j : String) (w : V)
    → In {A = String × V} (j, w) ((k, v) ∷ []) ↔ (lookup j ((k, v) ∷ []) ≡ some w)
unfolding lookup
one_entry {V} k v j w = (from, back)
  where
    from : In {A = String × V} (j, w) ((k, v) ∷ []) → lookup j ((k, v) ∷ []) ≡ some w
    from (inl e) =
        rw ((eq_iff k j).1 (ap (λ (x : String × V). x.0) e)) (ap (λ (x : String × V). some x.1) e)
    from (inr i) = absurd i

    back : lookup j ((k, v) ∷ []) ≡ some w → In {A = String × V} (j, w) ((k, v) ∷ [])
    back h = elim (Bool-cases (k == j)) [
      | inl t ↦
          let value : some v ≡ some w = rw t at h in
          let same : v ≡ w = cc in let key : k ≡ j = (eq_iff k j).0 t in inl (rw (key, same) refl)
      | inr f ↦ let no : none ≡ some w = rw f at h in cc
    ]

-- The map of one entry has one order.
pub one_entry-IsRange : {V : Type 0} (k : String) (v : V) → IsRange ((k, v) ∷ []) ((k, v) ∷ [])
one_entry-IsRange k v = record {
  distinct = ((λ y i e. absurd i), tt);
  entry = λ j w. one_entry k v j w;
}

module _ {V : Type 0} where
  In_of_In-remove :
      (k j : String) (w : V) (m : Map V) → In (j, w) (remove k m) → In (j, w) m × (k ≢ j)
  unfolding remove
  In_of_In-remove k j w [] i = absurd i
  In_of_In-remove k j w ((h, v) ∷ m) i = elim (Bool-cases (h == k)) [
    | inl t ↦ let (later, other) = In_of_In-remove k j w m (rw t at i) in (inr later, other)
    | inr f ↦ elim (rw f at i) [
      | inl e ↦ (
        inl e,
        λ same.
            let key : h ≡ j = ap (λ (x : String × V). x.0) e in
            let no : (h == k) ≡ true = (eq_iff h k).1 (key ∙ sym same) in cc,
      )
      | inr later ↦ let (found, other) = In_of_In-remove k j w m later in (inr found, other)
    ]
  ]

  In-remove : (k j : String) (w : V) (m : Map V) → In (j, w) m → k ≢ j → In (j, w) (remove k m)
  unfolding remove
  In-remove k j w [] i n = absurd i
  In-remove k j w ((h, v) ∷ m) i n = elim (Bool-cases (h == k)) [
    | inl t ↦ rw t (elim i [
      | inl e ↦ absurd (n (sym ((eq_iff h k).0 t) ∙ ap (λ (x : String × V). x.0) e))
      | inr later ↦ In-remove k j w m later n
    ])
    | inr f ↦ rw f (elim i [ inl e ↦ inl e | inr later ↦ inr (In-remove k j w m later n) ])
  ]

  remove-Distinct :
      (k : String) (m : Map V)
      → Distinct (λ (e : String × V). e.0) m
      → Distinct (λ (e : String × V). e.0) (remove k m)
  unfolding remove
  remove-Distinct k [] h = tt
  remove-Distinct k ((j, v) ∷ m) h = elim (Bool-cases (j == k)) [
    | inl t ↦ rw t (remove-Distinct k m h.1)
    | inr f ↦ rw f (λ y i. h.0 y (In_of_In-remove k y.0 y.1 m i).0, remove-Distinct k m h.1)
  ]

  -- The entries of a map that may have been written to more than once, each once.
  unfoldable pub each_once : Map V → Entries V
  unfolding remove
  each_once [] = []
  each_once ((k, v) ∷ m) = (k, v) ∷ remove k (each_once m)

  each_once_more :
      (k : String) (v : V) (m : Map V)
      → IsRange m (each_once m)
      → IsRange ((k, v) ∷ m) ((k, v) ∷ remove k (each_once m))
  unfolding lookup
  each_once_more k v m ih = record {
    distinct = (
      λ y i. (In_of_In-remove k y.0 y.1 (each_once m) i).1,
      remove-Distinct k (each_once m) ih.distinct,
    );
    entry = λ j w. (from j w, back j w);
  }
    where
      from :
          (j : String) (w : V)
          → In (j, w) ((k, v) ∷ remove k (each_once m))
          → lookup j ((k, v) ∷ m) ≡ some w
      from j w (inl e) =
          rw ((eq_iff k j).1 (ap (λ (x : String × V). x.0) e)) (ap (λ (x : String × V). some x.1) e)
      from j w (inr i) =
          let (there, other) = In_of_In-remove k j w (each_once m) i in
          elim (Bool-cases (k == j)) [
            | inl t ↦ absurd (other ((eq_iff k j).0 t))
            | inr f ↦ rw f ((ih.entry j w).0 there)
          ]

      back :
          (j : String) (w : V)
          → lookup j ((k, v) ∷ m) ≡ some w
          → In (j, w) ((k, v) ∷ remove k (each_once m))
      back j w h = elim (Bool-cases (k == j)) [
        | inl t ↦
            let value : some v ≡ some w = rw t at h in
            let same : v ≡ w = cc in let key : k ≡ j = (eq_iff k j).0 t in inl (rw (key, same) refl)
        | inr f ↦ inr (
            In-remove k j w (each_once m) ((ih.entry j w).1 (rw f at h))
              (λ e. let no : (k == j) ≡ true = (eq_iff k j).1 e in cc))
      ]

  -- Every map has an order.
  pub each_once-IsRange : (m : Map V) → IsRange m (each_once m)
  unfolding each_once lookup
  each_once-IsRange [] = record { distinct = tt; entry = λ k v. (λ i. absurd i, λ h. cc) }
  each_once-IsRange ((k, v) ∷ m) = each_once_more k v m (each_once-IsRange m)
