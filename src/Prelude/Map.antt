-- ===== src/Prelude/Map.antt =====
-- Go's `map[string]V` as an association list, and the index of a list by a name.
use Prim.Native.String.{String}
use mathlib.Core.Path.{◌≡◌, refl, ap, ◌∙◌}
use mathlib.Core.Logic.{◌⊎◌, inl, inr}
use mathlib.Core.Option.{Option, none, some}
use mathlib.Core.List.{List, [], ◌∷◌}
use native.Mathlib.Omega.{arith}
use text.Mathlib.Text.{◌==◌}
use text.Mathlib.TextEquality.{eq_iff}
use kubernetes_operator.Prelude.Tests.{if◌then◌else◌, Bool-cases}
use kubernetes_operator.Prelude.Lists.{In}

abbrev pub Map : Type 0 → Type 0
Map V = List (String × V)

module _ {V : Type 0} where
  -- `v, ok := m[k]`
  unfoldable pub lookup : String → Map V → Option V
  lookup wanted [] = none
  lookup wanted ((key, value) ∷ entries) =
      if key == wanted then some value else lookup wanted entries

  -- `delete(m, k)`
  unfoldable pub remove : String → Map V → Map V
  remove gone [] = []
  remove gone ((key, value) ∷ entries) =
      let kept = remove gone entries in if key == gone then kept else (key, value) ∷ kept

  -- `m[k] = v`
  unfoldable pub insert : String → V → Map V → Map V
  insert key value [] = (key, value) ∷ []
  insert key value ((other, old) ∷ entries) =
      if other == key then (key, value) ∷ entries else (other, old) ∷ insert key value entries

  pub lookup-insert :
      (key asked : String) (value : V) (m : Map V)
      → lookup asked (insert key value m) ≡ (if key == asked then some value else lookup asked m)
  unfolding lookup insert
  lookup-insert key asked value [] = refl
  lookup-insert key asked value ((first, old) ∷ entries) =
      let later = lookup-insert key asked value entries in
      ground (arith, later, eq_iff first asked, eq_iff first key, eq_iff key asked)

  pub lookup-remove :
      (gone asked : String) (m : Map V)
      → lookup asked (remove gone m) ≡ (if gone == asked then none else lookup asked m)
  unfolding lookup remove
  lookup-remove gone asked [] = ground arith
  lookup-remove gone asked ((key, value) ∷ m) =
      ground
        (arith, eq_iff gone asked, eq_iff key gone, eq_iff key asked, lookup-remove gone asked m)

module _ {V : Type 0} (key : V → String) where
  -- `for _, v := range vs { m[key(v)] = v }`
  unfoldable pub index_into : List V → Map V → Map V
  index_into [] m = m
  index_into (v ∷ vs) m = index_into vs (insert (key v) v m)

  -- The last element that carries the name, or the given one.
  unfoldable pub last_named : String → List V → Option V → Option V
  last_named k [] o = o
  last_named k (v ∷ vs) o = last_named k vs (if key v == k then some v else o)

  pub lookup-index_into :
      (k : String) (vs : List V) (m : Map V)
      → lookup k (index_into vs m) ≡ last_named k vs (lookup k m)
  unfolding index_into last_named
  lookup-index_into k [] m = refl
  lookup-index_into k (v ∷ vs) m = rw (lookup-index_into k vs (insert (key v) v m), lookup-insert)

  last_named-some :
      (k : String) (vs : List V) (a : V) → (b : V) × (last_named k vs (some a) ≡ some b)
  unfolding last_named
  last_named-some k [] a = (a, refl)
  last_named-some k (v ∷ vs) a = elim (Bool-cases (key v == k)) [
    | inl t ↦ rw t (last_named-some k vs v)
    | inr f ↦ rw f (last_named-some k vs a)
  ]

  pub last_named-In :
      (k : String) (vs : List V) (o : Option V) (a : V)
      → last_named k vs o ≡ some a
      → (In a vs × (key a ≡ k)) ⊎ (o ≡ some a)
  unfolding last_named
  last_named-In k [] o a h = inr h
  last_named-In k (v ∷ vs) o a h = elim (last_named-In k vs _ a h) [
    | inl found ↦ inl (inr found.0, found.1)
    | inr e ↦ elim (Bool-cases (key v == k)) [
      | inl t ↦ let same : v ≡ a = ground arith in inl (inl same, ground (arith, eq_iff (key v) k))
      | inr f ↦ inr (ground arith)
    ]
  ]

  pub last_named_of_In :
      (k : String) (vs : List V) (o : Option V) (a : V)
      → In a vs
      → key a ≡ k
      → (b : V) × (last_named k vs o ≡ some b)
  unfolding last_named
  last_named_of_In k [] o a h e = absurd h
  last_named_of_In k (v ∷ vs) o a (inl s) e =
      rw ((eq_iff (key v) k).1 (ap key s ∙ e)) (last_named-some k vs v)
  last_named_of_In k (v ∷ vs) o a (inr h) e = last_named_of_In k vs _ a h e
