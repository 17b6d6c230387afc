-- ===== src/Prelude/Text.antt =====
-- What package `strings` does to texts: a prefix cut off, and white space folded.
use Prim.Native.Char.{Char, code}
use Prim.Native.String.{String, [], ◌∷◌, ◌++◌}
use mathlib.Core.Path.{◌≡◌, refl, sym, ap, ◌∙◌, subst}
use mathlib.Core.Logic.{◌↔◌, inl, inr}
use mathlib.Core.Bool.{Bool, true, false, ◌&&◌, ◌||◌}
use mathlib.Core.Option.{Option, none, some}
use mathlib.Core.List as L
use text.Mathlib.TextEquality.{Char-path}
use text.Mathlib.TextLemmas.{nil-append, cons-append}
use kubernetes_operator.Prelude.Tests.{leb, eqb, eqb_iff, if◌then◌else◌, Bool-cases}

-- `strings.CutPrefix(s, prefix)`
unfoldable pub cut_prefix : String → String → Option String
cut_prefix [] s = some s
cut_prefix (c ∷ p) [] = none
cut_prefix (c ∷ p) (d ∷ s) =
    let rest = cut_prefix p s in if eqb (code c) (code d) then rest else none

-- What is left is what stands after the prefix.
pub cut_prefix_iff : (p s r : String) → (cut_prefix p s ≡ some r) ↔ (s ≡ p ++ r)
unfolding cut_prefix
cut_prefix_iff p s r = (from p s, of p s)
  where
    from : (p s : String) → cut_prefix p s ≡ some r → s ≡ p ++ r
    from [] s h = let same : s ≡ r = cc in same ∙ sym (nil-append r)
    from (c ∷ p) [] h = cc
    from (c ∷ p) (d ∷ s) h = elim (Bool-cases (eqb (code c) (code d))) [
      | inl t ↦
          let same = Char-path c d ((eqb_iff _ _).0 t) in
          let rest = from p s (rw t at h) in (λ i. sym same i ∷ rest i) ∙ sym (cons-append c p r)
      | inr f ↦ let never : none ≡ some r = rw f at h in cc
    ]

    of : (p s : String) → s ≡ p ++ r → cut_prefix p s ≡ some r
    of p s e = subst (λ u. cut_prefix p u ≡ some r) (sym e) (own p)
      where
        own : (p : String) → cut_prefix p (p ++ r) ≡ some r
        own [] = ap some (nil-append r)
        own (c ∷ p) =
            ap (cut_prefix (c ∷ p)) (cons-append c p r)
            ∙ rw ((eqb_iff (code c) (code c)).1 refl) (own p)

-- `unicode.IsSpace`
unfoldable pub is_space : Char → Bool
is_space c =
    (leb 9 (code c) && leb (code c) 13)
    || (eqb (code c) 32
        || (eqb (code c) 133
            || (eqb (code c) 160
                || (eqb (code c) 5760
                    || ((leb 8192 (code c) && leb (code c) 8202)
                        || (eqb (code c) 8232
                            || (eqb (code c) 8233
                                || (eqb (code c) 8239
                                    || (eqb (code c) 8287 || eqb (code c) 12288)))))))))

unfoldable pub is_blank : String → Bool
is_blank [] = true
is_blank (c ∷ s) = false

-- A word is listed unless it is empty.
unfoldable pub listed : String → L.List String → L.List String
listed [] words = words
listed (c ∷ word) words = L.◌∷◌ (c ∷ word) words

-- The word that the text goes on with, and the words after it.
unfoldable pub split : String → String × L.List String
unfolding is_space listed
split [] = ([], L.[])
split (c ∷ s) =
    let (word, words) = split s in if is_space c then ([], listed word words) else (c ∷ word, words)

-- `strings.Fields`
unfoldable pub fields : String → L.List String
unfolding split listed
fields s = let (word, words) = split s in listed word words
