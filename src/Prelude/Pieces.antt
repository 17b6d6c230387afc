-- ===== src/Prelude/Pieces.antt =====
-- What package `strings` does to texts at a separator of one character: `Cut` and `SplitSeq`.
use Prim.Native.Char.{Char, code}
use Prim.Native.String.{String, [], ◌∷◌, ◌++◌}
use mathlib.Core.Path.{◌≡◌, refl, ap, ◌∙◌}
use mathlib.Core.Bool.{Bool, true, false, not, ◌&&◌}
use mathlib.Core.Option.{Option, none, some}
use mathlib.Core.List as L
use native.Mathlib.Omega.{arith}
use text.Mathlib.TextLemmas.{nil-append, cons-append}
use kubernetes_operator.Prelude.Tests.{eqb, eqb_iff, if◌then◌else◌}

unfoldable pub before : Char → Option (String × String) → Option (String × String)
before c none = none
before c (some (s, t)) = some (c ∷ s, t)

-- `strings.Cut(s, sep)`
unfoldable pub cut : Char → String → Option (String × String)
unfolding before
cut sep [] = none
cut sep (c ∷ s) =
    let rest = before c (cut sep s) in if eqb (code c) (code sep) then some ([], s) else rest

-- The piece that the text goes on with, and the pieces after it.
unfoldable pub split_first : Char → String → String × L.List String
split_first sep [] = ([], L.[])
split_first sep (c ∷ s) =
    let (piece, pieces) = split_first sep s in
    if eqb (code c) (code sep) then ([], L.◌∷◌ piece pieces) else (c ∷ piece, pieces)

-- `strings.SplitSeq(s, sep)`
unfoldable pub split_at : Char → String → L.List String
unfolding split_first
split_at sep s = let (piece, pieces) = split_first sep s in L.◌∷◌ piece pieces

-- The text does not have the character.
abbrev pub is_without : Char → String → Bool
is_without sep [] = true
is_without sep (c ∷ s) = not (eqb (code c) (code sep)) && is_without sep s

pub is_without-append :
    (sep : Char) (s t : String)
    → is_without sep s ≡ true
    → is_without sep t ≡ true
    → is_without sep (s ++ t) ≡ true
is_without-append sep [] t h k = ap (is_without sep) (nil-append t) ∙ k
is_without-append sep (c ∷ s) t h k =
    ap (is_without sep) (cons-append c s t)
    ∙ ground (arith, is_without-append sep s t (ground arith) k)

-- A text is cut at the first separator.
pub cut-append :
    (sep : Char) (s t : String) → is_without sep s ≡ true → cut sep (s ++ (sep ∷ t)) ≡ some (s, t)
unfolding cut before
cut-append sep [] t h =
    ap (cut sep) (nil-append (sep ∷ t)) ∙ rw ((eqb_iff (code sep) (code sep)).1 refl) refl
cut-append sep (c ∷ s) t h =
    let other : eqb (code c) (code sep) ≡ false = ground arith in
    let rest : is_without sep s ≡ true = ground arith in
    ap (cut sep) (cons-append c s (sep ∷ t)) ∙ rw (other, cut-append sep s t rest) refl

-- A text that goes on after the first separator is split there.
pub split_at-append :
    (sep : Char) (s t : String)
    → is_without sep s ≡ true
    → split_at sep (s ++ (sep ∷ t)) ≡ L.◌∷◌ s (split_at sep t)
unfolding split_at
split_at-append sep s t h = rw (first s h) refl
  where
    first :
        (s : String)
        → is_without sep s ≡ true
        → split_first sep (s ++ (sep ∷ t)) ≡ (s, split_at sep t)
    first [] h =
        ap (split_first sep) (nil-append (sep ∷ t))
        ∙ unfold split_first in rw ((eqb_iff (code sep) (code sep)).1 refl) refl
    first (c ∷ s) h =
        let other : eqb (code c) (code sep) ≡ false = ground arith in
        let rest : is_without sep s ≡ true = ground arith in
        let later = first s rest in
        ap (split_first sep) (cons-append c s (sep ∷ t))
        ∙ unfold split_first in rw (other, later) refl
