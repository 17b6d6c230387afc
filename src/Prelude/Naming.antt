-- ===== src/Prelude/Naming.antt =====
-- Names that end in a dash and a number: both parts can be read back.
use Prim.Native.Nat.{ℕ, zero, suc, ◌/◌, ◌%◌}
use Prim.Native.Char.{Char, code}
use Prim.Native.String.{String, [], ◌∷◌, ◌++◌}
use mathlib.Core.Path.{◌≡◌, refl, sym, ap, ◌∙◌, subst}
use mathlib.Core.Logic.{inl, inr}
use mathlib.Core.Bool.{Bool, true, not, ◌&&◌}
use native.Mathlib.Omega.{arith}
use text.Mathlib.TextLemmas.{nil-append, cons-append}
use kubernetes_operator.Prelude.Tests.{eqb, Bool-cases}
use kubernetes_operator.Prelude.Decimal.{decimal, decimal_injective, digit, emit, code-digit}

abbrev dashless : String → Bool
dashless [] = true
dashless (c ∷ s) = not (eqb (code c) 45) && dashless s

emit-dashless :
    (fuel n : ℕ) (out : String) → dashless out ≡ true → dashless (emit fuel n out) ≡ true
unfolding emit
emit-dashless zero n out h = h
emit-dashless (suc fuel) n out h =
    let c = code-digit (n % 10) (omega arith) in
    let more : dashless (digit (n % 10) ∷ out) ≡ true = ground (arith, c) in
    elim (Bool-cases (eqb (n / 10) 0)) [
      | inl done ↦ rw done more
      | inr left ↦ rw left (emit-dashless fuel (n / 10) (digit (n % 10) ∷ out) more)
    ]

decimal-dashless : (n : ℕ) → dashless (decimal n) ≡ true
unfolding decimal
decimal-dashless n = emit-dashless (suc n) n [] refl

tail : String → String
tail [] = []
tail (c ∷ s) = s

tail_eq : (c d : Char) (s t : String) → c ∷ s ≡ d ∷ t → s ≡ t
unfolding tail
tail_eq c d s t p = ap tail p

head_eq : (c d : Char) (s t : String) → c ∷ s ≡ d ∷ t → c ≡ d
head_eq c d s t p = cc

-- A text without a dash has none.
no_dash : (d s : String) (e : String) → dashless d ≡ true → d ≡ s ++ ("-" ∷ e) → ⊥
no_dash d [] e h p =
    let h' : dashless ("-" ∷ e) ≡ true =
      subst (λ u. dashless u ≡ true) (p ∙ nil-append ("-" ∷ e)) h in
    cc
no_dash [] (c ∷ s) e h p =
    let empty : "" ≡ c ∷ (s ++ ("-" ∷ e)) = p ∙ cons-append c s ("-" ∷ e) in cc
no_dash (b ∷ d) (c ∷ s) e h p =
    no_dash d s e (ground arith) (tail_eq b c d (s ++ ("-" ∷ e)) (p ∙ cons-append c s ("-" ∷ e)))

last_dash :
    (s t d e : String)
    → dashless d ≡ true
    → dashless e ≡ true
    → s ++ ("-" ∷ d) ≡ t ++ ("-" ∷ e)
    → (s ≡ t) × (d ≡ e)
last_dash [] [] d e h k p =
    (refl, tail_eq "-" "-" d e (sym (nil-append ("-" ∷ d)) ∙ p ∙ nil-append ("-" ∷ e)))
last_dash [] (b ∷ t) d e h k p = absurd (
    no_dash d t e h (
      tail_eq "-" b d (t ++ ("-" ∷ e))
        (sym (nil-append ("-" ∷ d)) ∙ p ∙ cons-append b t ("-" ∷ e))))
last_dash (a ∷ s) [] d e h k p = absurd (
    no_dash e s d k (
      tail_eq "-" a e (s ++ ("-" ∷ d))
        (sym (nil-append ("-" ∷ e)) ∙ sym p ∙ cons-append a s ("-" ∷ d))))
last_dash (a ∷ s) (b ∷ t) d e h k p =
    let q = sym (cons-append a s ("-" ∷ d)) ∙ p ∙ cons-append b t ("-" ∷ e) in
    let heads = head_eq a b (s ++ ("-" ∷ d)) (t ++ ("-" ∷ e)) q in
    let (same, numbers) = last_dash s t d e h k (tail_eq a b _ _ q) in
    (λ i. heads i ∷ same i, numbers)

dash_append : (s d : String) → s ++ ("-" ++ d) ≡ s ++ ("-" ∷ d)
dash_append s d = ap (λ u. s ++ u) (cons-append "-" [] d ∙ ap (λ u. "-" ∷ u) (nil-append d))

-- Names that end in a dash and a number are equal only if what stands before and the number are.
pub numbered_injective :
    (s t : String) (m n : ℕ) → s ++ ("-" ++ decimal m) ≡ t ++ ("-" ++ decimal n) → (s ≡ t) × (m ≡ n)
numbered_injective s t m n p =
    let (same, numbers) =
      last_dash s t (decimal m) (decimal n) (decimal-dashless m) (decimal-dashless n)
        (sym (dash_append s (decimal m)) ∙ p ∙ dash_append t (decimal n)) in
    (same, decimal_injective m n numbers)
