-- ===== src/Prelude/Parse.antt =====
-- `strconv.ParseInt(s, 10, 32)`, and the texts that are a number's own: the ones that the operator
-- takes for a pod's ordinal.
use Prim.Native.Nat.{ℕ, zero, suc, ◌+◌, ◌-◌, ◌*◌, ◌/◌, ◌%◌, ◌<◌, ◌≤◌}
use Prim.Native.Char.{Char, code}
use Prim.Native.String.{String, [], ◌∷◌}
use mathlib.Core.Path.{◌≡◌, refl, sym, ap, ◌∙◌}
use mathlib.Core.Logic.{◌↔◌, inl, inr}
use mathlib.Core.Bool.{Bool, true, ◌&&◌}
use mathlib.Core.Option.{Option, none, some}
use native.Mathlib.Omega.{arith}
use text.Mathlib.Text.{◌==◌}
use text.Mathlib.TextEquality.{eq_iff}
use kubernetes_operator.Prelude.Tests.{ltb, leb, eqb, if◌then◌else◌, Bool-cases}
use kubernetes_operator.Prelude.Decimal.{decimal, digit, emit, code-digit}
use kubernetes_operator.Prelude.Int.{ℤ, pos, negsuc}

abbrev pub is_digit : Char → Bool
is_digit c = leb 48 (code c) && leb (code c) 57

-- The digits that follow the number `n`.
unfoldable pub parse_digits : ℕ → String → Option ℕ
parse_digits n [] = some n
parse_digits n (c ∷ s) =
    let rest = parse_digits (n * 10 + (code c - 48)) s in if is_digit c then rest else none

-- A number needs a digit.
unfoldable pub parse_uint : String → Option ℕ
unfolding parse_digits
parse_uint [] = none
parse_uint (c ∷ s) = parse_digits 0 (c ∷ s)

abbrev negated : ℕ → ℤ
negated zero = pos 0
negated (suc n) = negsuc n

-- The range of an `int32`.
unfoldable pub positive : Option ℕ → Option ℤ
positive none = none
positive (some n) = if ltb n 2147483648 then some (pos n) else none

unfoldable pub negative : Option ℕ → Option ℤ
negative none = none
negative (some n) = if leb n 2147483648 then some (negated n) else none

-- `strconv.ParseInt(s, 10, 32)`, of which an error is `none`.
unfoldable pub parse_int : String → Option ℤ
unfolding parse_uint positive negative
parse_int [] = none
parse_int (c ∷ s) =
    if eqb (code c) 43
    then positive (parse_uint s)
    else if eqb (code c) 45
    then negative (parse_uint s)
    else positive (parse_uint (c ∷ s))

unfoldable pub own_digits : String → Option ℤ → Option ℕ
own_digits s none = none
own_digits s (some (negsuc n)) = none
own_digits s (some (pos n)) = if decimal n == s then some n else none

-- `ordinal, err := strconv.ParseInt(s, 10, 32)` where it is no error, not negative, and `FormatInt` of
-- it is the text again.
unfoldable pub ordinal_of : String → Option ℕ
unfolding parse_int own_digits
ordinal_of s = own_digits s (parse_int s)

parse_digits-digit :
    (n d : ℕ) (out : String)
    → d < 10
    → parse_digits n (digit d ∷ out) ≡ parse_digits (n * 10 + d) out
unfolding parse_digits
parse_digits-digit n d out h =
    let c = code-digit d h in
    let low : is_digit (digit d) ≡ true = ground (arith, c) in
    rw low (ap (λ k. parse_digits k out) (omega (arith, c)))

pub parse_digits-emit :
    (fuel n : ℕ) (out : String) → n < fuel → parse_digits 0 (emit fuel n out) ≡ parse_digits n out
unfolding emit
parse_digits-emit zero n out h = absurd (omega arith)
parse_digits-emit (suc fuel) n out h = elim (Bool-cases (eqb (n / 10) 0)) [
  | inl done ↦ rw done (
      parse_digits-digit 0 (n % 10) out (omega arith) ∙ ap (λ k. parse_digits k out) (ground arith))
  | inr more ↦ rw more (
      parse_digits-emit fuel (n / 10) (digit (n % 10) ∷ out) (ground arith)
      ∙ parse_digits-digit (n / 10) (n % 10) out (omega arith)
      ∙ ap (λ k. parse_digits k out) (omega arith))
]

-- The text Begins with a digit.
abbrev pub Begins : String → Type 0
Begins [] = ⊥
Begins (c ∷ s) = 48 ≤ code c

pub emit-Begins : (fuel n : ℕ) (out : String) → n < fuel → Begins (emit fuel n out)
unfolding emit
emit-Begins zero n out h = absurd (omega arith)
emit-Begins (suc fuel) n out h = elim (Bool-cases (eqb (n / 10) 0)) [
  | inl done ↦ rw done (omega (arith, code-digit (n % 10) (omega arith)))
  | inr more ↦ rw more (emit-Begins fuel (n / 10) (digit (n % 10) ∷ out) (ground arith))
]

parse_int-Begins : (s : String) → Begins s → parse_int s ≡ positive (parse_digits 0 s)
unfolding parse_int parse_uint
parse_int-Begins [] h = absurd h
parse_int-Begins (c ∷ s) h = ground arith

pub parse_int-decimal : (n : ℕ) → n < 2147483648 → parse_int (decimal n) ≡ some (pos n)
unfolding decimal parse_digits positive
parse_int-decimal n h =
    parse_int-Begins (emit (suc n) n []) (emit-Begins (suc n) n [] (omega arith))
    ∙ ap positive (parse_digits-emit (suc n) n [] (omega arith))
    ∙ ground arith

positive-bound : (o : Option ℕ) (n : ℕ) → positive o ≡ some (pos n) → n < 2147483648
unfolding positive
positive-bound none n h = cc
positive-bound (some m) n h = elim (Bool-cases (ltb m 2147483648)) [
  | inl small ↦
      let same : some (pos m) ≡ some (pos n) = rw small at h in
      let number : m ≡ n = cc in ground arith
  | inr large ↦ let never : none ≡ some (pos n) = rw large at h in cc
]

negated_pos : (m n : ℕ) → negated m ≡ pos n → n ≡ 0
negated_pos zero n h = cc
negated_pos (suc m) n h = cc

negative-bound : (o : Option ℕ) (n : ℕ) → negative o ≡ some (pos n) → n < 2147483648
unfolding negative
negative-bound none n h = cc
negative-bound (some m) n h = elim (Bool-cases (leb m 2147483648)) [
  | inl small ↦
      let same : some (negated m) ≡ some (pos n) = rw small at h in
      let number : negated m ≡ pos n = cc in omega (arith, negated_pos m n number)
  | inr large ↦ let never : none ≡ some (pos n) = rw large at h in cc
]

parse_int-bound : (s : String) (n : ℕ) → parse_int s ≡ some (pos n) → n < 2147483648
unfolding parse_int
parse_int-bound [] n h = cc
parse_int-bound (c ∷ s) n h = elim (Bool-cases (eqb (code c) 43)) [
  | inl plus ↦ positive-bound (parse_uint s) n (rw plus at h)
  | inr other ↦ elim (Bool-cases (eqb (code c) 45)) [
    | inl minus ↦ negative-bound (parse_uint s) n (rw (other, minus) at h)
    | inr number ↦ positive-bound (parse_uint (c ∷ s)) n (rw (other, number) at h)
  ]
]

own_digits_from :
    (s : String) (o : Option ℤ) (n : ℕ)
    → own_digits s o ≡ some n
    → (o ≡ some (pos n)) × (decimal n ≡ s)
unfolding own_digits
own_digits_from s none n h = cc
own_digits_from s (some (negsuc m)) n h = cc
own_digits_from s (some (pos m)) n h = elim (Bool-cases (decimal m == s)) [
  | inl own ↦
      let same : some m ≡ some n = rw own at h in
      let number : m ≡ n = cc in
      (ap (λ k. some (pos k)) number, ap decimal (sym number) ∙ (eq_iff (decimal m) s).0 own)
  | inr not_own ↦ let never : none ≡ some n = rw not_own at h in cc
]

-- A text is taken for the ordinal `n` exactly if it is the digits of `n`, a number that an `int32` holds.
pub ordinal_of_iff :
    (s : String) (n : ℕ) → (ordinal_of s ≡ some n) ↔ ((s ≡ decimal n) × (n < 2147483648))
unfolding ordinal_of own_digits
ordinal_of_iff s n = (
  λ h.
      let (number, own) = own_digits_from s (parse_int s) n h in
      (sym own, parse_int-bound s n number),
  λ (own, small).
      rw (ap parse_int own ∙ parse_int-decimal n small, (eq_iff (decimal n) s).1 (sym own)) refl,
)
