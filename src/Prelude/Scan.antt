-- ===== src/Prelude/Scan.antt =====
-- `fmt.Sscanf` with a format that is a text and one `%d`, into an `int32`. What follows the number is
-- not read.
use Prim.Native.Nat.{ℕ, suc, ◌+◌, ◌-◌, ◌*◌, ◌<◌}
use Prim.Native.Char.{Char, code}
use Prim.Native.String.{String, [], ◌∷◌, ◌++◌}
use mathlib.Core.Path.{◌≡◌, refl, ap, ◌∙◌}
use mathlib.Core.Logic.{inl, inr}
use mathlib.Core.Bool.{true, false, ◌||◌}
use mathlib.Core.Option.{Option, none, some}
use native.Mathlib.Omega.{arith}
use kubernetes_operator.Prelude.Tests.{eqb, if◌then◌else◌, Bool-cases}
use kubernetes_operator.Prelude.Int.{ℤ, pos}
use kubernetes_operator.Prelude.Decimal.{decimal}
use kubernetes_operator.Prelude.Text.{cut_prefix, cut_prefix_iff, is_space}
use kubernetes_operator.Prelude.Parse.{
  is_digit, Begins, parse_digits, parse_digits-emit, parse_int, parse_int-decimal, emit-Begins,
}

-- The digits that a text starts with.
unfoldable pub digit_run : String → String
digit_run [] = []
digit_run (c ∷ s) = let rest = digit_run s in if is_digit c then c ∷ rest else []

-- A sign, if there is one, and digits.
unfoldable pub number_token : String → String
unfolding digit_run
number_token [] = []
number_token (c ∷ s) =
    if eqb (code c) 43 || eqb (code c) 45 then c ∷ digit_run s else digit_run (c ∷ s)

-- White space is skipped, and a line break is an error.
unfoldable pub scan_int : String → Option ℤ
unfolding number_token
scan_int [] = none
scan_int (c ∷ s) =
    let rest = scan_int s in
    if eqb (code c) 10 then none else if is_space c then rest else parse_int (number_token (c ∷ s))

unfoldable pub scan_after : Option String → Option ℤ
unfolding scan_int
scan_after none = none
scan_after (some s) = scan_int s

-- `Sscanf(text, prefix+"%d", &n)`
unfoldable pub scanf : String → String → Option ℤ
unfolding scan_after cut_prefix
scanf prefix text = scan_after (cut_prefix prefix text)

digit_run_digits : (n m : ℕ) (s : String) → parse_digits n s ≡ some m → digit_run s ≡ s
unfolding parse_digits digit_run
digit_run_digits n m [] h = refl
digit_run_digits n m (c ∷ s) h = elim (Bool-cases (is_digit c)) [
  | inl t ↦ rw (t, digit_run_digits (n * 10 + (code c - 48)) m s (rw t at h)) refl
  | inr f ↦ let never : none ≡ some m = rw f at h in cc
]

not_space : (c : Char) → is_digit c ≡ true → is_space c ≡ false
unfolding is_space
not_space c h = ground arith

first_digit :
    (n m : ℕ) (c : Char) (s : String) → parse_digits n (c ∷ s) ≡ some m → is_digit c ≡ true
unfolding parse_digits
first_digit n m c s h = elim (Bool-cases (is_digit c)) [
  | inl t ↦ t
  | inr f ↦ let never : none ≡ some m = rw f at h in cc
]

token_digits :
    (m : ℕ) (c : Char) (s : String) → parse_digits 0 (c ∷ s) ≡ some m → number_token (c ∷ s) ≡ c ∷ s
unfolding number_token
token_digits m c s h =
    let t : is_digit c ≡ true = first_digit 0 m c s h in
    let unsigned : (eqb (code c) 43 || eqb (code c) 45) ≡ false = ground arith in
    rw unsigned (digit_run_digits 0 m (c ∷ s) h)

scan_int_digits :
    (m : ℕ) (s : String) → Begins s → parse_digits 0 s ≡ some m → scan_int s ≡ parse_int s
unfolding scan_int
scan_int_digits m [] b h = absurd b
scan_int_digits m (c ∷ s) b h =
    let t : is_digit c ≡ true = first_digit 0 m c s h in
    let visible : eqb (code c) 10 ≡ false = ground arith in
    rw (visible, not_space c t, token_digits m c s h) refl

-- The digits of a number are read back, whatever stands before them.
pub scanf-decimal :
    (prefix : String) (n : ℕ) → n < 2147483648 → scanf prefix (prefix ++ decimal n) ≡ some (pos n)
unfolding scanf decimal parse_digits
scanf-decimal prefix n small =
    ap scan_after ((cut_prefix_iff prefix (prefix ++ decimal n) (decimal n)).1 refl)
    ∙ scan_int_digits n (decimal n) (emit-Begins (suc n) n [] (omega arith))
        (parse_digits-emit (suc n) n [] (omega arith))
    ∙ parse_int-decimal n small
