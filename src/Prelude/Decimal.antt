-- ===== src/Prelude/Decimal.antt =====
-- `%d` and `strconv.FormatInt(n, 10)` at a number that is not negative, and its injectivity.
use Prim.Native.Nat.{ℕ, zero, suc, ◌+◌, ◌-◌, ◌*◌, ◌/◌, ◌%◌, ◌<◌}
use Prim.Native.Char.{Char, code}
use Prim.Native.String.{String, [], ◌∷◌}
use mathlib.Core.Path.{◌≡◌, refl, sym, ap, ◌∙◌}
use native.Mathlib.Omega.{arith}
use kubernetes_operator.Prelude.Tests.{eqb, if◌then◌else◌, Bool-cases}
use mathlib.Core.Logic.{inl, inr}

unfoldable pub digit : ℕ → Char
digit zero = "0"
digit (suc zero) = "1"
digit (suc (suc zero)) = "2"
digit (suc (suc (suc zero))) = "3"
digit (suc (suc (suc (suc zero)))) = "4"
digit (suc (suc (suc (suc (suc zero))))) = "5"
digit (suc (suc (suc (suc (suc (suc zero)))))) = "6"
digit (suc (suc (suc (suc (suc (suc (suc zero))))))) = "7"
digit (suc (suc (suc (suc (suc (suc (suc (suc zero)))))))) = "8"
digit (suc (suc (suc (suc (suc (suc (suc (suc (suc _))))))))) = "9"

pub code-digit : (d : ℕ) → d < 10 → code (digit d) ≡ 48 + d
unfolding digit
code-digit zero h = refl
code-digit (suc zero) h = refl
code-digit (suc (suc zero)) h = refl
code-digit (suc (suc (suc zero))) h = refl
code-digit (suc (suc (suc (suc zero)))) h = refl
code-digit (suc (suc (suc (suc (suc zero))))) h = refl
code-digit (suc (suc (suc (suc (suc (suc zero)))))) h = refl
code-digit (suc (suc (suc (suc (suc (suc (suc zero))))))) h = refl
code-digit (suc (suc (suc (suc (suc (suc (suc (suc zero)))))))) h = refl
code-digit (suc (suc (suc (suc (suc (suc (suc (suc (suc zero))))))))) h = refl
code-digit (suc (suc (suc (suc (suc (suc (suc (suc (suc (suc d)))))))))) h = absurd (omega arith)

-- The digits from the last one up; a number has fewer digits than the fuel `n + 1`.
unfoldable pub emit : ℕ → ℕ → String → String
emit zero n out = out
emit (suc fuel) n out =
    let more = emit fuel (n / 10) (digit (n % 10) ∷ out) in
    if eqb (n / 10) 0 then digit (n % 10) ∷ out else more

unfoldable pub decimal : ℕ → String
unfolding emit digit
decimal n = emit (suc n) n []

-- The number that a text of digits continues.
scan : ℕ → String → ℕ
scan n [] = n
scan n (c ∷ s) = scan (n * 10 + (code c - 48)) s

scan-digit : (n d : ℕ) (out : String) → d < 10 → scan n (digit d ∷ out) ≡ scan (n * 10 + d) out
unfolding scan
scan-digit n d out h = ap (λ k. scan k out) (omega (arith, code-digit d h))

scan-emit : (fuel n : ℕ) (out : String) → n < fuel → scan 0 (emit fuel n out) ≡ scan n out
unfolding emit
scan-emit zero n out h = absurd (omega arith)
scan-emit (suc fuel) n out h = elim (Bool-cases (eqb (n / 10) 0)) [
  | inl done ↦
      rw done (scan-digit 0 (n % 10) out (omega arith) ∙ ap (λ k. scan k out) (ground arith))
  | inr more ↦ rw more (
      scan-emit fuel (n / 10) (digit (n % 10) ∷ out) (ground arith)
      ∙ scan-digit (n / 10) (n % 10) out (omega arith)
      ∙ ap (λ k. scan k out) (omega arith))
]

scan-decimal : (n : ℕ) → scan 0 (decimal n) ≡ n
unfolding decimal scan
scan-decimal n = scan-emit (suc n) n [] (omega arith)

pub decimal_injective : (m n : ℕ) → decimal m ≡ decimal n → m ≡ n
decimal_injective m n h = sym (scan-decimal m) ∙ ap (scan 0) h ∙ scan-decimal n
