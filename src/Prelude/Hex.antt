-- ===== src/Prelude/Hex.antt =====
-- Package `encoding/hex`: bytes as lowercase hexadecimal text, and back.
use Prim.Native.Nat.{ℕ, zero, suc, ◌+◌, ◌-◌, ◌*◌, ◌/◌, ◌%◌, ◌<◌}
use Prim.Native.Char.{Char, code}
use Prim.Native.String.{String, [], ◌∷◌}
use mathlib.Core.Path.{◌≡◌, refl, sym, ap, ◌∙◌, subst}
use mathlib.Core.Logic.{inl, inr}
use mathlib.Core.Bool.{true, false, ◌&&◌}
use mathlib.Core.Option.{Option, none, some}
use mathlib.Core.List as L
use native.Mathlib.Omega.{arith}
use kubernetes_operator.Prelude.Tests.{ltb, leb, if◌then◌else◌, Bool-cases}
use kubernetes_operator.Prelude.Lists.{In}
use kubernetes_operator.Prelude.Decimal.{digit, code-digit}
use kubernetes_operator.Prelude.Pieces.{is_without}

unfoldable pub letter : ℕ → Char
letter zero = "a"
letter (suc zero) = "b"
letter (suc (suc zero)) = "c"
letter (suc (suc (suc zero))) = "d"
letter (suc (suc (suc (suc zero)))) = "e"
letter (suc (suc (suc (suc (suc _))))) = "f"

code-letter : (n : ℕ) → n < 6 → code (letter n) ≡ 97 + n
unfolding letter
code-letter zero h = refl
code-letter (suc zero) h = refl
code-letter (suc (suc zero)) h = refl
code-letter (suc (suc (suc zero))) h = refl
code-letter (suc (suc (suc (suc zero)))) h = refl
code-letter (suc (suc (suc (suc (suc zero))))) h = refl
code-letter (suc (suc (suc (suc (suc (suc n)))))) h = absurd (omega arith)

unfoldable pub hex_digit : ℕ → Char
unfolding digit letter
hex_digit n = if ltb n 10 then digit n else letter (n - 10)

-- `hex.EncodeToString`
unfoldable pub hex_encode : L.List ℕ → String
unfolding hex_digit
hex_encode L.[] = []
hex_encode (L.◌∷◌ b bs) = hex_digit (b / 16) ∷ (hex_digit (b % 16) ∷ hex_encode bs)

unfoldable pub hex_value : Char → Option ℕ
hex_value c =
    if leb 48 (code c) && leb (code c) 57
    then some (code c - 48)
    else if leb 97 (code c) && leb (code c) 102
    then some (code c - 87)
    else if leb 65 (code c) && leb (code c) 70
    then some (code c - 55)
    else none

unfoldable pub hex_byte : Option ℕ → Option ℕ → Option (L.List ℕ) → Option (L.List ℕ)
hex_byte none low rest = none
hex_byte (some a) none rest = none
hex_byte (some a) (some b) none = none
hex_byte (some a) (some b) (some bs) = some (L.◌∷◌ (a * 16 + b) bs)

-- `hex.DecodeString`
unfoldable pub hex_decode : String → Option (L.List ℕ)
unfolding hex_value hex_byte
hex_decode [] = some L.[]
hex_decode (c ∷ []) = none
hex_decode (c ∷ (d ∷ s)) = hex_byte (hex_value c) (hex_value d) (hex_decode s)

code-hex_digit : (n : ℕ) → n < 16 → code (hex_digit n) ≡ (if ltb n 10 then 48 + n else 87 + n)
unfolding hex_digit
code-hex_digit n h = elim (Bool-cases (ltb n 10)) [
  | inl t ↦ rw t (code-digit n (ground arith))
  | inr f ↦
      let small : n - 10 < 6 = omega arith in
      let large : 87 + n ≡ 97 + (n - 10) = ground arith in
      rw f (code-letter (n - 10) small ∙ ground arith)
]

hex_value-hex_digit : (n : ℕ) → n < 16 → hex_value (hex_digit n) ≡ some n
unfolding hex_value
hex_value-hex_digit n h =
    let c = code-hex_digit n h in
    elim (Bool-cases (ltb n 10)) [
      | inl t ↦
          let small : code (hex_digit n) ≡ 48 + n = rw t at c in
          let test : (leb 48 (code (hex_digit n)) && leb (code (hex_digit n)) 57) ≡ true =
            ground arith in
          rw test (ap some (omega (arith, small)))
      | inr f ↦
          let large : code (hex_digit n) ≡ 87 + n = rw f at c in
          let test : (leb 48 (code (hex_digit n)) && leb (code (hex_digit n)) 57) ≡ false =
            ground arith in
          let next : (leb 97 (code (hex_digit n)) && leb (code (hex_digit n)) 102) ≡ true =
            ground arith in
          rw (test, next) (ap some (omega (arith, large)))
    ]

-- What is encoded is decoded to the same bytes.
pub hex_decode-hex_encode :
    (bs : L.List ℕ) → ((b : ℕ) → In b bs → b < 256) → hex_decode (hex_encode bs) ≡ some bs
unfolding hex_decode hex_encode hex_byte
hex_decode-hex_encode L.[] h = refl
hex_decode-hex_encode (L.◌∷◌ b bs) h =
    let small = h b (inl refl) in
    let high = hex_value-hex_digit (b / 16) (omega arith) in
    let low = hex_value-hex_digit (b % 16) (omega arith) in
    let rest = hex_decode-hex_encode bs (λ c i. h c (inr i)) in
    rw (high, low, rest) (ap (λ n. some (L.◌∷◌ n bs)) (omega arith))

-- No character of the encoding is a colon.
pub hex_encode-is_without :
    (bs : L.List ℕ) → ((b : ℕ) → In b bs → b < 256) → is_without ":" (hex_encode bs) ≡ true
unfolding hex_encode
hex_encode-is_without L.[] h = refl
hex_encode-is_without (L.◌∷◌ b bs) h =
    let small = h b (inl refl) in
    let high = code-hex_digit (b / 16) (omega arith) in
    let low = code-hex_digit (b % 16) (omega arith) in
    let rest = hex_encode-is_without bs (λ c i. h c (inr i)) in ground arith

small_digit : (c : Char) (n : ℕ) → hex_value c ≡ some n → n < 16
unfolding hex_value
small_digit c n h = ground arith

-- Only bytes are decoded.
pub hex_decode_bytes :
    (s : String) (bs : L.List ℕ) → hex_decode s ≡ some bs → (b : ℕ) → In b bs → b < 256
hex_decode_bytes [] bs h =
    unfold hex_decode in
    let empty : L.[] ≡ bs = cc in λ b i. absurd (subst (λ (l : L.List ℕ). In b l) (sym empty) i)
hex_decode_bytes (c ∷ []) bs h = unfold hex_decode in cc
hex_decode_bytes (c ∷ (d ∷ s)) bs h =
    from (hex_value c) (hex_value d) (hex_decode s) refl refl refl (unfold hex_decode in h)
      (hex_decode_bytes s)
  where
    from :
        (high low : Option ℕ) (rest : Option (L.List ℕ))
        → hex_value c ≡ high
        → hex_value d ≡ low
        → hex_decode s ≡ rest
        → hex_byte high low rest ≡ some bs
        → ((later : L.List ℕ) → hex_decode s ≡ some later → (b : ℕ) → In b later → b < 256)
        → (b : ℕ) → In b bs
        → b < 256
    from none low rest e f g h ih = unfold hex_byte in cc
    from (some a) none rest e f g h ih = unfold hex_byte in cc
    from (some a) (some b) none e f g h ih = unfold hex_byte in cc
    from (some a) (some b) (some later) e f g h ih =
        unfold hex_byte in
        let whole : L.◌∷◌ (a * 16 + b) later ≡ bs = cc in
        λ n i. elim (subst (λ (l : L.List ℕ). In n l) (sym whole) i) [
          | inl same ↦ omega (arith, small_digit c a e, small_digit d b f, same)
          | inr j ↦ ih later g n j
        ]
