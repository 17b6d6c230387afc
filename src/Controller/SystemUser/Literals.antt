-- ===== src/Controller/SystemUser/Literals.antt =====
-- internal/controller/systemuser.go, `pbkdf2HashMatches`: which hashes of a password match.
use Prim.Native.String as Text
use text.Mathlib.TextLemmas.{nil-append, cons-append, append-nil}
use kubernetes_operator.Prelude.{
  ℕ, ◌<◌, String, ◌≡◌, refl, sym, ap, ◌∙◌, ◌↔◌, ◌⊎◌, inl, inr, true, Option, none, some, List, [],
  ◌∷◌, length, In, eqb_iff, ◌==◌, eq_iff, concat, arith,
}
use kubernetes_operator.Prelude.Text.{cut_prefix_iff}
use kubernetes_operator.Prelude.Pieces.{cut, cut-append}
use kubernetes_operator.Prelude.Hex.{
  hex_encode, hex_decode, hex_decode-hex_encode, hex_encode-is_without, hex_decode_bytes,
}
use kubernetes_operator.Controller.SystemUser.Algorithms.{
  pbkdf2_literal, same_bytes, trim_prefix, derives, decoded_matches, parts_match,
  pbkdf2_hash_matches,
}

abbrev pub Bytes : List ℕ → Type 0
Bytes bs = (b : ℕ) → In b bs → b < 256

same_bytes_iff : (bs cs : List ℕ) → (same_bytes bs cs ≡ true) ↔ (bs ≡ cs)
unfolding same_bytes
same_bytes_iff [] [] = (λ h. refl, λ h. refl)
same_bytes_iff [] (c ∷ cs) = (λ h. cc, λ h. cc)
same_bytes_iff (b ∷ bs) [] = (λ h. cc, λ h. cc)
same_bytes_iff (b ∷ bs) (c ∷ cs) = (
  λ h.
      let first : b ≡ c = ground (arith, eqb_iff b c) in
      let rest = (same_bytes_iff bs cs).0 (ground arith) in (λ i. first i ∷ rest i),
  λ h.
      let first : b ≡ c = cc in
      let rest : bs ≡ cs = cc in rw ((eqb_iff b c).1 first, (same_bytes_iff bs cs).1 rest) refl,
)

module _ (derive : String → List ℕ → String ⊎ List ℕ) (password : String) where
  -- A salt of sixteen bytes and the key that is derived from it.
  abbrev pub Derived : List ℕ → List ℕ → Type 0
  Derived salt key = (length salt ≡ 16) × Bytes salt × Bytes key × (derive password salt ≡ inr key)

  derives_iff : (o : String ⊎ List ℕ) (key : List ℕ) → (derives derive o key ≡ true) ↔ (o ≡ inr key)
  unfolding derives
  derives_iff (inl e) key = (λ h. cc, λ h. cc)
  derives_iff (inr bs) key = (
    λ h. ap inr ((same_bytes_iff bs key).0 h),
    λ h. let same : bs ≡ key = cc in (same_bytes_iff bs key).1 same,
  )

  parts-Derived :
      (hash : String) (o : Option (String × String))
      → parts_match derive hash password o ≡ true
      → (salt key : List ℕ) × Derived salt key × (hash ≡ pbkdf2_literal salt key)
  unfolding parts_match
  parts-Derived hash none h = cc
  parts-Derived hash (some (salt_hex, key_hex)) h =
      from (hex_decode salt_hex) (hex_decode key_hex) (hex_decode_bytes salt_hex)
        (hex_decode_bytes key_hex) h
    where
      from :
          (o p : Option (List ℕ))
          → ((bs : List ℕ) → o ≡ some bs → Bytes bs)
          → ((bs : List ℕ) → p ≡ some bs → Bytes bs)
          → decoded_matches derive hash password o p ≡ true
          → (salt key : List ℕ) × Derived salt key × (hash ≡ pbkdf2_literal salt key)
      from none p small small' g = unfold decoded_matches in cc
      from (some salt) none small small' g = unfold decoded_matches in cc
      from (some salt) (some key) small small' g =
          unfold decoded_matches in
          (
            salt,
            key,
            (
              (eqb_iff (length salt) 16).0 (ground arith),
              small salt refl,
              small' key refl,
              (derives_iff (derive password salt) key).0 (ground arith),
            ),
            sym ((eq_iff (pbkdf2_literal salt key) hash).0 (ground arith)),
          )

  literal_shape :
      (salt key : List ℕ)
      → pbkdf2_literal salt key
        ≡ Text.◌++◌ "pbkdf2-sha256:600000:"
            (Text.◌++◌ (hex_encode salt) (Text.◌∷◌ ":" (hex_encode key)))
  unfolding pbkdf2_literal concat
  literal_shape salt key =
      ap (λ s. Text.◌++◌ "pbkdf2-sha256:600000:" (Text.◌++◌ (hex_encode salt) s))
        (cons-append ":" Text.[] (Text.◌++◌ (hex_encode key) "")
          ∙ ap (Text.◌∷◌ ":") (nil-append _ ∙ append-nil (hex_encode key)))

  trimmed_to :
      (hash rest : String)
      → hash ≡ Text.◌++◌ "pbkdf2-sha256:600000:" rest
      → trim_prefix "pbkdf2-sha256:600000:" hash ≡ rest
  unfolding trim_prefix
  trimmed_to hash rest e =
      let found = (cut_prefix_iff "pbkdf2-sha256:600000:" hash rest).1 e in
      rw (trim_prefix, found) refl

  matched :
      (salt key : List ℕ) (hash : String)
      → Derived salt key
      → hash ≡ pbkdf2_literal salt key
      → parts_match derive hash password (some (hex_encode salt, hex_encode key)) ≡ true
  unfolding parts_match decoded_matches
  matched salt key hash (sixteen, salt_small, key_small, derived) same =
      let literal : (pbkdf2_literal salt key == hash) ≡ true = (eq_iff _ _).1 (sym same) in
      ap (λ o. decoded_matches derive hash password o (hex_decode (hex_encode key)))
        (hex_decode-hex_encode salt salt_small)
      ∙ ap (decoded_matches derive hash password (some salt)) (hex_decode-hex_encode key key_small)
      ∙ rw
          (
            (eqb_iff (length salt) 16).1 sixteen,
            literal,
            (derives_iff (derive password salt) key).1 derived,
          )
          refl

  -- The hashes that match are exactly the literals that the operator writes: of a salt of sixteen bytes and
  -- the key that PBKDF2 derives of the password and that salt.
  pub pbkdf2_hash_matches_iff :
      (hash : String)
      → (pbkdf2_hash_matches derive hash password ≡ true)
        ↔ ((salt key : List ℕ) × Derived salt key × (hash ≡ pbkdf2_literal salt key))
  unfolding pbkdf2_hash_matches
  pbkdf2_hash_matches_iff hash = (
    λ h. parts-Derived hash (cut ":" (trim_prefix "pbkdf2-sha256:600000:" hash)) h,
    λ (salt, key, (sixteen, salt_small, key_small, derived), same).
        let rest = Text.◌++◌ (hex_encode salt) (Text.◌∷◌ ":" (hex_encode key)) in
        let trimmed : trim_prefix "pbkdf2-sha256:600000:" hash ≡ rest =
          trimmed_to hash rest (same ∙ literal_shape salt key) in
        let parts : cut ":" (trim_prefix "pbkdf2-sha256:600000:" hash)
            ≡ some (hex_encode salt, hex_encode key) =
          ap (cut ":") trimmed
          ∙ cut-append ":" (hex_encode salt) (hex_encode key)
              (hex_encode-is_without salt salt_small) in
        ap (parts_match derive hash password) parts
        ∙ matched salt key hash (sixteen, salt_small, key_small, derived) same,
  )
