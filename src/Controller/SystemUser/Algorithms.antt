-- ===== src/Controller/SystemUser/Algorithms.antt =====
-- internal/controller/systemuser.go: whether a hash, as the pods read it, is one of the password. PBKDF2
-- is a parameter, `derive`, which may fail, and so is bcrypt's `compare`.
use kubernetes_operator.Prelude.{
  ℕ, String, Bool, true, false, ◌&&◌, ◌⊎◌, inl, inr, Option, none, some, List, [], ◌∷◌, length, eqb,
  ◌==◌, if◌then◌else◌, concat,
}
use kubernetes_operator.Prelude.Text.{cut_prefix}
use kubernetes_operator.Prelude.Pieces.{cut}
use kubernetes_operator.Prelude.Hex.{hex_encode, hex_decode}

-- `pbkdf2Literal`
unfoldable pub pbkdf2_literal : List ℕ → List ℕ → String
unfolding concat hex_encode
pbkdf2_literal salt key =
    concat ("pbkdf2-sha256:600000:" ∷ hex_encode salt ∷ ":" ∷ hex_encode key ∷ [])

-- `subtle.ConstantTimeCompare`
unfoldable pub same_bytes : List ℕ → List ℕ → Bool
same_bytes [] [] = true
same_bytes [] (c ∷ cs) = false
same_bytes (b ∷ bs) [] = false
same_bytes (b ∷ bs) (c ∷ cs) = eqb b c && same_bytes bs cs

-- `strings.TrimPrefix`
unfoldable pub trim_prefix : String → String → String
unfolding cut_prefix
trim_prefix prefix s = elim (cut_prefix prefix s) [ none ↦ s | some rest ↦ rest ]

-- `systemUserHashAlgorithm`
unfoldable pub system_user_hash_algorithm : Bool → String
system_user_hash_algorithm fips = if fips then "pbkdf2-sha256" else "bcrypt"

module _ (derive : String → List ℕ → String ⊎ List ℕ) where
  unfoldable pub derives : String ⊎ List ℕ → List ℕ → Bool
  unfolding same_bytes
  derives (inl e) key = false
  derives (inr derived) key = same_bytes derived key

  unfoldable pub decoded_matches : String → String → Option (List ℕ) → Option (List ℕ) → Bool
  unfolding derives pbkdf2_literal
  decoded_matches hash password none key = false
  decoded_matches hash password (some salt) none = false
  decoded_matches hash password (some salt) (some key) =
      eqb (length salt) 16
      && ((pbkdf2_literal salt key == hash) && derives (derive password salt) key)

  unfoldable pub parts_match : String → String → Option (String × String) → Bool
  unfolding decoded_matches hex_decode
  parts_match hash password none = false
  parts_match hash password (some (salt_hex, key_hex)) =
      decoded_matches hash password (hex_decode salt_hex) (hex_decode key_hex)

  -- `pbkdf2HashMatches`
  unfoldable pub pbkdf2_hash_matches : String → String → Bool
  unfolding parts_match cut trim_prefix
  pbkdf2_hash_matches hash password =
      parts_match hash password (cut ":" (trim_prefix "pbkdf2-sha256:600000:" hash))

  module _ (compare : String → String → Bool) where
    unfoldable pub bcrypt_matches : String → Option String → Bool
    bcrypt_matches password none = false
    bcrypt_matches password (some hash) = compare hash password

    -- `systemUserHashMatches`
    unfoldable pub system_user_hash_matches : String → String → Bool → Bool
    unfolding pbkdf2_hash_matches bcrypt_matches cut_prefix
    system_user_hash_matches hash password fips =
        if fips
        then pbkdf2_hash_matches hash password
        else bcrypt_matches password (cut_prefix "bcrypt:" hash)
