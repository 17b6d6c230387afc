-- ===== src/Controller/SystemUser/Hashed.antt =====
-- internal/controller/systemuser.go, `reconcileSystemUser`: the hash that a pass leaves.
use kubernetes_operator.Prelude.{
  ℕ, String, ◌≡◌, refl, sym, ap, ◌∙◌, subst, ◌⊎◌, inl, inr, Bool, true, false, Option, none, some,
  List, [], length, Bool-cases, concat,
}
use text.Mathlib.TextLemmas.{append-nil}
use Prim.Native.String as Text
use kubernetes_operator.Prelude.Map.{Map}
use kubernetes_operator.Prelude.Text.{cut_prefix_iff}
use kubernetes_operator.Settings.{setting_value}
use kubernetes_operator.Topology.{Cluster}
use kubernetes_operator.Controller.Events.{Event}
use kubernetes_operator.Controller.Secrets.{SecretRead, no_secret, read_error, secret}
use kubernetes_operator.Controller.SystemUser.{
  Answers, Noted, system_user_password, needs_pbkdf2, failed_login, applied_hash, derived_literal,
  salted_hash, prefixed, hash_system_user_password, write_hash, hash_read, with_algorithm,
  with_password, reconcile_system_user,
}
use kubernetes_operator.Controller.SystemUser.Algorithms.{
  pbkdf2_literal, system_user_hash_matches, bcrypt_matches,
}
use kubernetes_operator.Controller.SystemUser.Literals.{Bytes, pbkdf2_hash_matches_iff}

module _ (derive : String → List ℕ → String ⊎ List ℕ) (compare : String → String → Bool)
    (cluster : Cluster) (a : Answers) where
  abbrev matches : String → String → Bool → Bool
  matches hash password fips = system_user_hash_matches derive compare hash password fips

  -- What the libraries promise: a salt has sixteen bytes, a derived key is bytes, and the hash that
  -- bcrypt generates of a password compares to it.
  pub record IsSound : Type 0 where
    pub salted : (salt : List ℕ) → a.salt ≡ inr salt → (length salt ≡ 16) × Bytes salt
    pub keyed : (password : String) (salt key : List ℕ) → derive password salt ≡ inr key → Bytes key
    pub compared :
        (password hash : String) → a.bcrypt_hash password ≡ inr hash → compare hash password ≡ true

  -- The pass applied a hash of the password, and kept the one that was there if that matched.
  abbrev pub Hashes : String → Bool → SecretRead → Option String → Type 0
  Hashes password fips read applied =
      (hash : String) × (applied ≡ some hash)
      × (system_user_hash_matches derive compare hash password fips ≡ true)
      × ((values : Map String)
          → read ≡ secret values
          → system_user_hash_matches derive compare (setting_value values "hash") password fips
            ≡ true
          → hash ≡ setting_value values "hash")

  pbkdf2_matched :
      (password : String) (o : String ⊎ List ℕ) (hash : String)
      → IsSound
      → a.salt ≡ o
      → salted_hash derive compare cluster a password o ≡ inr hash
      → matches hash password true ≡ true
  unfolding salted_hash system_user_hash_matches
  pbkdf2_matched password (inl e) hash sound was h = cc
  pbkdf2_matched password (inr salt) hash sound was h = from (derive password salt) refl h
    where
      from :
          (o : String ⊎ List ℕ)
          → derive password salt ≡ o
          → derived_literal derive compare cluster a salt o ≡ inr hash
          → matches hash password true ≡ true
      from (inl e) d g = unfold derived_literal in cc
      from (inr key) d g =
          unfold derived_literal in
          let literal : pbkdf2_literal salt key ≡ hash = cc in
          let (sixteen, small) = sound.salted salt was in
          (pbkdf2_hash_matches_iff derive password hash).1
            (salt, key, (sixteen, small, sound.keyed password salt key d, d), sym literal)

  bcrypt_matched :
      (password : String) (o : String ⊎ String) (hash : String)
      → IsSound
      → a.bcrypt_hash password ≡ o
      → prefixed derive compare cluster a o ≡ inr hash
      → matches hash password false ≡ true
  unfolding prefixed system_user_hash_matches bcrypt_matches concat
  bcrypt_matched password (inl e) hash sound was h = cc
  bcrypt_matched password (inr raw) hash sound was h =
      let shape : Text.◌++◌ "bcrypt:" (Text.◌++◌ raw "") ≡ hash = cc in
      let found =
        (cut_prefix_iff "bcrypt:" hash raw).1
          (sym shape ∙ ap (Text.◌++◌ "bcrypt:") (append-nil raw)) in
      ap (bcrypt_matches derive compare password) found ∙ sound.compared password raw was

  new_hash_matches :
      (password : String) (fips : Bool) (hash : String)
      → IsSound
      → hash_system_user_password derive compare cluster a password fips ≡ inr hash
      → matches hash password fips ≡ true
  unfolding hash_system_user_password
  new_hash_matches password true hash sound h = pbkdf2_matched password a.salt hash sound refl h
  new_hash_matches password false hash sound h =
      bcrypt_matched password (a.bcrypt_hash password) hash sound refl h

  applied_lem :
      (o : Option String) (password hash p : String) (before after : List Event)
      → (applied_hash o password hash before after).answer ≡ inr p
      → (password ≡ p) × ((applied_hash o password hash before after).applied ≡ some hash)
  unfolding applied_hash failed_login
  applied_lem (some e) password hash p before after h = cc
  applied_lem none password hash p before after h = let same : password ≡ p = cc in (same, refl)

  written :
      (password p : String) (fips : Bool) (events : List Event) (o : String ⊎ String)
      → IsSound
      → hash_system_user_password derive compare cluster a password fips ≡ o
      → (write_hash derive compare cluster a password fips events o).answer ≡ inr p
      → (password ≡ p)
        × ((hash : String) × ((write_hash derive compare cluster a password fips events o).applied
              ≡ some hash)
            × (matches hash password fips ≡ true))
  unfolding write_hash failed_login
  written password p fips events (inl e) sound was h = cc
  written password p fips events (inr hash) sound was h =
      let (same, applied) = applied_lem a.apply password hash p events _ h in
      (same, (hash, applied, new_hash_matches password fips hash sound was))

  read-Hashes :
      (password p : String) (fips : Bool) (events : List Event) (r : SecretRead)
      → IsSound
      → (hash_read derive compare cluster a password fips events r).answer ≡ inr p
      → (password ≡ p)
        × Hashes password fips r (hash_read derive compare cluster a password fips events r).applied
  unfolding hash_read failed_login
  read-Hashes password p fips events (read_error e) sound h = cc
  read-Hashes password p fips events no_secret sound h =
      let (same, (hash, applied, good)) = written password p fips events _ sound refl h in
      (same, (hash, applied, good, λ values e kept. cc))
  read-Hashes password p fips events (secret values) sound h =
      elim (Bool-cases (matches (setting_value values "hash") password fips)) [
        | inl t ↦
            let (same, applied) =
              applied_lem a.apply password (setting_value values "hash") p events [] (rw t at h) in
            (
              same,
              (
                setting_value values "hash",
                rw t applied,
                t,
                λ others e kept.
                    let one : values ≡ others = cc in ap (λ m. setting_value m "hash") one,
              ),
            )
        | inr f ↦
            let (same, (hash, applied, good)) =
              written password p fips events _ sound refl (rw f at h) in
            (
              same,
              (
                hash,
                rw f applied,
                good,
                λ others e kept.
                    let one : values ≡ others = cc in
                    let never : matches (setting_value values "hash") password fips ≡ true =
                      ap (λ m. matches (setting_value m "hash") password fips) one ∙ kept in
                    cc,
              ),
            )
      ]

  -- A pass that returns a password has read or created that password, and it has applied a hash that
  -- matches it by the algorithm that the pods need; a hash that matched already is applied as it was.
  -- The libraries are sound: salts have sixteen bytes, keys are bytes, and a password compares to the
  -- hash that bcrypt generates of it.
  pub system_user_lem :
      (fips : Bool) (password : String)
      → IsSound
      → (reconcile_system_user derive compare cluster a fips).answer ≡ inr password
      → ((system_user_password cluster a).0 ≡ inr password)
        × ((needed : Bool) × (needs_pbkdf2 fips a ≡ inr needed)
            × Hashes password needed a.hash_secret
                (reconcile_system_user derive compare cluster a fips).applied)
  unfolding reconcile_system_user
  system_user_lem fips password sound h = from (system_user_password cluster a) h
    where
      chosen :
          (own : String) (events : List Event) (o : String ⊎ Bool)
          → (with_algorithm derive compare cluster a own events o).answer ≡ inr password
          → (own ≡ password)
            × ((needed : Bool) × (o ≡ inr needed)
                × Hashes password needed a.hash_secret
                    (with_algorithm derive compare cluster a own events o).applied)
      chosen own events (inl e) g = unfold with_algorithm in unfold failed_login in cc
      chosen own events (inr needed) g =
          unfold with_algorithm in
          let (same, hashes) = read-Hashes own password needed events a.hash_secret sound g in
          (
            same,
            (
              needed,
              refl,
              subst
                  (λ p.
                    Hashes p needed a.hash_secret
                      (hash_read derive compare cluster a own needed events a.hash_secret).applied)
                  same hashes,
            ),
          )

      from :
          (o : Noted String)
          → (with_password derive compare cluster a fips o).answer ≡ inr password
          → (o.0 ≡ inr password)
            × ((needed : Bool) × (needs_pbkdf2 fips a ≡ inr needed)
                × Hashes password needed a.hash_secret
                    (with_password derive compare cluster a fips o).applied)
      from (inl e, events) g = unfold with_password in unfold failed_login in cc
      from (inr own, events) g =
          unfold with_password in
          let (same, rest) = chosen own events (needs_pbkdf2 fips a) g in (ap inr same, rest)
