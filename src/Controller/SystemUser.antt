-- ===== src/Controller/SystemUser.antt =====
-- internal/controller/systemuser.go: the password of the system user that the operator logs in as, and
-- the Secret that holds its hash. What the API server and the sources of randomness answer in a pass is
-- a record, `Answers`; PBKDF2 and bcrypt are parameters: `derive`, which may fail, `compare` and the
-- hash that `bcrypt.GenerateFromPassword` answers. Whether a pod runs in FIPS mode is read of the pod.
pub mod Algorithms
pub mod Literals
pub mod Hashed
use kubernetes_operator.Prelude.{
  ℕ, String, Bool, true, false, not, ◌&&◌, ◌⊎◌, inl, inr, Option, none, some, List, [], ◌∷◌, ◌++◌,
  length, any, eqb, ◌==◌, if◌then◌else◌, concat,
}
use kubernetes_operator.Prelude.Map.{Map}
use kubernetes_operator.Prelude.Text.{cut_prefix}
use kubernetes_operator.Prelude.Pieces.{cut}
use kubernetes_operator.Prelude.Hex.{hex_encode, hex_decode}
use kubernetes_operator.Settings.{setting_value}
use kubernetes_operator.Topology.{Cluster}
use kubernetes_operator.Controller.Events.{Event, Related, secret_object, event}
use kubernetes_operator.Controller.Secrets.{SecretRead, no_secret, read_error, secret}
use kubernetes_operator.Controller.SystemUser.Algorithms.{
  pbkdf2_literal, system_user_hash_algorithm, system_user_hash_matches,
}

-- `SystemUserSecretName` and `SystemUserHashSecretName`
unfoldable pub system_user_secret_name : Cluster → String
unfolding concat
system_user_secret_name cluster = concat (cluster.name ∷ "-" ∷ "system-user" ∷ [])

unfoldable pub system_user_hash_secret_name : Cluster → String
unfolding concat system_user_secret_name
system_user_hash_secret_name cluster = concat (system_user_secret_name cluster ∷ "-hash" ∷ [])

-- How the API server answers a create.
pub data CreateAnswer : Type 0 where
  created : CreateAnswer
  already_exists : CreateAnswer
  not_created : String → CreateAnswer

-- What a pass is answered, whether it asks or not.
pub record Answers : Type 0 where
  pub password_secret : SecretRead
  pub random_password : String ⊎ String
  pub owner_reference : Option String
  pub create : CreateAnswer
  pub existing : String ⊎ Map String
  pub coordinator_pods : String ⊎ List Bool
  pub data_pods : String ⊎ List Bool
  pub hash_secret : SecretRead
  pub salt : String ⊎ List ℕ
  pub bcrypt_hash : String → String ⊎ String
  pub apply : Option String

-- An error or a value, and the Events recorded on the way.
abbrev pub Noted : Type 0 → Type 0
Noted A = (String ⊎ A) × List Event

unfoldable pub create_answer : Cluster → Answers → String → CreateAnswer → Noted (Map String)
unfolding concat system_user_secret_name event
create_answer cluster a password already_exists = (a.existing, [])
create_answer cluster a password (not_created e) =
    (inl (concat ("creating Secret " ∷ system_user_secret_name cluster ∷ ": " ∷ e ∷ [])), [])
create_answer cluster a password created = (
  inr (("password", password) ∷ []),
  event (secret_object (system_user_secret_name cluster)) "SystemUserCreated" "CreateSystemUser" (
        concat (
          "Generated the password of system user memgraph_internal in Secret "
          ∷ system_user_secret_name cluster
          ∷ []))
      ∷ [],
)

unfoldable pub create_owned : Cluster → Answers → String → Option String → Noted (Map String)
unfolding create_answer concat system_user_secret_name
create_owned cluster a password (some e) = (
  inl (
      concat
        ("setting owner reference on Secret " ∷ system_user_secret_name cluster ∷ ": " ∷ e ∷ [])),
  [],
)
create_owned cluster a password none = create_answer cluster a password a.create

-- `createSystemUserSecret`
unfoldable pub create_system_user_secret : Cluster → Answers → String ⊎ String → Noted (Map String)
unfolding create_owned concat
create_system_user_secret cluster a (inl e) =
    (inl (concat ("generating the system user's password: " ∷ e ∷ [])), [])
create_system_user_secret cluster a (inr password) =
    create_owned cluster a password a.owner_reference

unfoldable pub password_in : Cluster → Noted (Map String) → Noted String
unfolding concat setting_value system_user_secret_name
password_in cluster (inl e, events) =
    (inl (concat ("reading Secret " ∷ system_user_secret_name cluster ∷ ": " ∷ e ∷ [])), events)
password_in cluster (inr values, events) =
    let password = setting_value values "password" in
    (
      (if password == ""
          then inl (
              concat (
                "secret "
                ∷ system_user_secret_name cluster
                ∷ " holds no \"password\" key; delete it and the operator generates a new password"
                ∷ []))
          else inr password),
      events,
    )

unfoldable pub password_read : Cluster → Answers → SecretRead → Noted String
unfolding password_in create_system_user_secret
password_read cluster a no_secret =
    password_in cluster (create_system_user_secret cluster a a.random_password)
password_read cluster a (read_error e) = password_in cluster (inl e, [])
password_read cluster a (secret values) = password_in cluster (inr values, [])

-- `systemUserPassword`
unfoldable pub system_user_password : Cluster → Answers → Noted String
unfolding password_read
system_user_password cluster a = password_read cluster a a.password_secret

unfoldable pub fips_among : String ⊎ List Bool → String ⊎ Bool → String ⊎ Bool
unfolding concat
fips_among (inl e) next = inl (concat ("listing pods: " ∷ e ∷ []))
fips_among (inr pods) next = if any (λ b. b) pods then inr true else next

-- `systemUserNeedsPBKDF2`, where `fips` says whether the spec asks for FIPS mode.
unfoldable pub needs_pbkdf2 : Bool → Answers → String ⊎ Bool
unfolding fips_among
needs_pbkdf2 fips a =
    if fips then inr true else fips_among a.coordinator_pods (fips_among a.data_pods (inr false))

-- What the pass leaves: the password or an error, the hash that it applied, and the Events.
pub record Login : Type 0 where
  pub answer : String ⊎ String
  pub applied : Option String
  pub events : List Event

unfoldable pub failed_login : String → List Event → Login
failed_login e events = record { answer = inl e; applied = none; events = events }

unfoldable pub hash_event : Cluster → Bool → SecretRead → Event
unfolding event concat system_user_hash_secret_name system_user_hash_algorithm
hash_event cluster fips (secret values) =
    event (secret_object (system_user_hash_secret_name cluster)) "SystemUserHashUpdated"
      "UpdateSystemUserHash"
      (concat (
        "Updated the hash of system user memgraph_internal in Secret "
        ∷ system_user_hash_secret_name cluster
        ∷ " to a "
        ∷ system_user_hash_algorithm fips
        ∷ " hash of its password"
        ∷ []))
hash_event cluster fips other =
    event (secret_object (system_user_hash_secret_name cluster)) "SystemUserHashCreated"
      "CreateSystemUserHash"
      (concat (
        "Wrote a "
        ∷ system_user_hash_algorithm fips
        ∷ " hash of the password of system user memgraph_internal into the new Secret "
        ∷ system_user_hash_secret_name cluster
        ∷ []))

-- The hash is applied; the Events are those of a hash that was not there.
unfoldable pub applied_hash : Option String → String → String → List Event → List Event → Login
unfolding failed_login
applied_hash (some e) password hash before after = failed_login e before
applied_hash none password hash before after = record {
  answer = inr password;
  applied = some hash;
  events = before ++ after;
}

module _ (derive : String → List ℕ → String ⊎ List ℕ) (compare : String → String → Bool)
    (cluster : Cluster) (a : Answers) where
  unfoldable pub derived_literal : List ℕ → String ⊎ List ℕ → String ⊎ String
  unfolding concat pbkdf2_literal
  derived_literal salt (inl e) = inl (concat ("hashing the system user's password: " ∷ e ∷ []))
  derived_literal salt (inr key) = inr (pbkdf2_literal salt key)

  unfoldable pub salted_hash : String → String ⊎ List ℕ → String ⊎ String
  unfolding concat derived_literal
  salted_hash password (inl e) = inl (concat ("generating the system user's salt: " ∷ e ∷ []))
  salted_hash password (inr salt) = derived_literal salt (derive password salt)

  unfoldable pub prefixed : String ⊎ String → String ⊎ String
  unfolding concat
  prefixed (inl e) = inl (concat ("hashing the system user's password: " ∷ e ∷ []))
  prefixed (inr hash) = inr (concat ("bcrypt:" ∷ hash ∷ []))

  -- `hashSystemUserPassword`
  unfoldable pub hash_system_user_password : String → Bool → String ⊎ String
  unfolding salted_hash prefixed
  hash_system_user_password password fips =
      if fips then salted_hash password a.salt else prefixed (a.bcrypt_hash password)

  unfoldable pub write_hash : String → Bool → List Event → String ⊎ String → Login
  unfolding failed_login applied_hash hash_event
  write_hash password fips events (inl e) = failed_login e events
  write_hash password fips events (inr hash) =
      applied_hash a.apply password hash events (hash_event cluster fips a.hash_secret ∷ [])

  unfoldable pub hash_read : String → Bool → List Event → SecretRead → Login
  unfolding write_hash applied_hash failed_login concat setting_value system_user_hash_matches
      hash_system_user_password system_user_hash_secret_name
  hash_read password fips events (read_error e) =
      failed_login
        (concat ("reading Secret " ∷ system_user_hash_secret_name cluster ∷ ": " ∷ e ∷ [])) events
  hash_read password fips events no_secret =
      write_hash password fips events (hash_system_user_password password fips)
  hash_read password fips events (secret values) =
      let hash = setting_value values "hash" in
      if system_user_hash_matches derive compare hash password fips
      then applied_hash a.apply password hash events []
      else write_hash password fips events (hash_system_user_password password fips)

  unfoldable pub with_algorithm : String → List Event → String ⊎ Bool → Login
  unfolding hash_read failed_login
  with_algorithm password events (inl e) = failed_login e events
  with_algorithm password events (inr fips) = hash_read password fips events a.hash_secret

  unfoldable pub with_password : Bool → Noted String → Login
  unfolding with_algorithm failed_login needs_pbkdf2
  with_password fips (inl e, events) = failed_login e events
  with_password fips (inr password, events) = with_algorithm password events (needs_pbkdf2 fips a)

  -- `reconcileSystemUser`, where `fips` says whether the spec asks for FIPS mode.
  unfoldable pub reconcile_system_user : Bool → Login
  unfolding with_password system_user_password
  reconcile_system_user fips = with_password fips (system_user_password cluster a)
