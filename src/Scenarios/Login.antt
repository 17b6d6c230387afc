-- ===== src/Scenarios/Login.antt =====
-- A first pass of a cluster, which creates the system user, with stand-ins for the hash functions.
use kubernetes_operator.Prelude.{
  ℕ, String, Bool, ◌≡◌, ◌↔◌, ◌⊎◌, refl, sym, subst, inr, true, false, none, List, [], ◌∷◌, length,
  In_of_all, ltb, ltb→lt, ◌==◌, eq_iff,
}
use kubernetes_operator.Prelude.Map.{lookup}
use kubernetes_operator.Topology.{Cluster}
use kubernetes_operator.Settings.{setting_value}
use kubernetes_operator.Controller.Secrets.{no_secret}
use kubernetes_operator.Controller.SystemUser.{
  Answers, created, create_answer, create_owned, create_system_user_secret, password_in,
  password_read, system_user_password, fips_among, needs_pbkdf2, applied_hash, prefixed,
  hash_system_user_password, write_hash, hash_read, with_algorithm, with_password,
  reconcile_system_user,
}
use kubernetes_operator.Controller.SystemUser.Algorithms.{pbkdf2_literal, pbkdf2_hash_matches}
use kubernetes_operator.Controller.SystemUser.Literals.{Bytes, Derived, pbkdf2_hash_matches_iff}
use kubernetes_operator.Controller.SystemUser.Hashed.{IsSound, Hashes, system_user_lem}

abbrev cluster : Cluster
cluster = record {
  name = "demo";
  namespace = "db";
  coordinators = none;
  data_instances = none;
  cluster_domain = "";
  bolt_tls_secret = "";
}

abbrev derive : String → List ℕ → String ⊎ List ℕ
derive password salt = inr (7 ∷ [])

abbrev compare : String → String → Bool
compare hash password = hash == password

abbrev sixteen : List ℕ
sixteen = 0 ∷ 1 ∷ 2 ∷ 3 ∷ 4 ∷ 5 ∷ 6 ∷ 7 ∷ 8 ∷ 9 ∷ 10 ∷ 11 ∷ 12 ∷ 13 ∷ 14 ∷ 15 ∷ []

abbrev answers : Answers
answers = record {
  password_secret = no_secret;
  random_password = inr "pw";
  owner_reference = none;
  create = created;
  existing = inr [];
  coordinator_pods = inr [];
  data_pods = inr [];
  hash_secret = no_secret;
  salt = inr sixteen;
  bcrypt_hash = λ password. inr password;
  apply = none;
}

returned : (reconcile_system_user derive compare cluster answers false).answer ≡ inr "pw"
unfolding reconcile_system_user with_password system_user_password password_read password_in
    create_system_user_secret create_owned create_answer setting_value lookup with_algorithm
    needs_pbkdf2 fips_among hash_read write_hash hash_system_user_password prefixed applied_hash
returned = refl

small : Bytes sixteen
small b i = ltb→lt b 256 (In_of_all (λ n. ltb n 256) b sixteen refl i)

seven : Bytes (7 ∷ [])
seven b i = ltb→lt b 256 (In_of_all (λ n. ltb n 256) b (7 ∷ []) refl i)

sound : IsSound derive compare cluster answers
sound = record {
  salted = λ salt e.
      let same : sixteen ≡ salt = cc in
      subst (λ (bs : List ℕ). (length bs ≡ 16) × Bytes bs) same (refl, small);
  keyed = λ password salt key e. let same : 7 ∷ [] ≡ key = cc in subst Bytes same seven;
  compared =
      λ password hash e. let same : password ≡ hash = cc in (eq_iff hash password).1 (sym same);
}

system_user_lem_example :
    ((system_user_password cluster answers).0 ≡ inr "pw")
    × ((needed : Bool) × (needs_pbkdf2 false answers ≡ inr needed)
        × Hashes derive compare cluster answers "pw" needed no_secret
            (reconcile_system_user derive compare cluster answers false).applied)
system_user_lem_example = system_user_lem derive compare cluster answers false "pw" sound returned

pbkdf2_hash_matches_iff_example :
    (pbkdf2_hash_matches derive (pbkdf2_literal sixteen (7 ∷ [])) "pw" ≡ true) ↔ (
      (salt key : List ℕ) × Derived derive "pw" salt key
      × (pbkdf2_literal sixteen (7 ∷ []) ≡ pbkdf2_literal salt key))
pbkdf2_hash_matches_iff_example =
    pbkdf2_hash_matches_iff derive "pw" (pbkdf2_literal sixteen (7 ∷ []))
