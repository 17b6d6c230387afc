-- ===== src/Bolt/Dial.antt =====
-- internal/memgraph/bolt.go, `Connect`: the fallbacks reach an instance in either mode.
use kubernetes_operator.Prelude.{
  String, ◌≡◌, refl, ◌⊎◌, inl, inr, Bool, true, false, List, [], ◌∷◌, ◌==◌, Bool-cases,
}
use kubernetes_operator.Bolt.Login.{
  Credentials, system_user, no_credentials, dial_credentials, dial_schemes, DialAnswer, no_driver,
  login_refused, dial_failed, connected, Attempt, ended, failed, answered, with_credentials,
  or_scheme, with_schemes, concluded, connect,
}

module _ {Connection : Type 0} (dial : String → Credentials → String → DialAnswer Connection)
    (address : String) where
  -- The attempt has a connection.
  abbrev Reached : Attempt Connection → Type 0
  Reached (ended (inl e)) = ⊥
  Reached (ended (inr c)) = Unit
  Reached (failed errs) = ⊥

  -- The attempt has a connection, or leaves it to the next scheme.
  abbrev Open : Attempt Connection → Type 0
  Open (ended (inl e)) = ⊥
  Open (ended (inr c)) = Unit
  Open (failed errs) = Unit

  -- A login that is refused, or a connection.
  abbrev pub Answers : DialAnswer Connection → Type 0
  Answers (no_driver e) = ⊥
  Answers (login_refused e) = Unit
  Answers (dial_failed e) = ⊥
  Answers (connected c) = Unit

  -- The driver can be created.
  abbrev pub HasDriver : DialAnswer Connection → Type 0
  HasDriver (no_driver e) = ⊥
  HasDriver (login_refused e) = Unit
  HasDriver (dial_failed e) = Unit
  HasDriver (connected c) = Unit

  -- The instance speaks the scheme: it lets in a login without credentials, and answers any other.
  abbrev pub Speaks : String → Type 0
  Speaks scheme =
      ((c : Connection) × (dial scheme no_credentials address ≡ connected c))
      × ((password : String) → Answers (dial scheme (system_user password) address))

  answered-Reached :
      (scheme : String) (creds : Credentials) (o : DialAnswer Connection) (errs : List String)
      (next : List String → Attempt Connection)
      → Answers o
      → ((es : List String) → Reached (next es))
      → Reached (answered dial address scheme creds o errs next)
  unfolding answered
  answered-Reached scheme creds (no_driver e) errs next h k = h
  answered-Reached scheme creds (login_refused e) errs next h k = k _
  answered-Reached scheme creds (dial_failed e) errs next h k = h
  answered-Reached scheme creds (connected c) errs next h k = tt

  answered-Open :
      (scheme : String) (creds : Credentials) (o : DialAnswer Connection) (errs : List String)
      (next : List String → Attempt Connection)
      → HasDriver o
      → ((es : List String) → Open (next es))
      → Open (answered dial address scheme creds o errs next)
  unfolding answered
  answered-Open scheme creds (no_driver e) errs next h k = h
  answered-Open scheme creds (login_refused e) errs next h k = k _
  answered-Open scheme creds (dial_failed e) errs next h k = tt
  answered-Open scheme creds (connected c) errs next h k = tt

  unauthenticated :
      (scheme : String) (errs : List String)
      → Speaks scheme
      → Reached (with_credentials dial address scheme (no_credentials ∷ []) errs)
  unfolding with_credentials answered
  unauthenticated scheme errs ((c, found), _) = rw found tt

  scheme-Reached :
      (scheme password : String) (errs : List String)
      → Speaks scheme
      → Reached (with_credentials dial address scheme (dial_credentials password) errs)
  unfolding dial_credentials
  scheme-Reached scheme password errs speaks = elim (Bool-cases (password == "")) [
    | inl t ↦ rw t (unauthenticated scheme errs speaks)
    | inr f ↦ rw f (
        unfold with_credentials in
        answered-Reached scheme (system_user password) (dial scheme (system_user password) address)
          errs (with_credentials dial address scheme (no_credentials ∷ [])) (speaks.1 password)
          (λ es. unauthenticated scheme es speaks))
  ]

  scheme-Open :
      (scheme : String) (credentials : List Credentials) (errs : List String)
      → ((creds : Credentials) → HasDriver (dial scheme creds address))
      → Open (with_credentials dial address scheme credentials errs)
  unfolding with_credentials
  scheme-Open scheme [] errs h = tt
  scheme-Open scheme (creds ∷ rest) errs h =
      answered-Open scheme creds (dial scheme creds address) errs
        (with_credentials dial address scheme rest) (h creds) (λ es. scheme-Open scheme rest es h)

  or_scheme_first :
      (a : Attempt Connection) (next : List String → Attempt Connection)
      → Reached a
      → Reached (or_scheme dial address a next)
  unfolding or_scheme
  or_scheme_first (ended (inl e)) next h = h
  or_scheme_first (ended (inr c)) next h = tt
  or_scheme_first (failed errs) next h = absurd h

  or_scheme_next :
      (a : Attempt Connection) (next : List String → Attempt Connection)
      → Open a
      → ((errs : List String) → Reached (next errs))
      → Reached (or_scheme dial address a next)
  unfolding or_scheme
  or_scheme_next (ended (inl e)) next h k = h
  or_scheme_next (ended (inr c)) next h k = tt
  or_scheme_next (failed errs) next h k = k errs

  first-Reached :
      (scheme other password : String)
      → Speaks scheme
      → Reached (with_schemes dial address (scheme ∷ other ∷ []) (dial_credentials password) [])
  unfolding with_schemes
  first-Reached scheme other password speaks =
      or_scheme_first _ _ (scheme-Reached scheme password [] speaks)

  second-Reached :
      (scheme other password : String)
      → Speaks scheme
      → ((creds : Credentials) → HasDriver (dial other creds address))
      → Reached (with_schemes dial address (other ∷ scheme ∷ []) (dial_credentials password) [])
  unfolding with_schemes
  second-Reached scheme other password speaks drivers =
      or_scheme_next _ _ (scheme-Open other (dial_credentials password) [] drivers)
        (λ errs. or_scheme_first _ _ (scheme-Reached scheme password errs speaks))

  concluded-Reached :
      (a : Attempt Connection) → Reached a → (c : Connection) × (concluded dial address a ≡ inr c)
  unfolding concluded
  concluded-Reached (ended (inl e)) h = absurd h
  concluded-Reached (ended (inr c)) h = (c, refl)
  concluded-Reached (failed errs) h = absurd h

  -- The mode that the instance speaks is one of the two.
  abbrev pub SpeaksOne : Type 0
  SpeaksOne = Speaks "bolt" ⊎ Speaks "bolt+ssc"

  -- An instance that speaks either mode is connected to, whichever mode the spec asks for and whether or
  -- not the pass has a password: if it lets in a login without credentials and answers that of the
  -- system user with a connection or a refusal, and a driver can always be created.
  pub connect_reaches :
      (tls : Bool) (password : String)
      → SpeaksOne
      → ((scheme : String) (creds : Credentials) → HasDriver (dial scheme creds address))
      → (c : Connection) × (connect dial address tls password ≡ inr c)
  unfolding connect dial_schemes
  connect_reaches true password (inl plain) drivers =
      concluded-Reached _ (second-Reached "bolt" "bolt+ssc" password plain (drivers "bolt+ssc"))
  connect_reaches true password (inr tls) drivers =
      concluded-Reached _ (first-Reached "bolt+ssc" "bolt" password tls)
  connect_reaches false password (inl plain) drivers =
      concluded-Reached _ (first-Reached "bolt" "bolt+ssc" password plain)
  connect_reaches false password (inr tls) drivers =
      concluded-Reached _ (second-Reached "bolt+ssc" "bolt" password tls (drivers "bolt"))
