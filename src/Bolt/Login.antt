-- ===== src/Bolt/Login.antt =====
-- internal/memgraph/bolt.go, `Connect`: the schemes and the logins that are tried, and in which order.
-- A driver that is given up is closed, which changes nothing that is modelled.
use kubernetes_operator.Prelude.{
  String, Bool, ◌⊎◌, inl, inr, List, [], ◌∷◌, ◌++◌, ◌==◌, if◌then◌else◌, concat, join,
}

-- `dialSchemes`
unfoldable pub dial_schemes : Bool → List String
dial_schemes tls = if tls then "bolt+ssc" ∷ "bolt" ∷ [] else "bolt" ∷ "bolt+ssc" ∷ []

-- `credentials`: the system user with its password, or none.
pub data Credentials : Type 0 where
  system_user : String → Credentials
  no_credentials : Credentials

unfoldable pub credentials_name : Credentials → String
credentials_name (system_user password) = "memgraph_internal"
credentials_name no_credentials = "no credentials"

-- `dialCredentials`, of the password of the pass.
unfoldable pub dial_credentials : String → List Credentials
dial_credentials password =
    if password == "" then no_credentials ∷ [] else system_user password ∷ no_credentials ∷ []

-- What the driver answers to one way of connecting: it cannot be created, the credentials are refused,
-- another failure, or a connection.
pub data DialAnswer (Connection : Type 0) : Type 0 where
  no_driver : String → DialAnswer Connection
  login_refused : String → DialAnswer Connection
  dial_failed : String → DialAnswer Connection
  connected : Connection → DialAnswer Connection

-- What an attempt with a scheme comes to: the end of `Connect`, or the errors so far.
pub data Attempt (Connection : Type 0) : Type 0 where
  ended : String ⊎ Connection → Attempt Connection
  failed : List String → Attempt Connection

module _ {Connection : Type 0} (dial : String → Credentials → String → DialAnswer Connection)
    (address : String) where
  unfoldable pub attempt_error : String → Credentials → String → String
  unfolding concat credentials_name
  attempt_error scheme creds e = concat (scheme ∷ " as " ∷ credentials_name creds ∷ ": " ∷ e ∷ [])

  unfoldable pub answered :
      String
      → Credentials
      → DialAnswer Connection
      → List String
      → (List String → Attempt Connection)
      → Attempt Connection
  unfolding attempt_error concat
  answered scheme creds (no_driver e) errs next =
      ended (inl (concat ("creating bolt driver for " ∷ address ∷ ": " ∷ e ∷ [])))
  answered scheme creds (login_refused e) errs next =
      next (errs ++ (attempt_error scheme creds e ∷ []))
  answered scheme creds (dial_failed e) errs next =
      failed (errs ++ (attempt_error scheme creds e ∷ []))
  answered scheme creds (connected c) errs next = ended (inr c)

  -- The inner loop: another login is tried only where one was refused.
  unfoldable pub with_credentials : String → List Credentials → List String → Attempt Connection
  unfolding answered
  with_credentials scheme [] errs = failed errs
  with_credentials scheme (creds ∷ rest) errs =
      answered scheme creds (dial scheme creds address) errs (with_credentials scheme rest)

  unfoldable pub or_scheme :
      Attempt Connection → (List String → Attempt Connection) → Attempt Connection
  or_scheme (ended end) next = ended end
  or_scheme (failed errs) next = next errs

  unfoldable pub with_schemes : List String → List Credentials → List String → Attempt Connection
  unfolding or_scheme with_credentials
  with_schemes [] credentials errs = failed errs
  with_schemes (scheme ∷ schemes) credentials errs =
      or_scheme (with_credentials scheme credentials errs) (with_schemes schemes credentials)

  unfoldable pub concluded : Attempt Connection → String ⊎ Connection
  unfolding concat join
  concluded (ended end) = end
  concluded (failed errs) = inl (concat ("connecting to " ∷ address ∷ ": " ∷ join "\n" errs ∷ []))

  -- `Connect`
  unfoldable pub connect : Bool → String → String ⊎ Connection
  unfolding concluded with_schemes dial_schemes dial_credentials
  connect tls password = concluded (with_schemes (dial_schemes tls) (dial_credentials password) [])
