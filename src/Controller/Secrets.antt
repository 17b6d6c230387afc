-- ===== src/Controller/Secrets.antt =====
-- internal/controller/memgraphdbcluster_controller.go: the steps of a pass that bring what the Secrets
-- hold to the ready pods, `reconcileAWSCredentials` and `reconcileLicense`. What the API server answers
-- to the read of a Secret is an argument, its values texts. Log lines are left out.
pub mod Licensed
use kubernetes_operator.Prelude.{
  String, Bool, ◌⊎◌, inl, inr, Option, none, some, List, [], ◌∷◌, ◌==◌, if◌then◌else◌, concat, join,
}
use kubernetes_operator.Prelude.Map.{Map, lookup, insert}
use kubernetes_operator.Prelude.Ranges.{Entries}
use kubernetes_operator.Settings.{Change, diff, license_changes}
use kubernetes_operator.Topology.{Endpoint}
use kubernetes_operator.Controller.Conditions.{Condition, condition, truncate_message}
use kubernetes_operator.Controller.Events.{Event}
use kubernetes_operator.Controller.Applying.{Instances, Reads, secret_setting}
use kubernetes_operator.Controller.Settling.{
  SettingsOutcome, nothing_owed, index_ready, Sweep, sweep, Part, both,
}

-- What the read of a Secret answers.
pub data SecretRead : Type 0 where
  no_secret : SecretRead
  read_error : String → SecretRead
  secret : Map String → SecretRead

unfoldable pub credential : Map String → String → String → Map String → Map String
unfolding lookup insert
credential values setting key desired = elim (lookup key values) [
  | none ↦ desired
  | some value ↦ insert setting value desired
]

-- The loop of `readAWSCredentials` over the four values.
unfoldable pub aws_settings : Map String → Map String
unfolding credential
aws_settings values = credential values "aws.endpoint_url" "AWS_ENDPOINT_URL" (
    credential values "aws.region" "AWS_REGION" (
      credential values "aws.secret_key" "AWS_SECRET_ACCESS_KEY"
        (credential values "aws.access_key" "AWS_ACCESS_KEY_ID" [])))

unfoldable pub does_not_exist : String → String
unfolding concat
does_not_exist name = concat ("the Secret " ∷ name ∷ " does not exist" ∷ [])

unfoldable pub not_read : String → String → String
unfolding concat
not_read name e = concat ("getting Secret " ∷ name ∷ ": " ∷ e ∷ [])

-- `readAWSCredentials`
unfoldable pub read_aws_credentials : String → SecretRead → String ⊎ Map String
unfolding aws_settings does_not_exist not_read
read_aws_credentials name no_secret = inl (does_not_exist name)
read_aws_credentials name (read_error e) = inl (not_read name e)
read_aws_credentials name (secret values) = inr (aws_settings values)

-- `LicenseSecret`
pub record LicenseSecret : Type 0 where
  pub name : String
  pub license_key : String
  pub organization_key : String

unfoldable pub no_key : LicenseSecret → String → String
unfolding concat
no_key ref key = concat ("the Secret " ∷ ref.name ∷ " has no key " ∷ key ∷ [])

unfoldable pub license_values :
    LicenseSecret → Option String → Option String → String ⊎ String × String
unfolding no_key
license_values ref none organization = inl (no_key ref ref.license_key)
license_values ref (some license) none = inl (no_key ref ref.organization_key)
license_values ref (some license) (some organization) = inr (license, organization)

-- `readLicense`
unfoldable pub read_license : LicenseSecret → SecretRead → String ⊎ String × String
unfolding license_values lookup does_not_exist not_read
read_license ref no_secret = inl (does_not_exist ref.name)
read_license ref (read_error e) = inl (not_read ref.name e)
read_license ref (secret values) =
    license_values ref (lookup ref.license_key values) (lookup ref.organization_key values)

unfoldable pub not_license_applied : String → String → Condition
unfolding condition
not_license_applied reason message = condition "LicenseApplied" "False" reason message

-- The end of `reconcileLicense`.
unfoldable pub license_condition : String → List String → List String → Condition
unfolding not_license_applied condition truncate_message concat join
license_condition name (r ∷ rs) pending =
    not_license_applied "LicenseRejected" (truncate_message (join "; " (r ∷ rs)))
license_condition name [] (p ∷ ps) =
    not_license_applied "LicensePending"
      (concat ("Waiting to check the license on " ∷ join ", " (p ∷ ps) ∷ []))
license_condition name [] [] =
    condition "LicenseApplied" "True" "LicenseMatchesSecret"
      (concat ("Every ready pod runs the license in Secret " ∷ name ∷ []))

-- What `reconcileLicense` leaves.
pub record Licensing (S : Type 0) : Type 0 where
  pub condition : Condition
  pub events : List Event
  pub reads : Reads
  pub state : S

module _ {S Connection : Type 0} (instances : Instances S Connection)
    (quote : String → String) where
  unfoldable pub settle_aws :
      (Map String → Entries String) → Part → String ⊎ Map String → Reads → S → Sweep S
  unfolding sweep index_ready secret_setting diff concat
  settle_aws range part (inl e) reads s = record {
    outcome = record nothing_owed {
      pending = concat ("the AWS credentials, because " ∷ e ∷ []) ∷ [];
    };
    events = [];
    reads = reads;
    state = s;
  }
  settle_aws range part (inr desired) reads s =
      sweep instances (secret_setting quote) "SetAWSCredentials" (diff (range desired))
        (index_ready part.pods []) part.endpoints reads s

  -- `reconcileAWSCredentials`, with the data instances.
  unfoldable pub reconcile_aws :
      (Map String → Entries String) → String → SecretRead → Part → Reads → S → Sweep S
  unfolding settle_aws read_aws_credentials
  reconcile_aws range name read part reads s =
      if name == ""
      then record { outcome = nothing_owed; events = []; reads = reads; state = s }
      else settle_aws range part (read_aws_credentials name read) reads s

  unfoldable pub license_part : String → String → Part → Reads → S → Sweep S
  unfolding sweep index_ready secret_setting license_changes
  license_part license organization part reads s =
      sweep instances (secret_setting quote) "SetLicense" (license_changes license organization)
        (index_ready part.pods []) part.endpoints reads s

  unfoldable pub settle_license :
      LicenseSecret → Part → Part → String ⊎ String × String → Reads → S → Licensing S
  unfolding license_part both license_condition not_license_applied
  settle_license ref data_part coordinator_part (inl e) reads s = record {
    condition = not_license_applied "LicensePending" e;
    events = [];
    reads = reads;
    state = s;
  }
  settle_license ref data_part coordinator_part (inr (license, organization)) reads s =
      let done =
        both (license_part license organization data_part reads s)
          (license_part license organization coordinator_part) in
      record {
        condition = license_condition ref.name done.outcome.rejected done.outcome.pending;
        events = done.events;
        reads = done.reads;
        state = done.state;
      }

  -- `reconcileLicense`
  unfoldable pub reconcile_license :
      LicenseSecret → SecretRead → Part → Part → Reads → S → Licensing S
  unfolding settle_license read_license
  reconcile_license ref read data_part coordinator_part reads s =
      settle_license ref data_part coordinator_part (read_license ref read) reads s
