-- ===== src/Scenarios/Reaching.antt =====
-- Addresses outside the cluster, a row of the replication lag, and an instance without TLS.
use kubernetes_operator.Prelude.{
  ℕ, ◌<◌, String, ◌≡◌, ◌↔◌, ◌⊎◌, refl, inl, inr, true, false, some, [], ◌∷◌, In, eqb, ◌==◌,
  Bool-cases, if◌then◌else◌,
}
use kubernetes_operator.Prelude.Int.{pos, ltb_ℤ}
use kubernetes_operator.Prelude.Sorted.{sort_by, insert_by}
use kubernetes_operator.Memgraph.{ReplicationLag, is_caught_up, databases_caught_up, behind}
use kubernetes_operator.Controller.Exposure.{
  ExternalAccess, no_external_access, new_external_access, announce_coordinators, announce_data,
  announce_read, announce_from, observe_members,
}
use kubernetes_operator.Controller.Exposure.Pending.{Owes, exposure_lem}
use kubernetes_operator.Bolt.Rows.{
  Fields, nil, field, text, number, mapping, get, text_of, string_column, as_map, map_column,
  int_of, int_entry, field_names, database_counters, entry_of, database_lag, prepend, database_lags,
  lag_of, lag_from_databases, replication_lag_from_record,
}
use kubernetes_operator.Bolt.Login.{
  Credentials, system_user, no_credentials, DialAnswer, login_refused, dial_failed, connected,
  connect,
}
use kubernetes_operator.Bolt.Records.{Counted, caught_up_counted}
use kubernetes_operator.Bolt.Dial.{HasDriver, connect_reaches}

-- The first data instance has an address, the coordinators and the second have none yet.
abbrev address : ℕ → String ⊎ String
address n = if eqb n 0 then inr "lb-0:7687" else inr ""

abbrev object : ℕ → String
object n = if eqb n 0 then "demo-data-0-external" else "demo-data-1-external"

abbrev exposed : ExternalAccess
exposed = elim (observe_members address object (inr "") "demo-coordinator-external" 2) [
  | inl e ↦ no_external_access
  | inr e ↦ e
]

observed : observe_members address object (inr "") "demo-coordinator-external" 2 ≡ inr exposed
unfolding observe_members announce_from announce_read announce_data announce_coordinators
    new_external_access
observed = refl

exposure_lem_example :
    (◌≡◌ {A = String ⊎ String} (inr "") (inr exposed.addresses.coordinators))
    × ((k : ℕ) → k < 2 → address k ≡ inr (exposed.addresses.data_instances k))
    × ((name : String)
        → In name exposed.pending ↔ (
            ((◌≡◌ {A = String ⊎ String} (inr "") (inr "")) × ("demo-coordinator-external" ≡ name))
            ⊎ Owes address object 0 2 name))
exposure_lem_example =
    exposure_lem address object (inr "") "demo-coordinator-external" 2 exposed observed

abbrev lag_row : Fields
lag_row = field "instance_name" (text "instance_0") (
    field "data_info"
      (mapping (
        field "memgraph"
          (mapping (
            field "num_committed_txns" (number (pos 5))
              (field "num_txns_behind_main" (number (pos 0)) nil)))
          nil))
      nil)

abbrev lag : ReplicationLag
lag = record {
  instance_name = "instance_0";
  databases =
      record { database = "memgraph"; committed_txns = pos 5; txns_behind_main = pos 0 } ∷ [];
}

lag_read : replication_lag_from_record lag_row ≡ inr lag
unfolding replication_lag_from_record lag_from_databases lag_of database_lags prepend database_lag
    database_counters entry_of int_entry int_of map_column as_map string_column text_of get
    field_names sort_by insert_by
lag_read = refl

caught : is_caught_up lag ≡ true
unfolding is_caught_up databases_caught_up behind
caught = refl

caught_up_counted_example :
    (databases : Fields) × (map_column lag_row "data_info" ≡ some databases)
    × ((k : String)
        → In k (field_names databases)
        → Counted
            (string_column lag_row "instance_name")
            databases
            k
            (λ behind_main. ltb_ℤ (pos 0) behind_main ≡ false))
caught_up_counted_example = caught_up_counted lag_row lag lag_read caught

-- The instance speaks no TLS and knows no system user.
abbrev dial : String → Credentials → String → DialAnswer Unit
dial scheme creds address' =
    if scheme == "bolt"
    then (elim creds [
      | system_user password ↦ login_refused "no user"
      | no_credentials ↦ connected tt
    ])
    else dial_failed "no TLS"

drivers :
    (scheme : String) (creds : Credentials) → HasDriver dial "d0:7687" (dial scheme creds "d0:7687")
drivers scheme creds = elim (Bool-cases (scheme == "bolt")) [
  | inr f ↦ rw f tt
  | inl t ↦ rw t (known creds)
]
  where
    known :
        (c : Credentials)
        → HasDriver dial "d0:7687" (elim c [
          | system_user password ↦ login_refused "no user"
          | no_credentials ↦ connected tt
        ])
    known (system_user password) = tt
    known no_credentials = tt

connect_reaches_example : (c : Unit) × (connect dial "d0:7687" true "pw" ≡ inr c)
connect_reaches_example =
    connect_reaches dial "d0:7687" true "pw" (inl ((tt, refl), λ password. tt)) drivers
