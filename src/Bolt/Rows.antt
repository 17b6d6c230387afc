-- ===== src/Bolt/Rows.antt =====
-- internal/memgraph/bolt.go: how the rows that Memgraph answers are read. A record is its columns, a
-- map that a column holds is its entries, and the type `any` is `Value`.
use kubernetes_operator.Prelude.{
  String, ◌⊎◌, inl, inr, Option, none, some, List, [], ◌∷◌, ◌==◌, if◌then◌else◌, concat,
}
use kubernetes_operator.Prelude.Int.{ℤ}
use kubernetes_operator.Prelude.Map.{Map, insert}
use kubernetes_operator.Prelude.Sorted.{sort_by}
use kubernetes_operator.Memgraph.{Instance, DatabaseLag, ReplicationLag}

mutual
  pub data Value : Type 0 where
    text : String → Value
    number : ℤ → Value
    mapping : Fields → Value
    other : Value

  pub data Fields : Type 0 where
    nil : Fields
    field : String → Value → Fields → Fields

-- `record.Get(key)`, and `m[key]`.
unfoldable pub get : String → Fields → Option Value
get key nil = none
get key (field name value rest) =
    let later = get key rest in if name == key then some value else later

unfoldable pub text_of : Option Value → String
text_of none = ""
text_of (some (text s)) = s
text_of (some (number n)) = ""
text_of (some (mapping m)) = ""
text_of (some other) = ""

-- `stringColumn`
unfoldable pub string_column : Fields → String → String
unfolding text_of get
string_column record_ key = text_of (get key record_)

-- `asMap`, of a value that may be missing.
unfoldable pub as_map : Option Value → Option Fields
as_map none = none
as_map (some (text s)) = none
as_map (some (number n)) = none
as_map (some (mapping m)) = some m
as_map (some other) = none

-- `mapColumn`
unfoldable pub map_column : Fields → String → Option Fields
unfolding as_map get
map_column record_ key = as_map (get key record_)

unfoldable pub int_of : Option Value → Option ℤ
int_of none = none
int_of (some (text s)) = none
int_of (some (number n)) = some n
int_of (some (mapping m)) = none
int_of (some other) = none

-- `intEntry`
unfoldable pub int_entry : Fields → String → Option ℤ
unfolding int_of get
int_entry m key = int_of (get key m)

-- `instanceFromRecord`
unfoldable pub instance_from_record : Fields → Instance
unfolding string_column
instance_from_record r = record {
  name = string_column r "name";
  bolt_server = string_column r "bolt_server";
  coordinator_server = string_column r "coordinator_server";
  management_server = string_column r "management_server";
  health = string_column r "health";
  role = string_column r "role";
}

unfoldable pub field_names : Fields → List String
field_names nil = []
field_names (field name value rest) = name ∷ field_names rest

-- The error of a row of SHOW REPLICATION LAG.
unfoldable pub lag_error : String → String → String
unfolding concat
lag_error name what = concat ("SHOW REPLICATION LAG row for " ∷ name ∷ what ∷ [])

unfoldable pub database_counters :
    String → String → Option Fields → Option ℤ → Option ℤ → String ⊎ DatabaseLag
unfolding lag_error concat
database_counters name database none committed behind =
    inl (lag_error name (concat (" carries no counters for database " ∷ database ∷ [])))
database_counters name database (some m) none behind =
    inl (lag_error name (concat (" is missing num_committed_txns for database " ∷ database ∷ [])))
database_counters name database (some m) (some committed) none =
    inl (lag_error name (concat (" is missing num_txns_behind_main for database " ∷ database ∷ [])))
database_counters name database (some m) (some committed) (some behind) =
    inr (record { database = database; committed_txns = committed; txns_behind_main = behind })

unfoldable pub entry_of : Option Fields → String → Option ℤ
unfolding int_entry
entry_of none key = none
entry_of (some m) key = int_entry m key

unfoldable pub database_lag : String → Fields → String → String ⊎ DatabaseLag
unfolding database_counters as_map get entry_of
database_lag name databases database =
    let counters = as_map (get database databases) in
    database_counters name database counters (entry_of counters "num_committed_txns")
      (entry_of counters "num_txns_behind_main")

unfoldable pub prepend :
    String ⊎ DatabaseLag → String ⊎ List DatabaseLag → String ⊎ List DatabaseLag
prepend (inl e) rest = inl e
prepend (inr d) (inl e) = inl e
prepend (inr d) (inr ds) = inr (d ∷ ds)

unfoldable pub database_lags : String → Fields → List String → String ⊎ List DatabaseLag
unfolding prepend database_lag
database_lags name databases [] = inr []
database_lags name databases (k ∷ ks) =
    prepend (database_lag name databases k) (database_lags name databases ks)

unfoldable pub lag_of : String → String ⊎ List DatabaseLag → String ⊎ ReplicationLag
lag_of name (inl e) = inl e
lag_of name (inr ds) = inr (record { instance_name = name; databases = ds })

unfoldable pub lag_from_databases : String → Option Fields → String ⊎ ReplicationLag
unfolding lag_of database_lags sort_by field_names lag_error
lag_from_databases name none = inl (lag_error name " carries no data_info map")
lag_from_databases name (some databases) =
    lag_of name (database_lags name databases (sort_by (λ s. s) (field_names databases)))

-- `replicationLagFromRecord`
unfoldable pub replication_lag_from_record : Fields → String ⊎ ReplicationLag
unfolding lag_from_databases string_column map_column
replication_lag_from_record r =
    let name = string_column r "instance_name" in
    if name == ""
    then inl "SHOW REPLICATION LAG row carries no instance_name"
    else lag_from_databases name (map_column r "data_info")

unfoldable pub named_row : String → String → Fields → Map String → String ⊎ Map String
unfolding string_column concat insert
named_row name_column value_column r values =
    let name = string_column r name_column in
    if name == ""
    then inl (concat ("row carries no " ∷ name_column ∷ []))
    else inr (insert name (string_column r value_column) values)

unfoldable pub or_error :
    String ⊎ Map String → (Map String → String ⊎ Map String) → String ⊎ Map String
or_error (inl e) next = inl e
or_error (inr values) next = next values

unfoldable pub named_rows : String → String → List Fields → Map String → String ⊎ Map String
unfolding named_row or_error
named_rows name_column value_column [] values = inr values
named_rows name_column value_column (r ∷ rs) values =
    or_error (named_row name_column value_column r values) (named_rows name_column value_column rs)

-- `namedValuesFromRecords` and `settingsFromRecords`
unfoldable pub named_values_from_records : List Fields → String → String → String ⊎ Map String
unfolding named_rows
named_values_from_records records name_column value_column =
    named_rows name_column value_column records []

unfoldable pub settings_from_records : List Fields → String ⊎ Map String
unfolding named_values_from_records
settings_from_records records = named_values_from_records records "setting_name" "setting_value"
