-- ===== src/Bolt.antt =====
-- internal/memgraph/bolt.go: the commands and the queries of the production client. The driver is
-- neo4j's and a parameter: what it answers to a query. `quote` is Go's `%q`. Deadlines are the
-- driver's business.
pub mod Rows
pub mod Login
pub mod Records
pub mod Dial
use kubernetes_operator.Prelude.{
  ℕ, String, Bool, true, false, not, ◌⊎◌, inl, inr, Option, none, some, List, [], ◌∷◌, ◌++◌, ◌==◌,
  if◌then◌else◌, concat, join,
}
use kubernetes_operator.Prelude.Int.{ℤ}
use kubernetes_operator.Prelude.Map.{Map, insert}
use kubernetes_operator.Prelude.Sorted.{sort_by}
use kubernetes_operator.Memgraph.{Instance, DatabaseLag, ReplicationLag}
use kubernetes_operator.Planner.Commands.{Outcome, Client}
use kubernetes_operator.Queries.{
  add_coordinator_query, register_instance_query, update_coordinator_bolt_server_query,
  update_instance_bolt_server_query, set_instance_to_main_query, demote_instance_query,
  unregister_instance_query, remove_coordinator_query, set_setting_query,
  set_coordinator_setting_query,
}
use kubernetes_operator.Bolt.Rows.{
  Fields, instance_from_record, named_values_from_records, replication_lag_from_record,
  settings_from_records,
}

-- What the driver answers to a query.
pub data QueryAnswer : Type 0 where
  run_error : String → QueryAnswer
  collect_error : String → QueryAnswer
  records : List Fields → QueryAnswer

unfoldable pub prepend_lag :
    String ⊎ ReplicationLag → String ⊎ List ReplicationLag → String ⊎ List ReplicationLag
prepend_lag (inl e) rest = inl e
prepend_lag (inr l) (inl e) = inl e
prepend_lag (inr l) (inr ls) = inr (l ∷ ls)

unfoldable pub lags_from : List Fields → String ⊎ List ReplicationLag
unfolding prepend_lag replication_lag_from_record
lags_from [] = inr []
lags_from (r ∷ rs) = prepend_lag (replication_lag_from_record r) (lags_from rs)

unfoldable pub instances_from : List Fields → List Instance
unfolding instance_from_record
instances_from [] = []
instances_from (r ∷ rs) = instance_from_record r ∷ instances_from rs

module _ {S : Type 0} (quote : String → String) (query : String → S → QueryAnswer × S) where
  unfoldable pub collected : String → QueryAnswer → String ⊎ List Fields
  unfolding concat
  collected q (run_error e) = inl (concat ("running " ∷ quote q ∷ ": " ∷ e ∷ []))
  collected q (collect_error e) = inl (concat ("collecting results of " ∷ quote q ∷ ": " ∷ e ∷ []))
  collected q (records rs) = inr rs

  -- `run`
  unfoldable pub run_query : String → S → (String ⊎ List Fields) × S
  unfolding collected
  run_query q s = let answer = query q s in (collected q answer.0, answer.1)

  unfoldable pub failure_of : String ⊎ List Fields → Option String
  failure_of (inl e) = some e
  failure_of (inr rs) = none

  -- `_, err := c.run(ctx, query); return err`
  unfoldable pub execute : String → S → Outcome S
  unfolding run_query failure_of
  execute q s = let done = run_query q s in (failure_of done.0, done.1)

  unfoldable pub decoded :
      {A : Type 0} → (List Fields → String ⊎ A) → String ⊎ List Fields → String ⊎ A
  decoded decode (inl e) = inl e
  decoded decode (inr rs) = decode rs

  -- `ShowInstances`, `ShowReplicationLag`, `ShowSettings`, `ShowConfig` and `ShowCoordinatorSettings`
  unfoldable pub show_instances : S → (String ⊎ List Instance) × S
  unfolding decoded run_query instances_from
  show_instances s =
      let done = run_query "SHOW INSTANCES" s in
      (decoded (λ rs. inr (instances_from rs)) done.0, done.1)

  unfoldable pub show_replication_lag : S → (String ⊎ List ReplicationLag) × S
  unfolding decoded run_query lags_from
  show_replication_lag s =
      let done = run_query "SHOW REPLICATION LAG" s in (decoded lags_from done.0, done.1)

  unfoldable pub show_settings : S → (String ⊎ Map String) × S
  unfolding decoded run_query settings_from_records
  show_settings s =
      let done = run_query "SHOW DATABASE SETTINGS" s in
      (decoded settings_from_records done.0, done.1)

  unfoldable pub show_config : S → (String ⊎ Map String) × S
  unfolding decoded run_query named_values_from_records
  show_config s =
      let done = run_query "SHOW CONFIG" s in
      (decoded (λ rs. named_values_from_records rs "name" "current_value") done.0, done.1)

  unfoldable pub show_coordinator_settings : S → (String ⊎ Map String) × S
  unfolding decoded run_query settings_from_records
  show_coordinator_settings s =
      let done = run_query "SHOW COORDINATOR SETTINGS" s in
      (decoded settings_from_records done.0, done.1)

  -- `SetSetting` and `SetCoordinatorSetting`
  unfoldable pub set_setting : String → String → S → Outcome S
  unfolding execute set_setting_query
  set_setting name value s = execute (set_setting_query name value) s

  unfoldable pub set_coordinator_setting : String → String → S → Outcome S
  unfolding execute set_coordinator_setting_query
  set_coordinator_setting name value s = execute (set_coordinator_setting_query name value) s

  -- The commands of `boltClient`, as the planner's commands call them.
  unfoldable pub bolt_client : Client S
  unfolding execute add_coordinator_query register_instance_query
      update_coordinator_bolt_server_query update_instance_bolt_server_query
      set_instance_to_main_query demote_instance_query unregister_instance_query
      remove_coordinator_query
  bolt_client = record {
    add = λ c. execute (add_coordinator_query quote c);
    register = λ d. execute (register_instance_query quote d);
    update_coordinator =
        λ id bolt_server. execute (update_coordinator_bolt_server_query quote id bolt_server);
    update_instance =
        λ name bolt_server. execute (update_instance_bolt_server_query quote name bolt_server);
    set_main = λ name. execute (set_instance_to_main_query name);
    demote = λ name. execute (demote_instance_query name);
    unregister = λ name. execute (unregister_instance_query name);
    remove = λ id. execute (remove_coordinator_query id);
    yield = execute "YIELD LEADERSHIP";
  }
