-- ===== src/Controller/Applying.antt =====
-- internal/controller/memgraphdbcluster_controller.go: the settings of the pods' instances, read at most
-- once in a pass and written one connection per pod. The connections are the Bolt driver's and a
-- parameter, a record of operations on a state `S`; `quote` is Go's `%q`, whose table is a parameter
-- too. An `error` is its text. The map that a read returned is shared by all that read it, so a SET
-- that lands is written to the pod's entry of `Reads`. Log lines are left out.
pub mod Once
pub mod Settled
pub mod Opened
use kubernetes_operator.Prelude.{
  String, Bool, ◌⊎◌, inl, inr, Option, none, some, List, [], ◌∷◌, ◌++◌, map, concat, join,
}
use kubernetes_operator.Prelude.Map.{Map, lookup, insert}
use kubernetes_operator.Settings.{Change}
use kubernetes_operator.Topology.{Endpoint}
use kubernetes_operator.Controller.Events.{Event, pod, event, warning}

-- `Connect` of the connector, and `ShowSettings`, `ShowConfig`, `SetSetting` and `Close` of the client.
pub record Instances (S Connection : Type 0) : Type 0 where
  pub connect : String → Bool → S → (String ⊎ Connection) × S
  pub show_settings : Connection → S → (String ⊎ Map String) × S
  pub show_config : Connection → S → (String ⊎ Map String) × S
  pub set_setting : Connection → String → String → S → Option String × S
  pub close : Connection → S → Option String × S

-- `podSettingsRead`: the error of a read, or the settings.
abbrev pub Read : Type 0
Read = String ⊎ Map String

-- `podSettings`
abbrev pub Reads : Type 0
Reads = Map Read

-- How `applySettings` ends: all landed, a SET was refused, or the pod could not be reached.
pub data Ending : Type 0 where
  landed : Ending
  refused : String → String → Ending
  unreachable : String → Ending

-- What `applySettings` leaves.
pub record Application (S : Type 0) : Type 0 where
  pub changes : List Change
  pub ending : Ending
  pub events : List Event
  pub reads : Reads
  pub state : S

-- What the SETs left of one pod's changes: those that landed, the settings as they are known now, and
-- how it ended.
pub record Setting (S : Type 0) : Type 0 where
  pub made : List Change
  pub ending : Ending
  pub known : Map String
  pub state : S

-- `runTimeSetting` and `secretSetting`
unfoldable pub run_time_setting : (String → String) → Change → String
unfolding concat
run_time_setting quote c =
    concat ("SET DATABASE SETTING " ∷ quote c.setting ∷ " TO " ∷ quote c.value ∷ [])

unfoldable pub secret_setting : (String → String) → Change → String
unfolding concat
secret_setting quote c =
    concat ("SET DATABASE SETTING " ∷ quote c.setting ∷ " from the Secret" ∷ [])

-- `recordRan`: one Event for the SETs that landed, if any did.
unfoldable pub ran_events : (Change → String) → String → String → List Change → List Event
unfolding event concat join
ran_events describe action name [] = []
ran_events describe action name (c ∷ cs) =
    event (pod name) "SettingApplied" action
      (concat ("Ran " ∷ join ", " (map describe (c ∷ cs)) ∷ " on pod " ∷ name ∷ []))
    ∷ []

unfoldable pub ending_events : String → String → Ending → List Event
unfolding warning concat
ending_events action name landed = []
ending_events action name (unreachable e) = []
ending_events action name (refused command e) =
    warning (pod name) "SettingRejected" action
      (concat ("Pod " ∷ name ∷ " rejected " ∷ command ∷ ": " ∷ e ∷ []))
    ∷ []

module _ {S Connection : Type 0} (instances : Instances S Connection) where
  unfoldable pub read_over : (Connection → S → Read × S) → (String ⊎ Connection) × S → Read × S
  read_over query (inl e, s) = (inl e, s)
  read_over query (inr c, s) = let answer = query c s in (answer.0, (instances.close c answer.1).1)

  -- `readInstance`
  unfoldable pub read_instance : (Connection → S → Read × S) → Endpoint → S → Read × S
  unfolding read_over
  read_instance query e s = read_over query (instances.connect e.address e.tls s)

  unfoldable pub kept_read : Endpoint → Option Read → Reads → S → Read × Reads × S
  unfolding read_instance insert
  kept_read e (some r) reads s = (r, reads, s)
  kept_read e none reads s =
      let fresh = read_instance instances.show_settings e s in
      (fresh.0, insert e.pod fresh.0 reads, fresh.1)

  -- `observedSettings`
  unfoldable pub observed_settings : Endpoint → Reads → S → Read × Reads × S
  unfolding kept_read lookup
  observed_settings e reads s = kept_read e (lookup e.pod reads) reads s

  module _ (describe : Change → String) where
    unfoldable pub set_next :
        Change → Map String → Option String × S → (Map String → S → Setting S) → Setting S
    set_next c known (some e, s) next = record {
      made = [];
      ending = refused (describe c) e;
      known = known;
      state = s;
    }
    set_next c known (none, s) next =
        let later = next (insert c.setting c.value known) s in
        record later { made = c ∷ later.made }

    -- The loop over the changes.
    unfoldable pub set_changes : Connection → List Change → Map String → S → Setting S
    unfolding set_next
    set_changes c [] known s = record { made = []; ending = landed; known = known; state = s }
    set_changes c (x ∷ xs) known s =
        set_next x known (instances.set_setting c x.setting x.value s) (set_changes c xs)

    unfoldable pub apply_over :
        String
        → Endpoint
        → List Change
        → Map String
        → Reads
        → (String ⊎ Connection) × S
        → Application S
    unfolding set_changes ran_events ending_events insert
    apply_over action e changes known reads (inl err, s) = record {
      changes = [];
      ending = unreachable err;
      events = [];
      reads = reads;
      state = s;
    }
    apply_over action e changes known reads (inr c, s) =
        let done = set_changes c changes known s in
        record {
          changes = done.made;
          ending = done.ending;
          events =
              ran_events describe action e.pod done.made ++ ending_events action e.pod done.ending;
          reads = insert e.pod (inr done.known) reads;
          state = (instances.close c done.state).1;
        }

    -- The instance is dialed only when there is something to SET.
    unfoldable pub apply_planned :
        String → Endpoint → List Change → Map String → Reads → S → Application S
    unfolding apply_over
    apply_planned action e [] known reads s = record {
      changes = [];
      ending = landed;
      events = [];
      reads = reads;
      state = s;
    }
    apply_planned action e (x ∷ xs) known reads s =
        apply_over action e (x ∷ xs) known reads (instances.connect e.address e.tls s)

    unfoldable pub apply_read :
        String → Endpoint → (Map String → List Change) → Read × Reads × S → Application S
    unfolding apply_planned
    apply_read action e plan (inl err, reads, s) = record {
      changes = [];
      ending = unreachable err;
      events = [];
      reads = reads;
      state = s;
    }
    apply_read action e plan (inr known, reads, s) =
        apply_planned action e (plan known) known reads s

    -- `applySettings`
    unfoldable pub apply_settings :
        String → Endpoint → (Map String → List Change) → Reads → S → Application S
    unfolding apply_read observed_settings
    apply_settings action e plan reads s = apply_read action e plan (observed_settings e reads s)
