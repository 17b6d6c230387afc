-- ===== src/Planner/Commands.antt =====
-- The commands of internal/planner/planner.go: their texts and how they run against a client. The
-- client is Memgraph's side of the Bolt connection, which the repository does not implement: it is a
-- parameter, a record of operations on a state `S` that stands for the cluster. An `error` is its
-- text. The log lines of `Run` are left out.
use kubernetes_operator.Prelude.{
  ℕ, String, Option, none, some, List, [], ◌∷◌, ◌++◌, ◌==◌, if◌then◌else◌, concat, join,
}
use kubernetes_operator.Prelude.Decimal.{decimal}
use kubernetes_operator.Memgraph.{CoordinatorSpec, DataInstanceSpec}

-- A field of a constructor is what the struct of that name carries.
pub data Command : Type 0 where
  add_coordinator : CoordinatorSpec → Command
  register_instance : DataInstanceSpec → Command
  update_coordinator_bolt_server : CoordinatorSpec → Command
  update_instance_bolt_server : DataInstanceSpec → Command
  set_instance_to_main : List String → String → Command
  demote_instance : String → Command
  unregister_instance : String → Command
  remove_coordinator : CoordinatorSpec → Command
  yield_leadership : String → Command

-- An operation returns its error, if any, and the state that it leaves.
abbrev pub Outcome : Type 0 → Type 0
Outcome S = Option String × S

-- The part of `memgraph.Client` that commands call.
pub record Client (S : Type 0) : Type 0 where
  pub add : CoordinatorSpec → S → Outcome S
  pub register : DataInstanceSpec → S → Outcome S
  pub update_coordinator : ℕ → String → S → Outcome S
  pub update_instance : String → String → S → Outcome S
  pub set_main : String → S → Outcome S
  pub demote : String → S → Outcome S
  pub unregister : String → S → Outcome S
  pub remove : ℕ → S → Outcome S
  pub yield : S → Outcome S

-- `errors.Join`: nil of nothing, else the texts, a line each.
unfoldable pub errors_join : List String → Option String
unfolding join
errors_join [] = none
errors_join (e ∷ es) = some (join "\n" (e ∷ es))

-- The text under an error; `%w` of nil is not reached below.
unfoldable pub error_text : Option String → String
error_text none = ""
error_text (some e) = e

-- What `Run` returns once `Restore` was tried.
unfoldable pub restored : {S : Type 0} → String → List String → Outcome S → Outcome S
unfolding errors_join error_text concat
restored restore errs (none, s) = (
  some (
      concat (
        "no promotion candidate was accepted, so MAIN was restored to the retiring instance "
        ∷ restore
        ∷ ": "
        ∷ error_text (errors_join errs)
        ∷ [])),
  s,
)
restored restore errs (some e, s) =
    (errors_join (errs ++ concat ("restoring MAIN to " ∷ restore ∷ ": " ∷ e ∷ []) ∷ []), s)

-- `return nil` once an attempt succeeds, and `continue` when it is refused.
abbrev pub or_next : {S : Type 0} → Outcome S → (String → S → Outcome S) → Outcome S
or_next (none, s) next = (none, s)
or_next (some reason, s) next = next reason s

module _ {S : Type 0} (client : Client S) where
  -- What `Run` does when no candidate was promoted.
  unfoldable pub restore_main : String → List String → S → Outcome S
  unfolding errors_join restored
  restore_main restore errs s =
      if restore == ""
      then (errors_join errs, s)
      else restored restore errs (client.set_main restore s)

  -- The loop over the candidates: the first that the cluster accepts ends it.
  unfoldable pub promote : List String → String → List String → S → Outcome S
  unfolding restore_main concat
  promote [] restore errs s = restore_main restore errs s
  promote (name ∷ names) restore errs s = or_next (client.set_main name s) (λ reason s'.
      promote names restore (errs ++ concat ("promoting " ∷ name ∷ ": " ∷ reason ∷ []) ∷ []) s')

  -- `Run`
  unfoldable pub run : Command → S → Outcome S
  unfolding promote
  run (add_coordinator c) s = client.add c s
  run (register_instance d) s = client.register d s
  run (update_coordinator_bolt_server c) s = client.update_coordinator c.id c.bolt_server s
  run (update_instance_bolt_server d) s = client.update_instance d.name d.bolt_server s
  run (set_instance_to_main candidates restore) s = promote candidates restore [] s
  run (demote_instance name) s = client.demote name s
  run (unregister_instance name) s = client.unregister name s
  run (remove_coordinator c) s = client.remove c.id s
  run (yield_leadership leader) s = client.yield s

-- The instances that a promotion names, in the order in which they are tried.
unfoldable pub targets : List String → String → List String
targets candidates restore = if restore == "" then candidates else candidates ++ restore ∷ []

promotion_text : List String → String
unfolding concat join
promotion_text [] = "SET INSTANCE TO MAIN (no candidate)"
promotion_text (t ∷ []) = concat ("SET INSTANCE " ∷ t ∷ " TO MAIN" ∷ [])
promotion_text (t ∷ u ∷ us) =
    concat ("SET INSTANCE " ∷ t ∷ " TO MAIN (or, if refused: " ∷ join ", " (u ∷ us) ∷ ")" ∷ [])

-- `String`
unfoldable pub command_text : Command → String
unfolding targets promotion_text concat decimal
command_text (add_coordinator c) = concat ("ADD COORDINATOR " ∷ decimal c.id ∷ [])
command_text (register_instance d) = concat ("REGISTER INSTANCE " ∷ d.name ∷ [])
command_text (update_coordinator_bolt_server c) =
    concat (
      "UPDATE CONFIG FOR COORDINATOR " ∷ decimal c.id ∷ " (bolt_server " ∷ c.bolt_server ∷ ")" ∷ [])
command_text (update_instance_bolt_server d) =
    concat ("UPDATE CONFIG FOR INSTANCE " ∷ d.name ∷ " (bolt_server " ∷ d.bolt_server ∷ ")" ∷ [])
command_text (set_instance_to_main candidates restore) = promotion_text (targets candidates restore)
command_text (demote_instance name) = concat ("DEMOTE INSTANCE " ∷ name ∷ [])
command_text (unregister_instance name) = concat ("UNREGISTER INSTANCE " ∷ name ∷ [])
command_text (remove_coordinator c) = concat ("REMOVE COORDINATOR " ∷ decimal c.id ∷ [])
command_text (yield_leadership leader) = "YIELD LEADERSHIP"
