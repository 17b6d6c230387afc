-- ===== src/Controller/Pass/Steps.antt =====
-- internal/planner/planner.go and internal/controller/memgraphdbcluster_controller.go: the commands of a
-- plan and `reconcileCoordinatorSettings` neither open nor close a connection.
use kubernetes_operator.Prelude.{
  ℕ, String, ◌≡◌, refl, ap, ◌∙◌, inl, inr, Option, none, some, List, [], ◌∷◌, ◌==◌, Bool-cases,
}
use kubernetes_operator.Prelude.Map.{Map}
use kubernetes_operator.Prelude.Ranges.{Entries}
use kubernetes_operator.Memgraph.{CoordinatorSpec, DataInstanceSpec}
use kubernetes_operator.Planner.Commands.{
  Command, add_coordinator, register_instance, update_coordinator_bolt_server,
  update_instance_bolt_server, set_instance_to_main, demote_instance, unregister_instance,
  remove_coordinator, yield_leadership, Outcome, Client, or_next, restored, restore_main, promote,
  run,
}
use kubernetes_operator.Settings.{Change}
use kubernetes_operator.Topology.{Cluster}
use kubernetes_operator.Controller.CoordinatorSettings.{
  CoordinatorSettings, set_answered, set_each, write_desired, reconcile_coordinator_settings,
}
use kubernetes_operator.Controller.Events.{Failure, or_stop, run_commands, recording}
use kubernetes_operator.Controller.Events.Recording.{run_commands-plain}
use kubernetes_operator.Controller.FlagClasses.{FlagClasses}

-- No operation of the leader's client opens or closes a connection.
pub record Keeps {S : Type 0} (client : Client S) (opened : S → ℕ) : Type 0 where
  pub adds : (c : CoordinatorSpec) (s : S) → opened (client.add c s).1 ≡ opened s
  pub registers : (d : DataInstanceSpec) (s : S) → opened (client.register d s).1 ≡ opened s
  pub updates_coordinator :
      (id : ℕ) (b : String) (s : S) → opened (client.update_coordinator id b s).1 ≡ opened s
  pub updates_instance : (n b : String) (s : S) → opened (client.update_instance n b s).1 ≡ opened s
  pub sets_main : (n : String) (s : S) → opened (client.set_main n s).1 ≡ opened s
  pub demotes : (n : String) (s : S) → opened (client.demote n s).1 ≡ opened s
  pub unregisters : (n : String) (s : S) → opened (client.unregister n s).1 ≡ opened s
  pub removes : (id : ℕ) (s : S) → opened (client.remove id s).1 ≡ opened s
  pub yields : (s : S) → opened (client.yield s).1 ≡ opened s

module _ {S : Type 0} (client : Client S) (opened : S → ℕ) (keeps : Keeps client opened) where
  restored-opened :
      (restore : String) (errs : List String) (o : Outcome S)
      → opened (restored restore errs o).1 ≡ opened o.1
  unfolding restored
  restored-opened restore errs (none, s) = refl
  restored-opened restore errs (some e, s) = refl

  restore_main-opened :
      (restore : String) (errs : List String) (s : S)
      → opened (restore_main client restore errs s).1 ≡ opened s
  unfolding restore_main
  restore_main-opened restore errs s = elim (Bool-cases (restore == "")) [
    | inl t ↦ rw t refl
    | inr f ↦ rw f (restored-opened restore errs _ ∙ keeps.sets_main restore s)
  ]

  or_next-opened :
      (o : Outcome S) (next : String → S → Outcome S)
      → ((reason : String) (s : S) → opened (next reason s).1 ≡ opened s)
      → opened (or_next o next).1 ≡ opened o.1
  or_next-opened (none, s) next after = refl
  or_next-opened (some reason, s) next after = after reason s

  promote-opened :
      (names : List String) (restore : String) (errs : List String) (s : S)
      → opened (promote client names restore errs s).1 ≡ opened s
  unfolding promote
  promote-opened [] restore errs s = restore_main-opened restore errs s
  promote-opened (name ∷ names) restore errs s =
      or_next-opened (client.set_main name s) _ (λ reason t. promote-opened names restore _ t)
      ∙ keeps.sets_main name s

  run-opened : (c : Command) (s : S) → opened (run client c s).1 ≡ opened s
  unfolding run
  run-opened (add_coordinator c) s = keeps.adds c s
  run-opened (register_instance d) s = keeps.registers d s
  run-opened (update_coordinator_bolt_server c) s = keeps.updates_coordinator c.id c.bolt_server s
  run-opened (update_instance_bolt_server d) s = keeps.updates_instance d.name d.bolt_server s
  run-opened (set_instance_to_main names restore) s = promote-opened names restore [] s
  run-opened (demote_instance n) s = keeps.demotes n s
  run-opened (unregister_instance n) s = keeps.unregisters n s
  run-opened (remove_coordinator c) s = keeps.removes c.id s
  run-opened (yield_leadership n) s = keeps.yields s

  or_stop-opened :
      (c : Command) (o : Outcome S) (next : S → Option Failure × S)
      → ((s : S) → opened (next s).1 ≡ opened s)
      → opened (or_stop c o next).1 ≡ opened o.1
  unfolding or_stop
  or_stop-opened c (none, s) next after = after s
  or_stop-opened c (some e, s) next after = refl

  run_commands-opened : (cs : List Command) (s : S) → opened (run_commands client cs s).1 ≡ opened s
  unfolding run_commands
  run_commands-opened [] s = refl
  run_commands-opened (c ∷ cs) s =
      or_stop-opened c (run client c s) _ (run_commands-opened cs) ∙ run-opened c s

  pub recorded_commands-opened :
      (cluster : Cluster) (leader : String) (cs : List Command) (s : S)
      → opened (run_commands (recording cluster leader client) cs (s, [])).1.0 ≡ opened s
  recorded_commands-opened cluster leader cs s =
      ap (λ o. opened o.1) (run_commands-plain cluster leader client cs s [])
      ∙ run_commands-opened cs s

module _ {S : Type 0} (quote : String → String) (set : String → String → S → Outcome S)
    (cluster : Cluster) (leader_name : String) (opened : S → ℕ)
    (keeps : (k v : String) (s : S) → opened (set k v s).1 ≡ opened s) where
  set_answered-opened :
      (c : Change) (ran : List String) (o : Outcome S)
      (next : List String → S → CoordinatorSettings S)
      → ((more : List String) (s : S) → opened (next more s).state ≡ opened s)
      → opened (set_answered quote set cluster leader_name c ran o next).state ≡ opened o.1
  unfolding set_answered
  set_answered-opened c ran (none, s) next after = after _ s
  set_answered-opened c ran (some e, s) next after = refl

  set_each-opened :
      (cs : List Change) (ran : List String) (s : S)
      → opened (set_each quote set cluster leader_name cs ran s).state ≡ opened s
  unfolding set_each
  set_each-opened [] ran s = refl
  set_each-opened (c ∷ cs) ran s =
      set_answered-opened c ran (set c.setting c.value s) _ (set_each-opened cs)
      ∙ keeps c.setting c.value s

  pub coordinator_settings-opened :
      (range : Map String → Entries String) (flags spec : Map String) (classes : FlagClasses)
      (s : S)
      → opened
          (reconcile_coordinator_settings quote set cluster leader_name range flags spec classes
            s).state
        ≡ opened s
  unfolding reconcile_coordinator_settings
  coordinator_settings-opened range flags spec classes s =
      elim (Bool-cases classes.coordinator_settings_known) [
        | inr f ↦ rw f refl
        | inl t ↦ rw t (written _)
      ]
    where
      written :
          (desired : Map String)
          → opened
              (write_desired quote set cluster leader_name range desired
                classes.coordinator_settings s).state
            ≡ opened s
      written [] = unfold write_desired in refl
      written (d ∷ desired) = unfold write_desired in set_each-opened _ [] s
